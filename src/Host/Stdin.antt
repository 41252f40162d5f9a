-- ===== src/Host/Stdin.antt =====
-- crates/core/gpu-host/src/hostcall.rs: the trait StdinSource and its two implementations.
use async_gpu.Prelude.{ℕ, ◌≤◌, Bool, true, false, List, [], min, length, take, length-take, arith}
use async_gpu.Host.Os.{Os, IoResult, ok, err}

-- `read_line_bytes` for a buffer of the given length: the bytes that it puts there, whose number it
-- returns, are no more than fit.
pub record StdinSource (W S : Type 0) : Type 0 where
  pub read_line_bytes : ℕ → W → S → List ℕ × W × S
  pub read_line_fits : (n : ℕ) (w : W) (s : S) → length (read_line_bytes n w s).0 ≤ n

length-take_fits : (n : ℕ) (xs : List ℕ) → length (take (min (length xs) n) xs) ≤ n
length-take_fits n xs = omega (arith, length-take (min (length xs) n) xs)

-- What a read of a line puts in the buffer: nothing at the end of the input and on an error.
unfoldable pub line_bytes : ℕ → IoResult (List ℕ) → List ℕ
line_bytes n (err e) = []
line_bytes n (ok line) = take (min (length line) n) line

pub line_bytes_fits : (n : ℕ) (r : IoResult (List ℕ)) → length (line_bytes n r) ≤ n
unfolding line_bytes
line_bytes_fits n (err e) = omega arith
line_bytes_fits n (ok line) = length-take_fits n line

unfoldable pub real_read :
    {W Handle : Type 0} → Os W Handle → ℕ → W → Unit {0} → List ℕ × W × Unit {0}
unfolding line_bytes
real_read os n w s = let (r, w') = os.read_line w in (line_bytes n r, w', s)

unfoldable pub real_stdin : {W Handle : Type 0} → Os W Handle → StdinSource W (Unit {0})
unfolding real_read
real_stdin os = record {
  read_line_bytes = real_read os;
  read_line_fits = λ n w s. line_bytes_fits n (os.read_line w).0;
}

pub record CannedStdin : Type 0 where
  pub data_bytes : List ℕ
  pub consumed : Bool

unfoldable pub new : List ℕ → CannedStdin
new data_bytes = record { data_bytes = data_bytes; consumed = false }

unfoldable pub canned_bytes : ℕ → CannedStdin → Bool → List ℕ × CannedStdin
canned_bytes n s true = ([], s)
canned_bytes n s false =
    (take (min (length s.data_bytes) n) s.data_bytes, record s { consumed = true })

unfoldable pub canned_read : {W : Type 0} → ℕ → W → CannedStdin → List ℕ × W × CannedStdin
unfolding canned_bytes
canned_read n w s = let (bytes, s') = canned_bytes n s s.consumed in (bytes, w, s')

pub canned_bytes_fits : (n : ℕ) (s : CannedStdin) (c : Bool) → length (canned_bytes n s c).0 ≤ n
unfolding canned_bytes
canned_bytes_fits n s true = omega arith
canned_bytes_fits n s false = length-take_fits n s.data_bytes

unfoldable pub canned_stdin : {W : Type 0} → StdinSource W CannedStdin
unfolding canned_read
canned_stdin = record {
  read_line_bytes = canned_read;
  read_line_fits = λ n w s. canned_bytes_fits n s s.consumed;
}
