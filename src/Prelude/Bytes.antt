-- ===== src/Prelude/Bytes.antt =====
-- Little-endian integers in a region of bytes.
use Prim.Native.Nat.{ℕ, zero, suc, ◌+◌, ◌*◌, ◌/◌, ◌%◌, ◌^◌, ◌<◌, ◌≤◌}
use mathlib.Core.Path.{◌≡◌, refl, ap, ◌∙◌}
use mathlib.Core.Logic.{◌⊎◌}
use mathlib.Core.List.{List, [], ◌∷◌}
use native.Mathlib.Omega.{arith}
use async_gpu.Prelude.Lists.{length}
use async_gpu.Prelude.Regions.{
  write_from, read_from, read_from-write_from_len, read_from-write_from_out,
}

pub le_bytes : ℕ → ℕ → List ℕ
le_bytes zero v = []
le_bytes (suc n) v = v % 256 ∷ le_bytes n (v / 256)

pub from_le : List ℕ → ℕ
from_le [] = 0
from_le (b ∷ bs) = b + from_le bs * 256

pub length-le_bytes : (n v : ℕ) → length (le_bytes n v) ≡ n
unfolding le_bytes
length-le_bytes zero v = refl
length-le_bytes (suc n) v = ap suc (length-le_bytes n (v / 256))

-- Stores and loads of a u64 and of a u32 at a byte offset.
unfoldable pub write_u64 : (ℕ → ℕ) → ℕ → ℕ → ℕ → ℕ
unfolding le_bytes
write_u64 m off v = write_from m off (le_bytes 8 v)

unfoldable pub write_u16 : (ℕ → ℕ) → ℕ → ℕ → ℕ → ℕ
unfolding le_bytes
write_u16 m off v = write_from m off (le_bytes 2 v)

unfoldable pub write_u32 : (ℕ → ℕ) → ℕ → ℕ → ℕ → ℕ
unfolding le_bytes
write_u32 m off v = write_from m off (le_bytes 4 v)

unfoldable pub read_u64 : (ℕ → ℕ) → ℕ → ℕ
unfolding from_le read_from
read_u64 m off = from_le (read_from m off 8)

unfoldable pub read_u32 : (ℕ → ℕ) → ℕ → ℕ
unfolding from_le read_from
read_u32 m off = from_le (read_from m off 4)

from_le-le_bytes : (v : ℕ) → v < 2 ^ 64 → from_le (le_bytes 8 v) ≡ v
unfolding from_le le_bytes
from_le-le_bytes v h = omega arith

pub read_u64-write_u64 : (m : ℕ → ℕ) (off v : ℕ) → v < 2 ^ 64 → read_u64 (write_u64 m off v) off ≡ v
unfolding read_u64 write_u64
read_u64-write_u64 m off v h =
    ap from_le (read_from-write_from_len m off 8 (le_bytes 8 v) refl) ∙ from_le-le_bytes v h

pub read_u64_cong :
    (f g : ℕ → ℕ) (off : ℕ)
    → read_from f off 8 ≡ read_from g off 8
    → read_u64 f off ≡ read_u64 g off
unfolding read_u64
read_u64_cong f g off e = ap from_le e

from_le-le_bytes_4 : (v : ℕ) → v < 2 ^ 32 → from_le (le_bytes 4 v) ≡ v
unfolding from_le le_bytes
from_le-le_bytes_4 v h = omega arith

pub read_u32-write_u32 : (m : ℕ → ℕ) (off v : ℕ) → v < 2 ^ 32 → read_u32 (write_u32 m off v) off ≡ v
unfolding read_u32 write_u32
read_u32-write_u32 m off v h =
    ap from_le (read_from-write_from_len m off 4 (le_bytes 4 v) refl) ∙ from_le-le_bytes_4 v h

pub read_u64-write_from_out :
    (m : ℕ → ℕ) (off j : ℕ) (xs : List ℕ)
    → (off + 8 ≤ j) ⊎ (j + length xs ≤ off)
    → read_u64 (write_from m j xs) off ≡ read_u64 m off
unfolding read_u64
read_u64-write_from_out m off j xs h = ap from_le (read_from-write_from_out m off 8 j xs h)

pub read_u32-write_from_out :
    (m : ℕ → ℕ) (off j : ℕ) (xs : List ℕ)
    → (off + 4 ≤ j) ⊎ (j + length xs ≤ off)
    → read_u32 (write_from m j xs) off ≡ read_u32 m off
unfolding read_u32
read_u32-write_from_out m off j xs h = ap from_le (read_from-write_from_out m off 4 j xs h)

-- A store of a word does not touch what is read elsewhere.
pub read_from-write_u32 :
    (m : ℕ → ℕ) (i n off v : ℕ)
    → (i + n ≤ off) ⊎ (off + 4 ≤ i)
    → read_from (write_u32 m off v) i n ≡ read_from m i n
unfolding write_u32
read_from-write_u32 m i n off v h = read_from-write_from_out m i n off (le_bytes 4 v) h

pub read_u32-write_u32_out :
    (m : ℕ → ℕ) (i off v : ℕ)
    → (i + 4 ≤ off) ⊎ (off + 4 ≤ i)
    → read_u32 (write_u32 m off v) i ≡ read_u32 m i
unfolding read_u32
read_u32-write_u32_out m i off v h = ap from_le (read_from-write_u32 m i 4 off v h)

pub read_u64-write_u64_out :
    (m : ℕ → ℕ) (i off v : ℕ)
    → (i + 8 ≤ off) ⊎ (off + 8 ≤ i)
    → read_u64 (write_u64 m off v) i ≡ read_u64 m i
unfolding write_u64
read_u64-write_u64_out m i off v h = read_u64-write_from_out m i off (le_bytes 8 v) h

pub read_u64-write_u32_out :
    (m : ℕ → ℕ) (i off v : ℕ)
    → (i + 8 ≤ off) ⊎ (off + 4 ≤ i)
    → read_u64 (write_u32 m off v) i ≡ read_u64 m i
unfolding write_u32
read_u64-write_u32_out m i off v h = read_u64-write_from_out m i off (le_bytes 4 v) h
