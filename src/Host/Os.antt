-- ===== src/Host/Os.antt =====
-- What the services ask of the operating system and of Rust's standard library, and the translation
-- of its errors: crates/core/gpu-host/src/hostcall.rs, io_error_to_category and write_error_response.
use async_gpu.Prelude.{ℕ, ◌≤◌, ◌≡◌, Bool, List, Option, none, some, length, u16, write_u64}
use async_gpu.Protocol.Errors.{
  encode_error, err_other, err_not_found, err_permission_denied, err_already_exists,
  err_invalid_input, err_timed_out, err_would_block, err_broken_pipe, err_out_of_memory,
  err_connection_refused, err_unsupported, err_connection_reset, err_addr_in_use,
  err_addr_not_available, err_not_connected,
}

-- `std::io::ErrorKind`, the kinds that the host tells apart and `other` for the rest.
pub data ErrorKind : Type 0 where
  not_found permission_denied already_exists invalid_input timed_out would_block : ErrorKind
  broken_pipe out_of_memory unsupported connection_refused connection_reset : ErrorKind
  addr_in_use addr_not_available not_connected other : ErrorKind

-- `std::io::Error`; the code of the system, an i32, as its 32 bits.
pub record IoError : Type 0 where
  pub kind : ErrorKind
  pub raw_os_error : Option ℕ

-- `std::io::Result<A>`
pub data IoResult (A : Type 0) : Type 0 where
  ok : A → IoResult A
  err : IoError → IoResult A

-- Files and sockets by their handles, the clock and standard input, on a state `W` of the system.
-- A read gives the buffer as it leaves it, with a count; the two laws are those of `Read::read`.
-- A string is its bytes: `from_utf8` says whether they are one.
pub record Os (W Handle : Type 0) : Type 0 where
  pub from_utf8 : List ℕ → Bool
  pub socket_addr : List ℕ → ℕ → List ℕ
  pub prefix : ℕ → ℕ → List ℕ
  pub open_read : List ℕ → W → IoResult Handle × W
  pub create : List ℕ → W → IoResult Handle × W
  pub open_append : List ℕ → W → IoResult Handle × W
  pub connect : List ℕ → W → IoResult Handle × W
  pub bind : List ℕ → W → IoResult Handle × W
  pub accept : Handle → W → IoResult Handle × W
  pub write : Handle → List ℕ → W → IoResult ℕ × W
  pub write_all : Handle → List ℕ → W → IoResult (Unit {0}) × W
  pub flush : Handle → W → W
  pub read : Handle → List ℕ → W → IoResult ℕ × List ℕ × W
  pub close : Handle → W → W
  pub now : W → Option (ℕ × ℕ) × W
  pub read_line : W → IoResult (List ℕ) × W
  pub read_count :
      (h : Handle) (buf : List ℕ) (w : W) {n : ℕ} → (read h buf w).0 ≡ ok n → n ≤ length buf
  pub read_length : (h : Handle) (buf : List ℕ) (w : W) → length (read h buf w).1 ≡ length buf

unfoldable pub io_error_to_category : ErrorKind → ℕ
io_error_to_category ErrorKind.not_found = err_not_found
io_error_to_category ErrorKind.permission_denied = err_permission_denied
io_error_to_category ErrorKind.already_exists = err_already_exists
io_error_to_category ErrorKind.invalid_input = err_invalid_input
io_error_to_category ErrorKind.timed_out = err_timed_out
io_error_to_category ErrorKind.would_block = err_would_block
io_error_to_category ErrorKind.broken_pipe = err_broken_pipe
io_error_to_category ErrorKind.out_of_memory = err_out_of_memory
io_error_to_category ErrorKind.unsupported = err_unsupported
io_error_to_category ErrorKind.connection_refused = err_connection_refused
io_error_to_category ErrorKind.connection_reset = err_connection_reset
io_error_to_category ErrorKind.addr_in_use = err_addr_in_use
io_error_to_category ErrorKind.addr_not_available = err_addr_not_available
io_error_to_category ErrorKind.not_connected = err_not_connected
io_error_to_category ErrorKind.other = err_other

-- `e.raw_os_error().unwrap_or(0) as u16`
unfoldable pub raw_errno_of : Option ℕ → ℕ
raw_errno_of none = 0
raw_errno_of (some n) = u16 n

-- The payload with the error in slot 0; the source also returns `true`.
unfoldable pub write_error_response : (ℕ → ℕ) → IoError → ℕ → ℕ
unfolding io_error_to_category raw_errno_of
write_error_response payload e =
    write_u64 payload 0 (encode_error (io_error_to_category e.kind) (raw_errno_of e.raw_os_error))
