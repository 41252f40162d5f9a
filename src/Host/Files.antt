-- ===== src/Host/Files.antt =====
-- crates/core/gpu-host/src/hostcall.rs: handle_open, handle_write, handle_read, handle_close and
-- handle_stdin_from_source.
use async_gpu.Prelude.{
  ℕ, false, ◌/◌, ◌^◌, ◌==◌, if◌then◌else◌, List, Option, none, some, min, length, replicate, u32,
  write_u64, read_u64, read_from, write_from,
}
use async_gpu.Protocol.Services.{
  file_max_path_len, file_max_write_len, file_max_read_len, stdin_max_read_len, file_open_read,
  file_open_write_create, file_open_append,
}
use async_gpu.Host.Os.{Os, IoResult}
use async_gpu.Host.Stdin.{StdinSource}
use async_gpu.Host.Resources.{
  file, Io, Answer, find_file, invalid_input_error, fail, with_found, register, wrote,
  drop_resource, got,
}

module _ {W Handle : Type 0} (sys : Os W Handle) where
  -- The match on the flags; `none` is the arm of unknown ones.
  unfoldable pub open_path : ℕ → List ℕ → W → Option (IoResult Handle × W)
  open_path flags path w =
      if flags == file_open_read
      then some (sys.open_read path w)
      else if flags == file_open_write_create
      then some (sys.create path w)
      else if flags == file_open_append
      then some (sys.open_append path w)
      else none

module _ {W Handle S : Type 0} (sys : Os W Handle) where
  unfoldable pub opened : (ℕ → ℕ) → Io W Handle S → Option (IoResult Handle × W) → Answer W Handle S
  unfolding register fail
  opened payload io none = fail invalid_input_error payload io io.os
  opened payload io (some (result, w)) = register file payload io result w

  unfoldable pub handle_open : (ℕ → ℕ) → Io W Handle S → Answer W Handle S
  unfolding opened open_path fail
  handle_open payload io =
      let slot0 : ℕ = read_u64 payload 0 in
      let path_len : ℕ = min (u32 slot0) file_max_path_len in
      let flags : ℕ = u32 (slot0 / 2 ^ 32) in
      let path = read_from payload 8 path_len in
      if sys.from_utf8 path
      then opened payload io (open_path sys flags path io.os)
      else fail invalid_input_error payload io io.os

  unfoldable pub handle_write : (ℕ → ℕ) → Io W Handle S → Answer W Handle S
  unfolding find_file with_found wrote
  handle_write payload io =
      let fd : ℕ = read_u64 payload 0 in
      let data_len : ℕ = min (read_u64 payload 8) file_max_write_len in
      let bytes = read_from payload 16 data_len in
      with_found (find_file (io.fd_table fd)) payload io
        (λ f. let (result, w) = sys.write f bytes io.os in wrote sys f payload io result w)

  unfoldable pub handle_read : (ℕ → ℕ) → Io W Handle S → Answer W Handle S
  unfolding find_file with_found got
  handle_read payload io =
      let fd : ℕ = read_u64 payload 0 in
      let max_len : ℕ = min (read_u64 payload 8) file_max_read_len in
      with_found (find_file (io.fd_table fd)) payload io (λ f.
        let (result, buf, w) = sys.read f (replicate max_len 0) io.os in
        got payload io result buf w)

  unfoldable pub handle_close : (ℕ → ℕ) → Io W Handle S → Answer W Handle S
  unfolding drop_resource
  handle_close payload io =
      let fd : ℕ = read_u64 payload 0 in drop_resource sys fd payload io (io.fd_table fd)

-- The copy loop writes as many bytes as the source says that it has read.
unfoldable pub handle_stdin_from_source :
    {W Handle S : Type 0} → StdinSource W S → (ℕ → ℕ) → Io W Handle S → Answer W Handle S
handle_stdin_from_source source payload io =
    let max_len : ℕ = min (read_u64 payload 0) stdin_max_read_len in
    let (bytes, w, s) = source.read_line_bytes max_len io.os io.stdin in
    record {
      has_error = false;
      payload = write_from (write_u64 payload 0 (length bytes)) 8 bytes;
      io = record io { os = w; stdin = s };
    }
