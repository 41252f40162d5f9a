-- ===== src/Host/Bulk.antt =====
-- crates/core/gpu-host/src/hostcall.rs: handle_bulk_write, handle_bulk_read, handle_tcp_bulk_write and
-- handle_tcp_bulk_read, which move bytes between the sideband buffer and a file or a socket. The sum
-- of their bounds check wraps, as it does in a release build.
use async_gpu.Prelude.{
  ℕ, ◌+◌, ltb, if◌then◌else◌, List, Option, u64, read_u64, read_from, write_from,
}
use async_gpu.Protocol.Errors.{err_invalid_input}
use async_gpu.Host.Os.{Os, IoResult, ok, err}
use async_gpu.Host.Resources.{
  FdResource, Found, Io, Answer, find_file, find_stream, fail, succeed, refuse, with_found,
}

module _ {W Handle S : Type 0} (sys : Os W Handle) where
  -- The end of `write_all`: on success the whole length.
  unfoldable pub wrote_all :
      Handle → ℕ → (ℕ → ℕ) → Io W Handle S → IoResult (Unit {0}) → W → Answer W Handle S
  unfolding fail succeed
  wrote_all h len payload io (err e) w = fail e payload io w
  wrote_all h len payload io (ok tt) w = succeed len payload io (sys.flush h w)

  -- The body that the two bulk writes share, with the look-up that differs.
  unfoldable pub bulk_write_from :
      (Option (FdResource Handle) → Found Handle) → (ℕ → ℕ) → Io W Handle S → Answer W Handle S
  unfolding refuse with_found wrote_all
  bulk_write_from find payload io =
      let fd : ℕ = read_u64 payload 0 in
      let sb_offset : ℕ = read_u64 payload 8 in
      let len : ℕ = read_u64 payload 16 in
      if ltb io.sideband.capacity (u64 (sb_offset + len))
      then refuse err_invalid_input payload io
      else with_found (find (io.fd_table fd)) payload io (λ f.
        let bytes = read_from io.sideband.data_region sb_offset len in
        let (result, w) = sys.write_all f bytes io.os in wrote_all f len payload io result w)

  unfoldable pub handle_bulk_write : (ℕ → ℕ) → Io W Handle S → Answer W Handle S
  unfolding bulk_write_from find_file
  handle_bulk_write = bulk_write_from find_file

  unfoldable pub handle_tcp_bulk_write : (ℕ → ℕ) → Io W Handle S → Answer W Handle S
  unfolding bulk_write_from find_stream
  handle_tcp_bulk_write = bulk_write_from find_stream

  -- The end of a read into the sideband: the buffer as the read leaves it, whatever its result.
  unfoldable pub filled : ℕ → (ℕ → ℕ) → Io W Handle S → IoResult ℕ → List ℕ → W → Answer W Handle S
  unfolding fail succeed
  filled sb_offset payload io result buf w =
      let region = write_from io.sideband.data_region sb_offset buf in
      let io' = record io { sideband = record io.sideband { data_region = region } } in
      elim result [ ok n ↦ succeed n payload io' w | err e ↦ fail e payload io' w ]

  unfoldable pub bulk_read_into :
      (Option (FdResource Handle) → Found Handle) → (ℕ → ℕ) → Io W Handle S → Answer W Handle S
  unfolding refuse with_found filled
  bulk_read_into find payload io =
      let fd : ℕ = read_u64 payload 0 in
      let sb_offset : ℕ = read_u64 payload 8 in
      let max_length : ℕ = read_u64 payload 16 in
      if ltb io.sideband.capacity (u64 (sb_offset + max_length))
      then refuse err_invalid_input payload io
      else with_found (find (io.fd_table fd)) payload io (λ f.
        let old = read_from io.sideband.data_region sb_offset max_length in
        let (result, buf, w) = sys.read f old io.os in filled sb_offset payload io result buf w)

  unfoldable pub handle_bulk_read : (ℕ → ℕ) → Io W Handle S → Answer W Handle S
  unfolding bulk_read_into find_file
  handle_bulk_read = bulk_read_into find_file

  unfoldable pub handle_tcp_bulk_read : (ℕ → ℕ) → Io W Handle S → Answer W Handle S
  unfolding bulk_read_into find_stream
  handle_tcp_bulk_read = bulk_read_into find_stream
