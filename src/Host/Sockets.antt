-- ===== src/Host/Sockets.antt =====
-- crates/core/gpu-host/src/hostcall.rs: extract_tcp_addr, handle_tcp_connect, handle_tcp_write,
-- handle_tcp_read, handle_tcp_close, handle_tcp_bind and handle_tcp_accept.
use async_gpu.Prelude.{
  ℕ, ◌/◌, ◌^◌, if◌then◌else◌, List, Option, none, some, min, replicate, u16, u32, read_u64,
  read_from,
}
use async_gpu.Protocol.Services.{tcp_max_addr_len, tcp_max_write_len, tcp_max_read_len}
use async_gpu.Host.Os.{Os}
use async_gpu.Host.Resources.{
  tcp_stream, tcp_listener, Io, Answer, find_stream, find_listener, invalid_input_error, fail,
  with_found, register, wrote, drop_resource, got,
}

module _ {W Handle : Type 0} (sys : Os W Handle) where
  unfoldable pub extract_tcp_addr : (ℕ → ℕ) → Option (List ℕ × ℕ)
  extract_tcp_addr payload =
      let slot0 : ℕ = read_u64 payload 0 in
      let port : ℕ = u32 slot0 in
      let addr_len : ℕ = min (u32 (slot0 / 2 ^ 32)) tcp_max_addr_len in
      let addr = read_from payload 8 addr_len in
      if sys.from_utf8 addr then some (addr, u16 port) else none

module _ {W Handle S : Type 0} (sys : Os W Handle) where
  unfoldable pub connect_to : (ℕ → ℕ) → Io W Handle S → Option (List ℕ × ℕ) → Answer W Handle S
  unfolding register fail
  connect_to payload io none = fail invalid_input_error payload io io.os
  connect_to payload io (some (addr, port)) =
      let (result, w) = sys.connect (sys.socket_addr addr port) io.os in
      register tcp_stream payload io result w

  unfoldable pub handle_tcp_connect : (ℕ → ℕ) → Io W Handle S → Answer W Handle S
  unfolding extract_tcp_addr connect_to
  handle_tcp_connect payload io = connect_to payload io (extract_tcp_addr sys payload)

  unfoldable pub bind_to : (ℕ → ℕ) → Io W Handle S → Option (List ℕ × ℕ) → Answer W Handle S
  unfolding register fail
  bind_to payload io none = fail invalid_input_error payload io io.os
  bind_to payload io (some (addr, port)) =
      let (result, w) = sys.bind (sys.socket_addr addr port) io.os in
      register tcp_listener payload io result w

  unfoldable pub handle_tcp_bind : (ℕ → ℕ) → Io W Handle S → Answer W Handle S
  unfolding extract_tcp_addr bind_to
  handle_tcp_bind payload io = bind_to payload io (extract_tcp_addr sys payload)

  unfoldable pub handle_tcp_accept : (ℕ → ℕ) → Io W Handle S → Answer W Handle S
  unfolding find_listener with_found register
  handle_tcp_accept payload io =
      let listener_fd : ℕ = read_u64 payload 0 in
      with_found (find_listener (io.fd_table listener_fd)) payload io
        (λ l. let (result, w) = sys.accept l io.os in register tcp_stream payload io result w)

  unfoldable pub handle_tcp_write : (ℕ → ℕ) → Io W Handle S → Answer W Handle S
  unfolding find_stream with_found wrote
  handle_tcp_write payload io =
      let fd : ℕ = read_u64 payload 0 in
      let data_len : ℕ = min (read_u64 payload 8) tcp_max_write_len in
      let bytes = read_from payload 16 data_len in
      with_found (find_stream (io.fd_table fd)) payload io
        (λ s. let (result, w) = sys.write s bytes io.os in wrote sys s payload io result w)

  unfoldable pub handle_tcp_read : (ℕ → ℕ) → Io W Handle S → Answer W Handle S
  unfolding find_stream with_found got
  handle_tcp_read payload io =
      let fd : ℕ = read_u64 payload 0 in
      let max_len : ℕ = min (read_u64 payload 8) tcp_max_read_len in
      with_found (find_stream (io.fd_table fd)) payload io (λ s.
        let (result, buf, w) = sys.read s (replicate max_len 0) io.os in
        got payload io result buf w)

  unfoldable pub handle_tcp_close : (ℕ → ℕ) → Io W Handle S → Answer W Handle S
  unfolding drop_resource
  handle_tcp_close payload io =
      let fd : ℕ = read_u64 payload 0 in drop_resource sys fd payload io (io.fd_table fd)
