-- ===== src/Host/IoThread.antt =====
-- crates/core/gpu-host/src/hostcall.rs: io_thread_loop, the thread of the services that may block.
-- Between two requests other threads change the buffer: each request comes with what they do before it.
use async_gpu.Prelude.{ℕ, ◌+◌, ◌==◌, if◌then◌else◌, Bool, true, List, [], ◌∷◌, none}
use async_gpu.Protocol.Services.{
  control_ready, control_error, service_open, service_write, service_read, service_close,
  service_stdin, service_bulk_write, service_bulk_read, service_tcp_connect, service_tcp_write,
  service_tcp_read, service_tcp_close, service_tcp_bind, service_tcp_accept, service_tcp_bulk_write,
  service_tcp_bulk_read,
}
use async_gpu.Hostcall.Buffer.{Buffer, with_packet}
use async_gpu.Host.Os.{Os}
use async_gpu.Host.Stdin.{StdinSource}
use async_gpu.Host.Resources.{Sideband, Io, Answer}
use async_gpu.Host.Files.{
  handle_open, handle_write, handle_read, handle_close, handle_stdin_from_source,
}
use async_gpu.Host.Sockets.{
  handle_tcp_connect, handle_tcp_write, handle_tcp_read, handle_tcp_close, handle_tcp_bind,
  handle_tcp_accept,
}
use async_gpu.Host.Bulk.{
  handle_bulk_write, handle_bulk_read, handle_tcp_bulk_write, handle_tcp_bulk_read,
}

pub record IoRequest : Type 0 where
  pub pkt_idx : ℕ
  pub service : ℕ

-- `CONTROL_READY`, with `CONTROL_ERROR` if the service failed; the two are different bits.
unfoldable pub answer_flags : Bool → ℕ
answer_flags has_error = if has_error then control_ready + control_error else control_ready

module _ {W Handle S : Type 0} (sys : Os W Handle) (source : StdinSource W S) where
  unfoldable pub serve_io : ℕ → (ℕ → ℕ) → Io W Handle S → Answer W Handle S
  serve_io service payload io =
      if service == service_open
      then handle_open sys payload io
      else if service == service_write
      then handle_write sys payload io
      else if service == service_read
      then handle_read sys payload io
      else if service == service_close
      then handle_close sys payload io
      else if service == service_stdin
      then handle_stdin_from_source source payload io
      else if service == service_bulk_write
      then handle_bulk_write sys payload io
      else if service == service_bulk_read
      then handle_bulk_read sys payload io
      else if service == service_tcp_connect
      then handle_tcp_connect sys payload io
      else if service == service_tcp_write
      then handle_tcp_write sys payload io
      else if service == service_tcp_read
      then handle_tcp_read sys payload io
      else if service == service_tcp_close
      then handle_tcp_close sys payload io
      else if service == service_tcp_bind
      then handle_tcp_bind sys payload io
      else if service == service_tcp_accept
      then handle_tcp_accept sys payload io
      else if service == service_tcp_bulk_write
      then handle_tcp_bulk_write sys payload io
      else if service == service_tcp_bulk_read
      then handle_tcp_bulk_read sys payload io
      else record { has_error = true; payload = payload; io = io }

  -- One round: the handler, then the control word of the packet.
  unfoldable pub serve_request : IoRequest → Buffer → Io W Handle S → Buffer × Io W Handle S
  unfolding serve_io answer_flags
  serve_request req b io =
      let a = serve_io req.service (b.packets req.pkt_idx).payload io in
      (
        with_packet req.pkt_idx
            (λ pkt. record pkt { payload = a.payload; control = answer_flags a.has_error }) b,
        a.io,
      )

  unfoldable pub io_loop :
      List ((Buffer → Buffer) × IoRequest) → Buffer → Io W Handle S → Buffer × Io W Handle S
  unfolding serve_request
  io_loop [] b io = (b, io)
  io_loop ((others, req) ∷ rest) b io =
      let (b', io') = serve_request req (others b) io in io_loop rest b' io'

  -- The loop from an empty table; descriptor 0 is never given.
  unfoldable pub io_thread_loop :
      List ((Buffer → Buffer) × IoRequest) → Buffer → S → Sideband → W → Buffer × Io W Handle S
  unfolding io_loop
  io_thread_loop reqs b stdin sideband w =
      io_loop reqs b
        (record { fd_table = λ fd. none; next_fd = 1; stdin = stdin; sideband = sideband; os = w })
