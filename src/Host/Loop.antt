-- ===== src/Host/Loop.antt =====
-- The loop of the I/O thread: its table of descriptors, and what its answers say to the GPU.
use async_gpu.Prelude.{
  ℕ, suc, ◌+◌, ◌^◌, ◌<◌, ◌≤◌, ◌≡◌, ◌≢◌, refl, ap, Bool, true, false, List, [], ◌∷◌, Option, none,
  some, arith, length, All, read_u64, has_bit, update_self, update_ne,
}
use async_gpu.Protocol.Services.{control_ready, control_error}
use async_gpu.Protocol.Errors.{GpuError, from_encoded, pool_exhausted, timeout, err_invalid_fd}
use async_gpu.Hostcall.Buffer.{Buffer}
use async_gpu.Host.Os.{Os}
use async_gpu.Host.Stdin.{StdinSource}
use async_gpu.Host.Resources.{
  FdResource, Sideband, Io, find_file, find_stream, find_listener, refuse, succeed, with_found,
  drop_resource,
}
use async_gpu.Host.Files.{handle_write, handle_read, handle_close}
use async_gpu.Host.Sockets.{handle_tcp_accept, handle_tcp_write, handle_tcp_read, handle_tcp_close}
use async_gpu.Host.IoThread.{
  IoRequest, answer_flags, serve_io, serve_request, io_loop, io_thread_loop,
}
use async_gpu.Host.Listener.{blocks}
use async_gpu.Host.Handlers.{Step, IsHostError}
use async_gpu.Host.Descriptors.{WellFormed, serve_io-Fine, Step-WellFormed, Step-closed}

-- Requests that the listener sends.
abbrev pub AllBlock : List ((Buffer → Buffer) × IoRequest) → Type 0
AllBlock reqs = All (λ r. blocks r.1.service ≡ true) reqs

answer_flags-ready : (e : Bool) → has_bit (answer_flags e) control_ready ≡ true
unfolding answer_flags
answer_flags-ready true = refl
answer_flags-ready false = refl

answer_flags-error : (e : Bool) → has_bit (answer_flags e) control_error ≡ true → e ≡ true
unfolding answer_flags
answer_flags-error true h = refl
answer_flags-error false h = absurd cc

IsHostError-decodes :
    (slot0 : ℕ)
    → IsHostError slot0
    → (from_encoded slot0 ≢ pool_exhausted) × (from_encoded slot0 ≢ timeout)
unfolding from_encoded pool_exhausted timeout
IsHostError-decodes slot0 h = (
  (λ e. h.1 (ap (λ (g : GpuError). g.category) e)),
  (λ e. h.2 (ap (λ (g : GpuError). g.category) e)),
)

WellFormed-le :
    {W Handle S : Type 0} (n m : ℕ) (io : Io W Handle S) → n ≤ m → WellFormed n io → WellFormed m io
WellFormed-le n m io le h = record {
  next_pos = h.next_pos;
  next_le = omega (arith, h.next_le);
  zero_free = h.zero_free;
  above_free = h.above_free;
}

module _ {W Handle S : Type 0} (sys : Os W Handle) where
  drop_resource-closed :
      (fd : ℕ) (payload : ℕ → ℕ) (io : Io W Handle S) (r : Option (FdResource Handle))
      → io.fd_table fd ≡ r
      → (drop_resource sys fd payload io r).io.fd_table fd ≡ none
  unfolding drop_resource refuse succeed
  drop_resource-closed fd payload io none e = e
  drop_resource-closed fd payload io (some r) e = update_self io.fd_table fd none

  drop_resource-next :
      (fd : ℕ) (payload : ℕ → ℕ) (io : Io W Handle S) (r : Option (FdResource Handle))
      → (drop_resource sys fd payload io r).io.next_fd ≡ io.next_fd
  unfolding drop_resource refuse succeed
  drop_resource-next fd payload io none = refl
  drop_resource-next fd payload io (some r) = refl

  -- The handlers that look up the descriptor in slot 0 refuse it with ERR_INVALID_FD, and change
  -- nothing else.
  abbrev pub Refused : (ℕ → ℕ) → Io W Handle S → Type 0
  Refused payload io =
      let no = refuse err_invalid_fd payload io in
      (handle_write sys payload io ≡ no)
      × (handle_read sys payload io ≡ no)
      × (handle_close sys payload io ≡ no)
      × (handle_tcp_write sys payload io ≡ no)
      × (handle_tcp_read sys payload io ≡ no)
      × (handle_tcp_accept sys payload io ≡ no)
      × (handle_tcp_close sys payload io ≡ no)

  free-Refused :
      (payload : ℕ → ℕ) (io : Io W Handle S)
      → io.fd_table (read_u64 payload 0) ≡ none
      → Refused payload io
  unfolding handle_write handle_read handle_close handle_tcp_write handle_tcp_read handle_tcp_accept
      handle_tcp_close drop_resource find_file find_stream find_listener with_found
  free-Refused payload io e =
      (rw e refl, rw e refl, rw e refl, rw e refl, rw e refl, rw e refl, rw e refl)

module _ {W Handle S : Type 0} (sys : Os W Handle) (source : StdinSource W S) where
  request-Step :
      (req : IoRequest) (b : Buffer) (io : Io W Handle S)
      → blocks req.service ≡ true
      → io.next_fd + 1 < 2 ^ 64
      → Step io (serve_request sys source req b io).1
  unfolding serve_request
  request-Step req b io known k = (serve_io-Fine sys source req.service _ io k known).step

  io_loop-WellFormed :
      (n : ℕ) (reqs : List ((Buffer → Buffer) × IoRequest)) (b : Buffer) (io : Io W Handle S)
      → AllBlock reqs
      → n + length reqs < 2 ^ 64
      → WellFormed n io
      → WellFormed (n + length reqs) (io_loop sys source reqs b io).1
  unfolding io_loop serve_request
  io_loop-WellFormed n [] b io a k h = WellFormed-le n (n + 0) io (omega arith) h
  io_loop-WellFormed n ((others, req) ∷ rest) b io a k h =
      let step = request-Step req (others b) io a.0 (omega (arith, h.next_le)) in
      let (b', io') = serve_request sys source req (others b) io in
      WellFormed-le (n + 1 + length rest) (n + suc (length rest)) _ (omega arith)
        (io_loop-WellFormed (n + 1) rest b' io' a.1 (omega arith) (Step-WellFormed n io io' step h))

  -- When the I/O thread has served requests that the listener sends, fewer than 2 ^ 64 - 2, from its
  -- start on, whatever other threads did to the buffer in between: descriptor 0 is free, so are all
  -- from `next_fd` on, and `next_fd` is at least 1 and at most one more than the number of requests.
  pub io_thread_loop-WellFormed :
      (reqs : List ((Buffer → Buffer) × IoRequest)) (b : Buffer) (stdin : S) (sideband : Sideband)
      (w : W)
      → AllBlock reqs
      → 1 + length reqs < 2 ^ 64
      → WellFormed (1 + length reqs) (io_thread_loop sys source reqs b stdin sideband w).1
  unfolding io_thread_loop
  io_thread_loop-WellFormed reqs b stdin sideband w a k =
      io_loop-WellFormed 1 reqs b _ a k (record {
        next_pos = omega arith;
        next_le = omega arith;
        zero_free = refl;
        above_free = λ fd _. refl;
      })

  io_loop-closed :
      (n : ℕ) (reqs : List ((Buffer → Buffer) × IoRequest)) (b : Buffer) (io : Io W Handle S)
      (fd : ℕ)
      → AllBlock reqs
      → n + length reqs < 2 ^ 64
      → io.next_fd ≤ n
      → fd < io.next_fd
      → io.fd_table fd ≡ none
      → (io_loop sys source reqs b io).1.fd_table fd ≡ none
  unfolding io_loop
  io_loop-closed n [] b io fd a k le lt free = free
  io_loop-closed n ((others, req) ∷ rest) b io fd a k le lt free =
      let step = request-Step req (others b) io a.0 (omega arith) in
      let (b', io') = serve_request sys source req (others b) io in
      let (lt', free') = Step-closed io io' fd step lt free in
      io_loop-closed (n + 1) rest b' io' fd a.1 (omega arith) (omega (arith, step.next_stays)) lt'
        free'

  -- After the close of a descriptor that had been given, and any requests that the listener sends, so
  -- few that the counter of descriptors does not wrap, the inline file and socket services and both
  -- closes refuse the descriptor with ERR_INVALID_FD and change nothing else: it is not given again.
  pub close-Refused :
      (payload : ℕ → ℕ) (io : Io W Handle S) (reqs : List ((Buffer → Buffer) × IoRequest))
      (b : Buffer) (payload' : ℕ → ℕ)
      → AllBlock reqs
      → io.next_fd + length reqs < 2 ^ 64
      → read_u64 payload 0 < io.next_fd
      → read_u64 payload' 0 ≡ read_u64 payload 0
      → Refused sys payload' (io_loop sys source reqs b (handle_close sys payload io).io).1
  unfolding handle_close
  close-Refused payload io reqs b payload' a k lt same =
      let fd : ℕ = read_u64 payload 0 in
      let next = drop_resource-next sys fd payload io (io.fd_table fd) in
      free-Refused sys payload' _ (
        rw same (
          io_loop-closed io.next_fd reqs b (handle_close sys payload io).io fd a k
            (omega (arith, next)) (omega (arith, next))
            (drop_resource-closed sys fd payload io (io.fd_table fd) refl)))

  -- A request that the listener sends, while descriptors last, is answered: its packet gets the ready
  -- bit in its control word, other packets stay as they are, and with the error bit slot 0 decodes to
  -- an error that the GPU cannot take for its own `pool_exhausted` or `timeout`.
  pub serve_request_answers :
      (req : IoRequest) (b : Buffer) (io : Io W Handle S)
      → blocks req.service ≡ true
      → io.next_fd + 1 < 2 ^ 64
      → let b' = (serve_request sys source req b io).0 in
        let pkt = b'.packets req.pkt_idx in
        (has_bit pkt.control control_ready ≡ true)
        × ((j : ℕ) → req.pkt_idx ≢ j → b'.packets j ≡ b.packets j)
        × (has_bit pkt.control control_error ≡ true
            → let e = from_encoded (read_u64 pkt.payload 0) in (e ≢ pool_exhausted) × (e ≢ timeout))
  unfolding serve_request
  serve_request_answers req b io known k =
      let a = serve_io sys source req.service (b.packets req.pkt_idx).payload io in
      let fine = serve_io-Fine sys source req.service (b.packets req.pkt_idx).payload io k known in
      rw (update_self b.packets req.pkt_idx _) (
        answer_flags-ready a.has_error,
        (λ j ne. update_ne b.packets req.pkt_idx j _ ne),
        (λ e.
            IsHostError-decodes (read_u64 a.payload 0)
              (fine.reports (answer_flags-error a.has_error e))),
      )
