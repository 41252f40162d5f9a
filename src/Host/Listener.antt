-- ===== src/Host/Listener.antt =====
-- crates/core/gpu-host/src/hostcall.rs: a round of listen_unified. The listener takes a whole ready
-- stack with one swap and walks along its links; the services that may block go to the I/O thread.
-- After each packet other threads change the buffer as a schedule lists; `none` means that the walk
-- is not at its end when the schedule is, or the fuel of a bulk print.
use async_gpu.Prelude.{
  ℕ, ◌+◌, ◌==◌, if◌then◌else◌, Bool, false, ◌||◌, not, List, [], ◌∷◌, ◌++◌, Option, none, some,
  ◌>>=◌, u32, has_bit, range_from,
}
use async_gpu.Protocol.Services.{
  control_ready, control_filled, service_nop, service_print, service_time, service_panic,
  service_trace, service_bulk_print, service_open, service_write, service_read, service_close,
  service_stdin, service_bulk_write, service_bulk_read, service_tcp_connect, service_tcp_write,
  service_tcp_read, service_tcp_close, service_tcp_bind, service_tcp_accept, service_tcp_bulk_write,
  service_tcp_bulk_read,
}
use async_gpu.Protocol.Tagged.{null_index, null_tagged, tagged_index}
use async_gpu.Hostcall.Buffer.{
  Buffer, StackPtr, global_ready, shard_ready, load, store, with_packet,
}
use async_gpu.Hostcall.Stack.{Schedule}
use async_gpu.Host.Os.{Os}
use async_gpu.Host.Resources.{Sideband}
use async_gpu.Host.Console.{
  Shown, handle_print, handle_bulk_print, handle_time, handle_panic, handle_trace,
}
use async_gpu.Host.IoThread.{IoRequest, answer_flags}

-- What the listener changes: the buffer, what it has sent to the I/O thread, what it has shown, and
-- the state of the system, and the sideband buffer that it reads.
pub record Listener (W : Type 0) : Type 0 where
  pub buffer : Buffer
  pub sideband : Sideband
  pub sent : List IoRequest
  pub shown : List Shown
  pub os : W

-- The patterns of the slow path.
abbrev pub slow_services : List ℕ
slow_services =
    service_open ∷ service_write ∷ service_read ∷ service_close ∷ service_stdin ∷ service_bulk_write
    ∷ service_bulk_read ∷ service_tcp_connect ∷ service_tcp_write ∷ service_tcp_read
    ∷ service_tcp_close ∷ service_tcp_bind ∷ service_tcp_accept ∷ service_tcp_bulk_write
    ∷ service_tcp_bulk_read ∷ []

-- Whether one of the patterns matches.
abbrev pub matches : ℕ → List ℕ → Bool
matches service [] = false
matches service (x ∷ rest) = (service == x) || matches service rest

unfoldable pub blocks : ℕ → Bool
blocks service = matches service slow_services

module _ {W : Type 0} where
  -- The packet is answered: the flags go to its control word.
  unfoldable pub answer : ℕ → ℕ → Listener W → Listener W
  answer idx flags l = record l {
    buffer = with_packet idx (λ pkt. record pkt { control = flags }) l.buffer;
  }

  unfoldable pub show : List Shown → Listener W → Listener W
  show lines l = record l { shown = l.shown ++ lines }

  unfoldable pub send : IoRequest → Listener W → Listener W
  send req l = record l { sent = l.sent ++ req ∷ [] }

module _ {W Handle : Type 0} (sys : Os W Handle) where
  unfoldable pub tell_time : ℕ → Listener W → Listener W
  unfolding handle_time answer_flags answer
  tell_time idx l =
      let (has_error, payload, w) = handle_time sys l.os (l.buffer.packets idx).payload in
      answer idx (answer_flags has_error) (record l {
        buffer = with_packet idx (λ pkt. record pkt { payload = payload }) l.buffer;
        os = w;
      })

  -- The match on the service of a filled packet.
  unfoldable pub dispatch : ℕ → ℕ → Listener W → Option (Listener W)
  unfolding tell_time handle_print handle_panic handle_trace handle_bulk_print blocks answer_flags
      answer show send
  dispatch idx service l =
      let payload = (l.buffer.packets idx).payload in
      if service == service_nop
      then some (answer idx control_ready l)
      else if service == service_print
      then some (answer idx control_ready (show (handle_print sys payload ∷ []) l))
      else if service == service_time
      then some (tell_time idx l)
      else if service == service_panic
      then some (answer idx control_ready (show (handle_panic sys payload ∷ []) l))
      else if service == service_trace
      then some (answer idx control_ready (show (handle_trace sys payload ∷ []) l))
      else if service == service_bulk_print
      then (do
        lines ← handle_bulk_print sys l.sideband payload
        some (answer idx control_ready (show lines l)))
      else if blocks service
      then some (send (record { pkt_idx = idx; service = service }) l)
      else some (answer idx (answer_flags Bool.true) l)

  -- A packet of the walk: one that is not filled is passed over.
  unfoldable pub serve_packet : ℕ → Listener W → Option (Listener W)
  unfolding dispatch
  serve_packet idx l =
      let pkt = l.buffer.packets idx in
      if has_bit pkt.control control_filled then dispatch idx pkt.service l else some l

  -- The walk along the links; the next one is read before the packet is served.
  unfoldable pub drain : Schedule → ℕ → Listener W → Option (Listener W)
  unfolding serve_packet
  drain [] current l = none
  drain (others ∷ rest) current l =
      let idx : ℕ = tagged_index current in
      let next : ℕ = (l.buffer.packets idx).next in
      let served = serve_packet idx l in
      let go = (do l' ← served; drain rest next (record l' { buffer = others l'.buffer })) in
      if idx == null_index then some l else go

  -- One ready stack: the swap with NULL, then the walk.
  unfoldable pub scan_stack : Schedule → StackPtr → Listener W → Option (Listener W)
  unfolding drain
  scan_stack others p l =
      let ready_head : ℕ = load p l.buffer in
      drain others ready_head (record l { buffer = store p null_tagged l.buffer })

  unfoldable pub ready_of_stack : ℕ → ℕ → StackPtr
  ready_of_stack num_shards s = if num_shards == 0 then global_ready else shard_ready s

  -- `for s in 0..stacks_to_scan`, with a schedule for each stack.
  unfoldable pub scan_stacks : (ℕ → Schedule) → ℕ → List ℕ → Listener W → Option (Listener W)
  unfolding scan_stack ready_of_stack
  scan_stacks others num_shards [] l = some l
  scan_stacks others num_shards (s ∷ rest) l = do
    l' ← scan_stack (others s) (ready_of_stack num_shards s) l
    scan_stacks others num_shards rest l'

-- The locals of the loop.
pub record Polling : Type 0 where
  pub last_doorbell : ℕ
  pub idle_spins : ℕ

-- What a round of the loop comes to: it ends the loop, sees no doorbell, or has scanned the stacks.
pub data Round (W : Type 0) : Type 0 where
  stopped : Round W
  idle : Polling → Round W
  scanned : Polling → Option (Listener W) → Round W

-- A round of `listen_unified`; whether it spins or sleeps when idle is left out.
unfoldable pub listen_round :
    {W Handle : Type 0} → Os W Handle → (ℕ → Schedule) → Polling → Listener W → Round W
unfolding scan_stacks
listen_round sys others polling l =
    let b = l.buffer in
    let stacks_to_scan : ℕ = if b.num_shards == 0 then 1 else b.num_shards in
    let drained = scan_stacks sys others b.num_shards (range_from 0 stacks_to_scan) l in
    if not (b.shutdown == 0)
    then stopped
    else if b.doorbell == polling.last_doorbell
    then idle (record polling { idle_spins = u32 (polling.idle_spins + 1) })
    else scanned (record { last_doorbell = b.doorbell; idle_spins = 0 }) drained
