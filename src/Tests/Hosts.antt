-- ===== src/Tests/Hosts.antt =====
-- The listener and the I/O thread on a small buffer, over a system that opens handle 7 and reads
-- nothing.
use async_gpu.Prelude.{
  ℕ, ◌+◌, ◌≤◌, ◌≡◌, ◌≢◌, refl, inr, ◌==◌, if◌then◌else◌, true, false, [], ◌∷◌, ◌++◌, none, some,
  All, arith, length, has_bit, update, read_u64, read_from, write_from,
}
use async_gpu.Protocol.Services.{control_ready, control_error}
use async_gpu.Protocol.Errors.{from_encoded, pool_exhausted, timeout}
use async_gpu.Protocol.Tagged.{tagged_index}
use async_gpu.Hostcall.Buffer.{Buffer, global_ready, load}
use async_gpu.Hostcall.Stack.{Schedule}
use async_gpu.Hostcall.Chain.{Holds}
use async_gpu.Hostcall.Request.{World}
use async_gpu.Host.Os.{Os, IoResult, ok}
use async_gpu.Host.Stdin.{CannedStdin, canned_stdin}
use async_gpu.Host.Resources.{file, Sideband, Io}
use async_gpu.Host.Files.{handle_close}
use async_gpu.Host.Console.{
  LevelStr, traced, level_str, valid_text, handle_trace, printed, handle_print, handle_bulk_print,
}
use async_gpu.Host.IoThread.{IoRequest, serve_request, io_loop, io_thread_loop}
use async_gpu.Host.Listener.{Listener, scan_stack, blocks}
use async_gpu.Host.Serve.{control_served}
use async_gpu.Host.Drain.{Leaves, LeavesStack, all_forwarded, all_shown, scan_stack_refines}
use async_gpu.Host.Descriptors.{WellFormed}
use async_gpu.Host.Loop.{Refused, io_thread_loop-WellFormed, close-Refused, serve_request_answers}
use async_gpu.Host.Traces.{handle_trace-trace_payload}
use async_gpu.Hostcall.Trace.{trace_payload}
use async_gpu.Host.Prints.{handle_print-print_payload}
use async_gpu.Host.Frames.{handle_bulk_print-frames}
use async_gpu.Hostcall.Request.{print_payload}
use async_gpu.Tests.Stacks.{memory}

pub zero_count : {n : ℕ} (m : ℕ) → ◌≡◌ {A = IoResult ℕ} (ok 0) (ok n) → n ≤ m
zero_count {n} m e = let z : 0 ≡ n = cc in omega arith

abbrev pub sys : Os ℕ ℕ
sys = record {
  from_utf8 = λ bytes. true;
  socket_addr = λ addr port. addr;
  prefix = λ block thread. block ∷ thread ∷ [];
  open_read = λ path w. (ok 7, w);
  create = λ path w. (ok 7, w);
  open_append = λ path w. (ok 7, w);
  connect = λ addr w. (ok 7, w);
  bind = λ addr w. (ok 7, w);
  accept = λ h w. (ok 7, w);
  write = λ h bytes w. (ok (length bytes), w + length bytes);
  write_all = λ h bytes w. (ok tt, w + length bytes);
  flush = λ h w. w;
  read = λ h buf w. (ok 0, buf, w);
  close = λ h w. w;
  now = λ w. (some (1, 2), w);
  read_line = λ w. (ok [], w);
  read_count = λ h buf w e. zero_count (length buf) e;
  read_length = λ h buf w. refl;
}

abbrev pub sideband : Sideband
sideband = record { alloc = 16; capacity = 1024; data_region = λ i. 0 }

-- Packet 1, a PRINT, on top of packet 0, a WRITE.
abbrev two : Buffer
two = record memory {
  ready_stack = 1;
  packets = λ i. record {
    next = if i == 1 then 0 else 65535;
    active_mask = 1;
    service = if i == 1 then 1 else 2;
    control = 4;
    payload = λ j. 0;
  };
}

abbrev listener : Listener ℕ
listener = record { buffer = two; sideband = sideband; sent = []; shown = []; os = 0 }

abbrev still : Schedule
still = (λ b. b) ∷ (λ b. b) ∷ (λ b. b) ∷ []

Holds-two : Holds two global_ready (1 ∷ 0 ∷ [])
unfolding load tagged_index
Holds-two = (refl, omega arith, (refl, omega arith, refl))

scan_stack_refines_example :
    (l' : Listener ℕ) × (scan_stack sys still global_ready listener ≡ some l')
    × (l'.sent ≡ [] ++ all_forwarded two.packets (1 ∷ 0 ∷ []))
    × (l'.shown ≡ [] ++ all_shown sys sideband two.packets (1 ∷ 0 ∷ []))
    × All
        (λ x. Leaves still x → (l'.buffer.packets x).control ≡ control_served (two.packets x))
        (1 ∷ 0 ∷ [])
    × ((y : ℕ)
        → All (λ x. y ≢ x) (1 ∷ 0 ∷ [])
        → Leaves still y
        → l'.buffer.packets y ≡ two.packets y)
    × (LeavesStack still global_ready → Holds l'.buffer global_ready [])
scan_stack_refines_example =
    scan_stack_refines sys still global_ready (1 ∷ 0 ∷ []) listener
      ((λ b. (refl, tt)), ((λ b. tt), tt)) ((omega arith, tt), (tt, tt)) Holds-two

abbrev request : ℕ → (Buffer → Buffer) × IoRequest
request service = ((λ b. b), record { pkt_idx = 0; service = service })

canned : CannedStdin
canned = record { data_bytes = 104 ∷ []; consumed = false }

io_thread_loop-WellFormed_example :
    WellFormed 3
      (io_thread_loop sys canned_stdin (request 4 ∷ request 2 ∷ []) two canned sideband 0).1
unfolding blocks
io_thread_loop-WellFormed_example =
    io_thread_loop-WellFormed sys canned_stdin (request 4 ∷ request 2 ∷ []) two canned sideband 0
      (refl, (refl, tt)) (omega arith)

-- Descriptor 1 is a file.
abbrev opened_one : Io ℕ ℕ CannedStdin
opened_one = record {
  fd_table = update (λ fd. none) 1 (some (file 7));
  next_fd = 2;
  stdin = canned;
  sideband = sideband;
  os = 0;
}

abbrev names_one : ℕ → ℕ
names_one = update (λ j. 0) 0 1

close-Refused_example :
    Refused sys names_one
      (io_loop sys canned_stdin (request 4 ∷ []) two (handle_close sys names_one opened_one).io).1
unfolding blocks read_u64
close-Refused_example =
    close-Refused sys canned_stdin names_one opened_one (request 4 ∷ []) two names_one (refl, tt)
      (omega arith) (omega arith) refl

serve_request_answers_example :
    let b' = (serve_request sys canned_stdin (request 2).1 two opened_one).0 in
    let pkt = b'.packets 0 in
    (has_bit pkt.control control_ready ≡ true)
    × ((j : ℕ) → 0 ≢ j → b'.packets j ≡ two.packets j)
    × (has_bit pkt.control control_error ≡ true
        → let e = from_encoded (read_u64 pkt.payload 0) in (e ≢ pool_exhausted) × (e ≢ timeout))
unfolding blocks
serve_request_answers_example =
    serve_request_answers sys canned_stdin (request 2).1 two opened_one refl (omega arith)

abbrev pub lane : World
lane = record {
  activemask = 1;
  block_idx = 3;
  thread_idx = 5;
  pop = [];
  submit = [];
  host = λ k b. b;
  release = [];
}

handle_print-print_payload_example :
    handle_print sys (print_payload lane (104 ∷ 105 ∷ []) 2 (λ j. 0))
    ≡ printed (3 ∷ 5 ∷ 104 ∷ 105 ∷ [])
handle_print-print_payload_example =
    handle_print-print_payload sys lane (104 ∷ 105 ∷ []) (λ j. 0) (omega arith) (omega arith)
      (omega arith)

-- A message of one byte, then an empty one and another byte.
abbrev framed_region : Sideband
framed_region = record sideband {
  data_region = write_from (λ i. 0) 16 (1 ∷ 0 ∷ 104 ∷ 0 ∷ 0 ∷ 9 ∷ []);
}

abbrev flush_of_six : ℕ → ℕ
flush_of_six = update (update (λ j. 0) 0 16) 8 6

handle_bulk_print-frames_example :
    handle_bulk_print sys framed_region flush_of_six ≡ some (printed (0 ∷ 0 ∷ 104 ∷ []) ∷ [])
unfolding read_u64 read_from write_from
handle_bulk_print-frames_example =
    handle_bulk_print-frames sys framed_region flush_of_six ((104 ∷ []) ∷ []) (0 ∷ 0 ∷ 9 ∷ [])
      ((omega arith, omega arith), tt) (inr (9 ∷ [], refl)) refl refl

handle_trace-trace_payload_example :
    handle_trace sys (trace_payload lane 0 9 1 (104 ∷ []) 1 (λ j. 0))
    ≡ traced 5 3 LevelStr.info 9 (some (104 ∷ []))
unfolding level_str valid_text
handle_trace-trace_payload_example =
    handle_trace-trace_payload sys lane 0 9 1 (104 ∷ []) (λ j. 0) (omega arith) (omega arith)
