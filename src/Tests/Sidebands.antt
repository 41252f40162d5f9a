-- ===== src/Tests/Sidebands.antt =====
-- The sideband buffer and the print buffer on small inputs.
use async_gpu.Prelude.{
  ℕ, ◌≡◌, List, [], ◌∷◌, some, none, arith, update, read_u32, ◌==◌, if◌then◌else◌,
}
use async_gpu.Host.Resources.{file, Sideband, Io}
use async_gpu.Host.Console.{printed, handle_bulk_print}
use async_gpu.Hostcall.Buffer.{Buffer, with_packet}
use async_gpu.Hostcall.Stack.{quiet}
use async_gpu.Hostcall.Request.{World}
use async_gpu.Sideband.Grants.{InOrder, alloc_all, alloc_all-InOrder}
use async_gpu.Sideband.PrintBuffer.{slot_ptr, clear, append, flush_payload}
use async_gpu.Sideband.Buffered.{Gathered, clear-Gathered, append-Gathered, handle_bulk_print-flush}
use async_gpu.Tests.Hosts.{sys, sideband, lane}

alloc_all-InOrder_example : InOrder 1024 16 (alloc_all (1000 ∷ 100 ∷ 8 ∷ []) sideband)
alloc_all-InOrder_example = alloc_all-InOrder (1000 ∷ 100 ∷ 8 ∷ []) sideband (omega arith)

abbrev bytes : List ℕ
bytes = 104 ∷ 105 ∷ []

abbrev world : World
world = record {
  activemask = 1;
  block_idx = 0;
  thread_idx = 0;
  pop = quiet;
  submit = quiet;
  host = λ k b. if k == 1 then with_packet 0 (λ pkt. record pkt { control = 1 }) b else b;
  release = quiet;
}

abbrev with_file : Io ℕ ℕ Unit
with_file = record {
  fd_table = update (λ fd. none) 1 (some (file 7));
  next_fd = 2;
  stdin = tt;
  sideband = sideband;
  os = 0;
}

abbrev one_message : Sideband
one_message = record sideband { data_region = append 2 bytes (clear 2 (λ i. 0)) }

Gathered-one : Gathered 2 one_message.data_region (bytes ∷ [])
Gathered-one =
    append-Gathered 2 (clear 2 (λ i. 0)) [] bytes (clear-Gathered 2 (λ i. 0)) (omega arith)

append-Gathered_example : Gathered 2 (append 2 bytes one_message.data_region) (bytes ∷ bytes ∷ [])
append-Gathered_example =
    append-Gathered 2 one_message.data_region (bytes ∷ []) bytes Gathered-one (omega arith)

handle_bulk_print-flush_example :
    handle_bulk_print sys one_message
      (flush_payload lane 2 (read_u32 one_message.data_region (slot_ptr 2)) (λ j. 0))
    ≡ some (printed (3 ∷ 5 ∷ 104 ∷ 105 ∷ []) ∷ [])
handle_bulk_print-flush_example =
    handle_bulk_print-flush sys lane 2 one_message (bytes ∷ []) (λ j. 0) (omega arith) (omega arith)
      (omega arith) (omega arith, tt) Gathered-one
