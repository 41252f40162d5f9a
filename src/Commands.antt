-- ===== src/Commands.antt =====
-- The command ring, on which the host sends commands to a running kernel: CommandBuffer of
-- crates/core/gpu-host/src/hostcall.rs, and the kernel's side in crates/core/gpu-runtime/src/cmd.rs.
pub mod Queue
pub mod Calls
use async_gpu.Prelude.{
  ℕ, suc, ◌+◌, ◌-◌, ◌%◌, ◌^◌, Bool, ltb, leb, not, if◌then◌else◌, List, [], ◌∷◌, Option, none, some,
  length, take, update, u64, write_from, write_u64, write_u32,
}

abbrev pub cmd_nop : ℕ
cmd_nop = 0

abbrev pub cmd_compute : ℕ
cmd_compute = 1

abbrev pub cmd_print : ℕ
cmd_print = 2

abbrev pub cmd_exit : ℕ
cmd_exit = 3

abbrev pub cmd_max_payload : ℕ
cmd_max_payload = 56

-- A slot: the command type, and the payload by byte.
pub record Slot : Type 0 where
  pub cmd_type : ℕ
  pub payload : ℕ → ℕ

pub record CommandBuffer : Type 0 where
  pub write_idx : ℕ
  pub read_idx : ℕ
  pub capacity : ℕ
  pub slots : ℕ → Slot

pub data Command : Type 0 where
  nop : Command
  compute : (input_ptr output_ptr count op_code : ℕ) → Command
  print : (msg : List ℕ) → Command
  exit : Command

-- `new` after its allocation, which clears the memory.
unfoldable pub new : ℕ → CommandBuffer
new capacity = record {
  write_idx = 0;
  read_idx = 0;
  capacity = capacity;
  slots = λ _. record { cmd_type = 0; payload = λ _. 0 };
}

-- The type and the payload of a command, written over what the slot held.
unfoldable pub write_command : Command → Slot → Slot
write_command nop s = record s { cmd_type = cmd_nop }
write_command (compute input_ptr output_ptr count op_code) s =
    let p₁ = write_u64 s.payload 0 input_ptr in
    let p₂ = write_u64 p₁ 8 output_ptr in
    let p₃ = write_u32 p₂ 16 count in
    record { cmd_type = cmd_compute; payload = write_u32 p₃ 20 op_code }
write_command (print msg) s =
    let len : ℕ =
      if ltb (cmd_max_payload - 4) (length msg) then cmd_max_payload - 4 else length msg in
    record {
      cmd_type = cmd_print;
      payload = write_from (write_u32 s.payload 0 len) 4 (take len msg);
    }
write_command exit s = record s { cmd_type = cmd_exit }

-- The test of the waiting loop, on u64.
unfoldable pub has_space : CommandBuffer → Bool
has_space b = ltb (u64 (b.write_idx + (2 ^ 64 - b.read_idx))) b.capacity

-- What `submit` does once there is space.
unfoldable pub enqueue : Command → CommandBuffer → CommandBuffer
unfolding write_command
enqueue cmd b =
    let slot_idx : ℕ = b.write_idx % b.capacity in
    record b {
      slots = update b.slots slot_idx (write_command cmd (b.slots slot_idx));
      write_idx = u64 (b.write_idx + 1);
    }

-- `submit`, on what the kernel does each time that the loop yields. `none` is a loop that still
-- waits when the list ends.
unfoldable pub submit :
    List (CommandBuffer → CommandBuffer) → Command → CommandBuffer → Option CommandBuffer
unfolding has_space enqueue
submit [] cmd b = if has_space b then some (enqueue cmd b) else none
submit (kernel ∷ later) cmd b =
    let waited = submit later cmd (kernel b) in if has_space b then some (enqueue cmd b) else waited

unfoldable pub reset : CommandBuffer → CommandBuffer
reset b = record b { write_idx = 0; read_idx = 0 }

-- The type and the payload are returned together, as the slot.
unfoldable pub cmd_poll : CommandBuffer → Option Slot
cmd_poll b = if leb b.write_idx b.read_idx then none else some (b.slots (b.read_idx % b.capacity))

unfoldable pub cmd_ack : CommandBuffer → CommandBuffer
cmd_ack b = record b { read_idx = u64 (b.read_idx + 1) }
