-- ===== src/Commands/Queue.antt =====
-- The abstract view of Commands: the ring as a queue.
use async_gpu.Prelude.{
  ℕ, suc, ◌+◌, ◌-◌, ◌%◌, ◌^◌, ◌<◌, ◌≤◌, ◌≡◌, ◌∙◌, refl, sym, ap, true, false, List, [], ◌∷◌, ◌++◌,
  Option, none, some, length, get_elem?, length-append, arith, ltb, leb, lt→ltb, le→ltb, ℕ_discrete,
  update, update_self, update_ne, u64, if◌then◌else◌, subst, inl, take, length-take, read_from,
  read_u64, read_u32, write_u64, write_u32, read_u64-write_u32_out, read_u64-write_u64_out,
  read_u64-write_u64, read_u32-write_u32_out, read_u32-write_u32, read_u32-write_from_out,
  read_from-write_from_len,
}
use native.Mathlib.Nat.{add-zero}
use async_gpu.Channel.Ring.{places_ne}
use async_gpu.Channel.Entries.{get_elem?-snoc_ne, get_elem?-snoc_self, get_elem?-some_lt}
use async_gpu.Commands.{
  Slot, CommandBuffer, Command, nop, compute, print, exit, write_command, has_space, enqueue,
  submit, cmd_poll, cmd_ack,
}

-- The arguments of a command are as wide as their types.
abbrev pub IsCommand : Command → Type 0
IsCommand nop = Unit
IsCommand (compute input_ptr output_ptr count op_code) =
    (input_ptr < 2 ^ 64) × (output_ptr < 2 ^ 64) × (count < 2 ^ 32) × (op_code < 2 ^ 32)
IsCommand (print msg) = Unit
IsCommand exit = Unit

-- What a kernel reads from the slot of a command: the type, and the arguments at their places. Of a
-- message there are at most 52 bytes, behind their number.
abbrev pub Encodes : Command → Slot → Type 0
Encodes nop s = s.cmd_type ≡ 0
Encodes (compute input_ptr output_ptr count op_code) s =
    (s.cmd_type ≡ 1)
    × (read_u64 s.payload 0 ≡ input_ptr)
    × (read_u64 s.payload 8 ≡ output_ptr)
    × (read_u32 s.payload 16 ≡ count)
    × (read_u32 s.payload 20 ≡ op_code)
Encodes (print msg) s =
    let n : ℕ = if ltb 52 (length msg) then 52 else length msg in
    (s.cmd_type ≡ 2) × (read_u32 s.payload 0 ≡ n) × (read_from s.payload 4 n ≡ take n msg)
Encodes exit s = s.cmd_type ≡ 3

write_command-Encodes :
    (cmd : Command) (old : Slot) → IsCommand cmd → Encodes cmd (write_command cmd old)
unfolding write_command
write_command-Encodes nop old ok = refl
write_command-Encodes (compute input_ptr output_ptr count op_code) old (a, b, c, d) =
    let p₁ = write_u64 old.payload 0 input_ptr in
    let p₂ = write_u64 p₁ 8 output_ptr in
    let p₃ = write_u32 p₂ 16 count in
    (
      refl,
      read_u64-write_u32_out p₃ 0 20 op_code (inl (omega arith))
          ∙ read_u64-write_u32_out p₂ 0 16 count (inl (omega arith))
          ∙ read_u64-write_u64_out p₁ 0 8 output_ptr (inl (omega arith))
          ∙ read_u64-write_u64 old.payload 0 input_ptr a,
      read_u64-write_u32_out p₃ 8 20 op_code (inl (omega arith))
          ∙ read_u64-write_u32_out p₂ 8 16 count (inl (omega arith))
          ∙ read_u64-write_u64 p₁ 8 output_ptr b,
      read_u32-write_u32_out p₃ 16 20 op_code (inl (omega arith))
          ∙ read_u32-write_u32 p₂ 16 count c,
      read_u32-write_u32 p₃ 20 op_code d,
    )
write_command-Encodes (print msg) old ok =
    let n : ℕ = if ltb 52 (length msg) then 52 else length msg in
    let small : n ≤ 52 = ground arith in
    let le : n ≤ length msg = ground arith in
    let size : length (take n msg) ≡ n = length-take n msg ∙ omega (arith, le) in
    let p = write_u32 old.payload 0 n in
    (
      refl,
      read_u32-write_from_out p 0 4 (take n msg) (inl (omega arith))
          ∙ read_u32-write_u32 old.payload 0 n (omega (arith, small)),
      read_from-write_from_len p 4 n (take n msg) (sym size),
    )
write_command-Encodes exit old ok = refl

-- The commands that were submitted and not yet acknowledged, oldest first.
pub record Pending (cmds : List Command) (b : CommandBuffer) : Type 0 where
  pub positive : 0 < b.capacity
  pub write : b.write_idx ≡ b.read_idx + length cmds
  pub fits : length cmds ≤ b.capacity
  pub bounded : b.write_idx < 2 ^ 64
  pub slots :
      (j : ℕ) (cmd : Command)
      → get_elem? cmds j ≡ some cmd
      → Encodes cmd (b.slots ((b.read_idx + j) % b.capacity))

has_space-true :
    (w r n c : ℕ) → w ≡ r + n → n < c → w < 2 ^ 64 → ltb (u64 (w + (2 ^ 64 - r))) c ≡ true
has_space-true w r n c e h k = lt→ltb _ _ (omega arith)

pub has_space-false :
    (w r n c : ℕ) → w ≡ r + n → n ≡ c → w < 2 ^ 64 → ltb (u64 (w + (2 ^ 64 - r))) c ≡ false
has_space-false w r n c e h k = le→ltb _ _ (omega arith)

none_left : (w r : ℕ) → w ≡ r + 0 → leb w r ≡ true
none_left w r e = ground arith

some_left : (w r n : ℕ) → w ≡ r + suc n → leb w r ≡ false
some_left w r n e = ground arith

some_injective : (x y : Command) → ◌≡◌ {A = Option Command} (some x) (some y) → x ≡ y
some_injective x y e = cc

-- The slots after a command was written behind the last one.
enqueue-slots :
    (cmds : List Command) (cmd : Command) (b : CommandBuffer)
    → IsCommand cmd
    → Pending cmds b
    → length cmds < b.capacity
    → (j : ℕ) (other : Command) → get_elem? (cmds ++ cmd ∷ []) j ≡ some other
    → Encodes other (
        update b.slots
          ((b.read_idx + length cmds) % b.capacity)
          (write_command cmd (b.slots ((b.read_idx + length cmds) % b.capacity)))
          ((b.read_idx + j) % b.capacity))
enqueue-slots cmds cmd b ok p lt j other e = elim (ℕ_discrete j (length cmds)) [
  | yes q ↦
      let last : cmd ≡ other =
        some_injective cmd other
          (sym (get_elem?-snoc_self cmds cmd) ∙ ap (get_elem? (cmds ++ cmd ∷ [])) (sym q) ∙ e) in
      let old = b.slots ((b.read_idx + length cmds) % b.capacity) in
      rw q (
        subst (Encodes other)
          (sym
            (update_self b.slots ((b.read_idx + length cmds) % b.capacity) (write_command cmd old)))
          (subst (λ c. Encodes c (write_command cmd old)) last (write_command-Encodes cmd old ok)))
  | no ne ↦
      let before = sym (get_elem?-snoc_ne cmds cmd j ne) ∙ e in
      let inside = get_elem?-some_lt cmds j before in
      rw
        (update_ne b.slots ((b.read_idx + length cmds) % b.capacity) ((b.read_idx + j) % b.capacity)
          (write_command cmd (b.slots ((b.read_idx + length cmds) % b.capacity)))
          (places_ne b.capacity b.read_idx (length cmds) j p.positive lt (omega arith)
            (λ r. ne (sym r))))
        (p.slots j other before)
]

pub enqueue-Pending :
    (cmds : List Command) (cmd : Command) (b : CommandBuffer)
    → IsCommand cmd
    → Pending cmds b
    → length cmds < b.capacity
    → suc b.write_idx < 2 ^ 64
    → Pending (cmds ++ cmd ∷ []) (enqueue cmd b)
unfolding enqueue
enqueue-Pending cmds cmd b ok p lt room = record {
  positive = p.positive;
  write = omega (arith, p.write, length-append cmds (cmd ∷ []));
  fits = omega (arith, length-append cmds (cmd ∷ []));
  bounded = omega arith;
  slots = λ j other e.
      let at_end : b.write_idx % b.capacity ≡ (b.read_idx + length cmds) % b.capacity =
        ap (λ (n : ℕ). n % b.capacity) p.write in
      rw at_end (enqueue-slots cmds cmd b ok p lt j other e);
}

-- A `submit` to a ring that holds `cmds` and has a free slot returns at once, whatever the kernel
-- would do later, with a ring that holds the command behind `cmds`. The write index does not reach
-- 2⁶⁴.
pub submit_refines :
    (kernel : List (CommandBuffer → CommandBuffer)) (cmds : List Command) (cmd : Command)
    (b : CommandBuffer)
    → IsCommand cmd
    → Pending cmds b
    → length cmds < b.capacity
    → suc b.write_idx < 2 ^ 64
    → (b' : CommandBuffer) × (submit kernel cmd b ≡ some b') × Pending (cmds ++ cmd ∷ []) b'
unfolding submit has_space
submit_refines [] cmds cmd b ok p lt room = (
  enqueue cmd b,
  rw (has_space-true b.write_idx b.read_idx (length cmds) b.capacity p.write lt p.bounded) refl,
  enqueue-Pending cmds cmd b ok p lt room,
)
submit_refines (k ∷ kernel) cmds cmd b ok p lt room = (
  enqueue cmd b,
  rw (has_space-true b.write_idx b.read_idx (length cmds) b.capacity p.write lt p.bounded) refl,
  enqueue-Pending cmds cmd b ok p lt room,
)

-- What the kernel's poll and acknowledgement do, by the commands that are pending.
abbrev pub Polls : List Command → CommandBuffer → Type 0
Polls [] b = cmd_poll b ≡ none
Polls (cmd ∷ cmds) b = (s : Slot) × (cmd_poll b ≡ some s) × Encodes cmd s × Pending cmds (cmd_ack b)

pub ack-Pending :
    (cmds : List Command) (cmd : Command) (b : CommandBuffer)
    → Pending (cmd ∷ cmds) b
    → Pending cmds (cmd_ack b)
unfolding cmd_ack
ack-Pending cmds cmd b p =
    let e : u64 (b.read_idx + 1) ≡ suc b.read_idx = omega (arith, p.write, p.bounded) in
    record {
      positive = p.positive;
      write = omega (arith, p.write, e);
      fits = omega (arith, p.fits);
      bounded = p.bounded;
      slots = λ j other h.
          let place : suc b.read_idx + j ≡ b.read_idx + suc j = omega arith in
          rw (e, place) (p.slots (suc j) other h);
    }

-- On a ring that holds nothing `cmd_poll` finds nothing; on one that holds commands it finds a slot
-- that encodes the oldest, and `cmd_ack` leaves a ring that holds the others.
pub poll_ack_refines : (cmds : List Command) (b : CommandBuffer) → Pending cmds b → Polls cmds b
unfolding cmd_poll
poll_ack_refines [] b p = rw (none_left b.write_idx b.read_idx p.write) refl
poll_ack_refines (cmd ∷ cmds) b p = (
  b.slots (b.read_idx % b.capacity),
  rw (some_left b.write_idx b.read_idx (length cmds) p.write) refl,
  rw (add-zero b.read_idx) at (p.slots 0 cmd refl),
  ack-Pending cmds cmd b p,
)

-- A `submit` to a full ring waits, and if the kernel acknowledges the oldest command while it yields,
-- returns with a ring that holds the new command behind the others. The write index does not reach
-- 2⁶⁴.
pub submit_waits :
    (kernel : List (CommandBuffer → CommandBuffer)) (cmds : List Command) (cmd oldest : Command)
    (b : CommandBuffer)
    → IsCommand cmd
    → Pending (oldest ∷ cmds) b
    → suc (length cmds) ≡ b.capacity
    → suc b.write_idx < 2 ^ 64
    → (b' : CommandBuffer) × (submit (cmd_ack ∷ kernel) cmd b ≡ some b')
      × Pending (cmds ++ cmd ∷ []) b'
unfolding submit has_space cmd_ack
submit_waits kernel cmds cmd oldest b ok p full room =
    let (b', e, q) =
      submit_refines kernel cmds cmd (cmd_ack b) ok (ack-Pending cmds oldest b p) (omega arith)
        room in
    (
      b',
      rw
          (has_space-false b.write_idx b.read_idx (suc (length cmds)) b.capacity p.write full
            p.bounded)
          e,
      q,
    )
