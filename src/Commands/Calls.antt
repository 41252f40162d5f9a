-- ===== src/Commands/Calls.antt =====
-- Any sequence of calls on a new command ring, by the list of the commands in it.
use async_gpu.Prelude.{
  ℕ, ◌+◌, ◌^◌, ◌<◌, ◌≤◌, ◌≡◌, refl, List, [], ◌∷◌, ◌++◌, none, some, length, All, arith, dec_lt,
  ◌⊎◌, ◌≢◌, ◌∙◌, inl, inr, Bool-cases, subst, Option,
}
use async_gpu.Commands.{
  Slot, CommandBuffer, Command, new, enqueue, has_space, submit, cmd_poll, cmd_ack,
}
use async_gpu.Commands.Queue.{
  IsCommand, Encodes, Pending, has_space-false, submit_refines, poll_ack_refines,
}

-- The host submits a command, or the kernel polls and acknowledges what it finds.
pub data Call : Type 0 where
  submits : Command → Call
  serves : Call

abbrev pub IsCall : Call → Type 0
IsCall (submits cmd) = IsCommand cmd
IsCall serves = Unit

-- How these calls go on a ring of this capacity that holds these commands, oldest first.
abbrev pub Goes : ℕ → List Call → List Command → CommandBuffer → Type 0
Goes capacity [] cmds b = Unit
Goes capacity (submits cmd ∷ calls) cmds b =
    ((length cmds < capacity)
      × (b' : CommandBuffer) × (submit [] cmd b ≡ some b')
      × Goes capacity calls (cmds ++ cmd ∷ []) b')
    ⊎ ((length cmds ≡ capacity) × (submit [] cmd b ≡ none) × Goes capacity calls cmds b)
Goes capacity (serves ∷ calls) [] b = (cmd_poll b ≡ none) × Goes capacity calls [] b
Goes capacity (serves ∷ calls) (cmd ∷ cmds) b =
    (s : Slot) × (cmd_poll b ≡ some s) × Encodes cmd s × Goes capacity calls cmds (cmd_ack b)

submit_full :
    (cmds : List Command) (cmd : Command) (b : CommandBuffer)
    → Pending cmds b
    → length cmds ≡ b.capacity
    → submit [] cmd b ≡ none
unfolding submit has_space
submit_full cmds cmd b p full =
    rw (has_space-false b.write_idx b.read_idx (length cmds) b.capacity p.write full p.bounded) refl

some-inj : (x y : CommandBuffer) → ◌≡◌ {A = Option CommandBuffer} (some x) (some y) → x ≡ y
some-inj x y e = cc

none-ne : (x : CommandBuffer) → ◌≢◌ {A = Option CommandBuffer} none (some x)
none-ne x e = cc

submit_keeps :
    (cmd : Command) (b b' : CommandBuffer)
    → submit [] cmd b ≡ some b'
    → (b'.capacity ≡ b.capacity) × (b'.write_idx ≤ b.write_idx + 1)
unfolding submit enqueue
submit_keeps cmd b b' e = elim (Bool-cases (has_space b)) [
  | inl room ↦
      let same : enqueue cmd b ≡ b' = some-inj (enqueue cmd b) b' (rw room at e) in
      subst (λ (x : CommandBuffer). (x.capacity ≡ b.capacity) × (x.write_idx ≤ b.write_idx + 1))
        same (refl, omega arith)
  | inr waits ↦ absurd (none-ne b' (rw waits at e))
]

ack_keeps :
    (b : CommandBuffer)
    → ((cmd_ack b).capacity ≡ b.capacity) × ((cmd_ack b).write_idx ≡ b.write_idx)
unfolding cmd_ack
ack_keeps b = (refl, refl)

Pending-Goes :
    (capacity : ℕ) (calls : List Call) (cmds : List Command) (b : CommandBuffer)
    → All IsCall calls
    → b.capacity ≡ capacity
    → b.write_idx + length calls < 2 ^ 64
    → Pending cmds b
    → Goes capacity calls cmds b
Pending-Goes capacity [] cmds b ok same low p = tt
Pending-Goes capacity (submits cmd ∷ calls) cmds b ok same low p =
    elim (dec_lt (length cmds) capacity) [
      | yes lt ↦
          let (b', e, p') = submit_refines [] cmds cmd b ok.0 p (omega arith) (omega arith) in
          let (same', step) = submit_keeps cmd b b' e in
          inl (
            lt,
            b',
            e,
            Pending-Goes capacity calls (cmds ++ cmd ∷ []) b' ok.1 (same' ∙ same) (omega arith) p',
          )
      | no ge ↦
          let full : length cmds ≡ capacity = omega (arith, p.fits) in
          inr (
            full,
            submit_full cmds cmd b p (omega arith),
            Pending-Goes capacity calls cmds b ok.1 same (omega arith) p,
          )
    ]
Pending-Goes capacity (serves ∷ calls) [] b ok same low p =
    (poll_ack_refines [] b p, Pending-Goes capacity calls [] b ok.1 same (omega arith) p)
Pending-Goes capacity (serves ∷ calls) (cmd ∷ cmds) b ok same low p =
    let (s, e, encoded, p') = poll_ack_refines (cmd ∷ cmds) b p in
    let (same', step) = ack_keeps b in
    (
      s,
      e,
      encoded,
      Pending-Goes capacity calls cmds (cmd_ack b) ok.1 (same' ∙ same) (omega arith) p',
    )

-- On a new ring of any positive capacity, fewer than 2⁶⁴ calls go as those on a queue of this
-- capacity do: a submit of a command appends it and returns, or still waits when the ring is full and
-- nothing is taken; a poll finds a slot from which the oldest command can be read, with its type and
-- its arguments, a message cut to 52 bytes, and the acknowledgement drops it; a poll of an empty ring
-- finds nothing.
pub ring_refines :
    (capacity : ℕ) (calls : List Call)
    → 0 < capacity
    → All IsCall calls
    → length calls < 2 ^ 64
    → Goes capacity calls [] (new capacity)
unfolding new
ring_refines capacity calls pos ok low =
    Pending-Goes capacity calls [] (new capacity) ok refl (omega arith) (record {
      positive = pos;
      write = refl;
      fits = omega arith;
      bounded = omega arith;
      slots = λ j cmd e. absurd (cc);
    })
