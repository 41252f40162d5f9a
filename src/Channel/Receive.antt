-- ===== src/Channel/Receive.antt =====
-- Receiving, by the one consumer.
use native.Mathlib.Nat.{add-zero, add-mod_right}
use async_gpu.Prelude.{
  ℕ, suc, ◌+◌, ◌%◌, ◌^◌, ◌≡◌, ◌∙◌, refl, sym, ap, List, [], ◌∷◌, none, some, length, arith,
  ℕ_discrete, ◌==◌, if◌then◌else◌, eq→==, ne→==, update, update_self, update_ne, wrapping_add,
}
use async_gpu.Channel.{MpscSlot, MpscChannel, index, try_recv}
use async_gpu.Channel.Entries.{get_elem?-none}
use async_gpu.Channel.Ring.{Cell, claimed, published, Ring, Capacity, places_ne, wrapped_place}

-- The number of the next value, when the consumer takes the oldest.
next_place : (start j : ℕ) → suc start + j ≡ start + suc j
next_place start j = omega arith

module _ {A : Type 0} where
  -- The slot at the tail.
  abbrev front : ℕ → ℕ → MpscChannel A → MpscSlot A
  front capacity start c = c.slots (start % capacity)

  -- What a successful `try_recv` leaves.
  abbrev taken : ℕ → ℕ → MpscChannel A → MpscChannel A
  taken capacity start c = record c {
    slots =
        update c.slots (start % capacity)
          (record (front capacity start c) { sequence = wrapping_add (start % 2 ^ 32) capacity });
    tail = wrapping_add (start % 2 ^ 32) 1;
  }

  -- What `try_recv` does of a ring, by its oldest cell.
  abbrev pub Received : ℕ → ℕ → List (Cell A) → MpscChannel A → Type 0
  Received capacity start [] c = try_recv capacity c ≡ (c, none)
  Received capacity start (claimed ∷ cells) c = try_recv capacity c ≡ (c, none)
  Received capacity start (published v ∷ cells) c =
      (c' : MpscChannel A) × (try_recv capacity c ≡ (c', some v))
      × Ring capacity (suc start) cells c'

  module _ {capacity start : ℕ} (fit : Capacity capacity) where
    try_recv-at :
        (cells : List (Cell A)) (c : MpscChannel A)
        → Ring capacity start cells c
        → try_recv capacity c ≡ (
            if (front capacity start c).sequence == (start + 1) % 2 ^ 32
            then (taken capacity start c, some (front capacity start c).value)
            else (c, none))
    unfolding try_recv index
    try_recv-at cells c r =
        let e : (start % 2 ^ 32 + 1) % 2 ^ 32 ≡ (start + 1) % 2 ^ 32 = omega arith in
        rw (r.tail, wrapped_place fit start, e) refl

    taken-Ring :
        (v : A) (cells : List (Cell A)) (c : MpscChannel A)
        → Ring capacity start (published v ∷ cells) c
        → Ring capacity (suc start) cells (taken capacity start c)
    taken-Ring v cells c r = record {
      head = r.head ∙ ap (λ n. n % 2 ^ 32) (sym (next_place start (length cells)));
      tail = omega arith;
      fits = omega (arith, r.fits);
      slots = λ j hj. elim (ℕ_discrete (suc j) capacity) [
        | yes e ↦
            rw
              (
                next_place start j,
                e,
                add-mod_right start capacity,
                get_elem?-none cells j (omega (arith, r.fits)),
              )
              (ap (λ (s : MpscSlot A). s.sequence) (update_self c.slots (start % capacity) _)
                ∙ omega arith)
        | no ne ↦
            rw
              (
                next_place start j,
                update_ne c.slots (start % capacity) ((start + suc j) % capacity)
                    (record (front capacity start c) {
                      sequence = wrapping_add (start % 2 ^ 32) capacity;
                    })
                    (rw (add-zero start) at (
                      places_ne capacity start 0 (suc j) fit.positive fit.positive (omega arith)
                        (omega arith))),
              )
              (r.slots (suc j) (omega arith))
      ];
    }

    unpublished :
        (cells : List (Cell A)) (c : MpscChannel A)
        → Ring capacity start cells c
        → (front capacity start c).sequence ≡ start % 2 ^ 32
        → try_recv capacity c ≡ (c, none)
    unpublished cells c r e =
        try_recv-at cells c r
        ∙ rw
            (ne→== (front capacity start c).sequence ((start + 1) % 2 ^ 32)
              (λ same. omega (arith, e, same)))
            refl

    -- `try_recv` of a ring whose oldest cell is published with `v` returns `v` and leaves the ring
    -- of the other cells; if the ring is empty, or the oldest cell is only claimed, it returns
    -- nothing and leaves the ring as it is, whatever later cells hold.
    pub recv_refines :
        (cells : List (Cell A)) (c : MpscChannel A)
        → Ring capacity start cells c
        → Received capacity start cells c
    recv_refines [] c r = unpublished [] c r (rw (add-zero start) at (r.slots 0 fit.positive))
    recv_refines (claimed ∷ cells) c r =
        unpublished (claimed ∷ cells) c r (rw (add-zero start) at (r.slots 0 fit.positive))
    recv_refines (published v ∷ cells) c r =
        let (e, q) = rw (add-zero start) at (r.slots 0 fit.positive) in
        (
          taken capacity start c,
          try_recv-at (published v ∷ cells) c r
              ∙ rw (eq→== (front capacity start c).sequence ((start + 1) % 2 ^ 32) e, q) refl,
          taken-Ring v cells c r,
        )
