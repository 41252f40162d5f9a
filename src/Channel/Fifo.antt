-- ===== src/Channel/Fifo.antt =====
-- Schedules of whole calls, and what the consumer has when they are done.
use native.Mathlib.Nat.{mod-eq_of_lt, zero-add}
use async_gpu.Prelude.{
  ℕ, suc, ◌+◌, ◌%◌, ◌<◌, ◌≤◌, ◌≡◌, ◌∙◌, refl, sym, ap, inl, inr, List, [], ◌∷◌, ◌++◌, Option, none,
  some, length, map, append_assoc, arith, leb, false,
}
use async_gpu.Channel.{MpscChannel, Sent, ok, err, init, close, try_send, try_recv}
use async_gpu.Channel.Ring.{Cell, published, Ring, Capacity}
use async_gpu.Channel.TrySend.{try_send_alone}
use async_gpu.Channel.Receive.{recv_refines}

pub data Call (A : Type 0) : Type 0 where
  send : A → Call A
  receive : Call A
  shut : Call A

-- The channel, the values that `try_send` accepted, and those that `try_recv` returned, in order.
pub record Trace (A : Type 0) : Type 0 where
  pub channel : MpscChannel A
  pub accepted : List A
  pub received : List A

outside : (capacity j : ℕ) → j < capacity → leb capacity j ≡ false
outside capacity j h = ground arith

module _ {A : Type 0} where
  abbrev note_sent : A → List A → Sent A → List A
  note_sent v xs ok = xs ++ v ∷ []
  note_sent v xs (err e) = xs

  abbrev note_received : List A → Option A → List A
  note_received xs none = xs
  note_received xs (some v) = xs ++ v ∷ []

  unfoldable pub step : ℕ → Call A → Trace A → Trace A
  step capacity (send v) t =
      let r = try_send capacity v t.channel in
      record t { channel = r.0; accepted = note_sent v t.accepted r.1 }
  step capacity receive t =
      let r = try_recv capacity t.channel in
      record t { channel = r.0; received = note_received t.received r.1 }
  step capacity shut t = record t { channel = close t.channel }

  unfoldable pub run : ℕ → List (Call A) → Trace A → Trace A
  run capacity [] t = t
  run capacity (call ∷ calls) t = run capacity calls (step capacity call t)

  abbrev pub started : ℕ → MpscChannel A → Trace A
  started capacity c = record { channel = init capacity c; accepted = []; received = [] }

  -- The values in the ring, and that nothing is lost, repeated or reordered.
  pub record Flow (capacity : ℕ) (t : Trace A) : Type 0 where
    pub waiting : List A
    pub ring : Ring capacity (length t.received) (map published waiting) t.channel
    pub order : t.accepted ≡ t.received ++ waiting

  map-snoc :
      (xs : List A) (v : A) → map published (xs ++ v ∷ []) ≡ map published xs ++ published v ∷ []
  map-snoc [] v = refl
  map-snoc (x ∷ xs) v = ap (λ l. published x ∷ l) (map-snoc xs v)

  length-snoc : (xs : List A) (v : A) → length (xs ++ v ∷ []) ≡ suc (length xs)
  length-snoc [] v = refl
  length-snoc (x ∷ xs) v = ap suc (length-snoc xs v)

  length-map_published : (xs : List A) → length (map published xs) ≡ length xs
  length-map_published [] = refl
  length-map_published (x ∷ xs) = ap suc (length-map_published xs)

  close-Ring :
      {capacity start : ℕ} (cells : List (Cell A)) (c : MpscChannel A)
      → Ring capacity start cells c
      → Ring capacity start cells (close c)
  unfolding close
  close-Ring cells c r = record { head = r.head; tail = r.tail; fits = r.fits; slots = r.slots }

  module _ {capacity : ℕ} (fit : Capacity capacity) where
    -- `init` makes an empty ring of whatever the memory held.
    pub init-Ring : (c : MpscChannel A) → Ring capacity 0 [] (init capacity c)
    unfolding init
    init-Ring c = record {
      head = refl;
      tail = refl;
      fits = omega arith;
      slots = λ j hj.
          let at_j : (0 + j) % capacity ≡ j = rw (zero-add j) (mod-eq_of_lt hj) in
          rw (at_j, outside capacity j hj) (omega (arith, hj, fit.small));
    }

    receive-Flow :
        (t : Trace A) (waiting : List A)
        → Ring capacity (length t.received) (map published waiting) t.channel
        → t.accepted ≡ t.received ++ waiting
        → Flow capacity (step capacity receive t)
    unfolding step
    receive-Flow t [] r order =
        rw (recv_refines fit [] t.channel r) (record { waiting = []; ring = r; order = order })
    receive-Flow t (v ∷ waiting) r order =
        let (c', e, r') = recv_refines fit (published v ∷ map published waiting) t.channel r in
        rw e (record {
          waiting = waiting;
          ring = rw (length-snoc t.received v) r';
          order = order ∙ sym (append_assoc t.received (v ∷ []) waiting);
        })

    send-Flow : (v : A) (t : Trace A) → Flow capacity t → Flow capacity (step capacity (send v) t)
    unfolding step
    send-Flow v t f = elim (try_send_alone fit (map published f.waiting) t.channel v f.ring) [
      | inl (_, e) ↦ rw e (record { waiting = f.waiting; ring = f.ring; order = f.order })
      | inr (inl (_, _, e)) ↦ rw e (record { waiting = f.waiting; ring = f.ring; order = f.order })
      | inr (inr (_, _, c', e, r, _)) ↦ rw e (record {
        waiting = f.waiting ++ v ∷ [];
        ring = rw (map-snoc f.waiting v) r;
        order = ap (λ l. l ++ v ∷ []) f.order ∙ append_assoc t.received f.waiting (v ∷ []);
      })
    ]

    step-Flow :
        (call : Call A) (t : Trace A) → Flow capacity t → Flow capacity (step capacity call t)
    unfolding step
    step-Flow (send v) t f = send-Flow v t f
    step-Flow receive t f = receive-Flow t f.waiting f.ring f.order
    step-Flow shut t f = record {
      waiting = f.waiting;
      ring = close-Ring (map published f.waiting) t.channel f.ring;
      order = f.order;
    }

    run-Flow :
        (calls : List (Call A)) (t : Trace A)
        → Flow capacity t
        → Flow capacity (run capacity calls t)
    unfolding run
    run-Flow [] t f = f
    run-Flow (call ∷ calls) t f = run-Flow calls (step capacity call t) (step-Flow call t f)

    -- After `init` and any schedule of sends, receives and closes of any length, the values that
    -- `try_send` accepted are, in order, those that `try_recv` returned and then those that wait in
    -- the ring, at most `capacity`: none is lost, repeated or overtaken, however often the cursors
    -- have wrapped.
    pub fifo :
        (calls : List (Call A)) (c : MpscChannel A)
        → let t = run capacity calls (started capacity c) in
          (waiting : List A) × (t.accepted ≡ t.received ++ waiting)
          × (length waiting ≤ capacity)
          × Ring capacity (length t.received) (map published waiting) t.channel
    fifo calls c =
        let f =
          run-Flow calls (started capacity c)
            (record { waiting = []; ring = init-Ring c; order = refl }) in
        (f.waiting, f.order, omega (arith, f.ring.fits, length-map_published f.waiting), f.ring)
