-- ===== src/Channel/TrySend.antt =====
-- A whole `try_send`, on each of its branches.
use async_gpu.Prelude.{
  ℕ, ◌+◌, ◌%◌, ◌^◌, ◌<◌, ◌≡◌, refl, sym, ◌⊎◌, inl, inr, true, false, List, [], ◌∷◌, ◌++◌, none,
  length, arith, dec_lt, not, eq→==, ==_iff, ◌==◌, Bool-cases, ◌≢◌, ◌≤◌, ne→==, ℕ_discrete, subst,
  wrapping_sub,
}
use async_gpu.Channel.{
  MpscChannel, closed, full, ok, err, has_room, claim, publish, is_closed, wake_consumer, complete,
  try_send, try_send_among,
}
use async_gpu.Channel.Entries.{get_elem?-snoc_self, set-snoc}
use async_gpu.Channel.Ring.{Cell, claimed, published, Ring, Capacity}
use async_gpu.Channel.Send.{advanced, room, claimed-Ring, publish_refines}

-- The test for room, with the cursors as they are.
has_room-true :
    (capacity start n : ℕ)
    → capacity < 2 ^ 32
    → n < capacity
    → has_room capacity ((start + n) % 2 ^ 32) (start % 2 ^ 32) ≡ true
unfolding has_room
has_room-true capacity start n small lt =
    let w : wrapping_sub ((start + n) % 2 ^ 32) (start % 2 ^ 32) ≡ n = omega arith in
    ground (arith, w)

has_room-false :
    (capacity start n : ℕ)
    → capacity < 2 ^ 32
    → n ≡ capacity
    → has_room capacity ((start + n) % 2 ^ 32) (start % 2 ^ 32) ≡ false
unfolding has_room
has_room-false capacity start n small eq =
    let w : wrapping_sub ((start + n) % 2 ^ 32) (start % 2 ^ 32) ≡ n = omega arith in
    ground (arith, w)

module _ {A : Type 0} where
  wake_consumer-clear : (c : MpscChannel A) → ((wake_consumer c).0).waker_set ≡ 0
  unfolding wake_consumer
  wake_consumer-clear c = elim (Bool-cases (c.waker_set == 0)) [
    | inl e ↦ rw e ((==_iff c.waker_set 0).0 e)
    | inr e ↦ rw e refl
  ]

  -- The ring after the claim and the publication.
  abbrev sent : ℕ → A → MpscChannel A → MpscChannel A
  sent capacity v c = publish capacity c.head v (advanced c)

  woken-sent :
      (capacity : ℕ) (v : A) (c : MpscChannel A)
      → (wake_consumer (sent capacity v c)).1 ≡ (wake_consumer c).1
  unfolding wake_consumer publish
  woken-sent capacity v c = elim (Bool-cases (c.waker_set == 0)) [
    | inl e ↦ rw e refl
    | inr e ↦ rw e refl
  ]

  complete-won :
      (capacity : ℕ) (v : A) (c : MpscChannel A)
      → complete capacity c.head v c (claim c.head c)
        ≡ ((wake_consumer (sent capacity v c)).0, ok, (wake_consumer c).1)
  unfolding complete claim
  complete-won capacity v c = rw (eq→== c.head c.head refl, woken-sent capacity v c) refl

  try_send-open :
      (capacity : ℕ) (others : MpscChannel A → MpscChannel A) (v : A) (c : MpscChannel A)
      → is_closed c ≡ false
      → has_room capacity c.head c.tail ≡ true
      → (others c).head ≡ c.head
      → try_send_among capacity others v c
        ≡ ((wake_consumer (sent capacity v (others c))).0, ok, (wake_consumer (others c)).1)
  unfolding try_send_among complete claim
  try_send-open capacity others v c e h same =
      rw (e, h)
        (subst
          (λ n.
            complete capacity n v (others c) (claim n (others c))
            ≡ ((wake_consumer (sent capacity v (others c))).0, ok, (wake_consumer (others c)).1))
          same (complete-won capacity v (others c)))

  try_send_lost :
      (capacity : ℕ) (others : MpscChannel A → MpscChannel A) (v : A) (c : MpscChannel A)
      → is_closed c ≡ false
      → has_room capacity c.head c.tail ≡ true
      → (others c).head ≢ c.head
      → try_send_among capacity others v c ≡ (others c, err (full v), none)
  unfolding try_send_among complete claim
  try_send_lost capacity others v c e h moved = rw (e, h, ne→== (others c).head c.head moved) refl

module _ {A : Type 0} {capacity start : ℕ} where
  wake_consumer-Ring :
      (cells : List (Cell A)) (c : MpscChannel A)
      → Ring capacity start cells c
      → Ring capacity start cells (wake_consumer c).0
  unfolding wake_consumer
  wake_consumer-Ring cells c r = elim (Bool-cases (not (c.waker_set == 0))) [
    | inl e ↦ rw e (record { head = r.head; tail = r.tail; fits = r.fits; slots = r.slots })
    | inr e ↦ rw e r
  ]

  module _ (fit : Capacity capacity) where
    sent-Ring :
        (cells : List (Cell A)) (c : MpscChannel A) (v : A)
        → length cells < capacity
        → Ring capacity start cells c
        → Ring capacity start (cells ++ published v ∷ []) (sent capacity v c)
    sent-Ring cells c v lt r = rw (sym (set-snoc cells claimed (published v))) (
        rw (sym r.head) at (
          publish_refines fit (cells ++ claimed ∷ []) (advanced c) (length cells) v
            (claimed-Ring cells c lt r) (get_elem?-snoc_self cells claimed)))

module _ {A : Type 0} {capacity : ℕ} (fit : Capacity capacity) where
  -- `try_send` of `v` to a ring, where other threads act between its loads and its compare-and-swap
  -- and leave a ring, and claim fewer than 2^32 cells. If the channel was closed or the ring full when
  -- it looked, the error says which, gives `v` back, and nothing changes and nobody is woken. Else, if
  -- another producer has claimed a cell meanwhile, it fails as for a full ring, gives `v` back and
  -- leaves the channel as the others left it. Else it succeeds, `v` is a published cell at the end of
  -- the ring that the others left, and a stored waker is called and no more stored.
  pub try_send_refines :
      (start start' : ℕ) (cells cells' : List (Cell A)) (others : MpscChannel A → MpscChannel A)
      (c : MpscChannel A) (v : A)
      → Ring capacity start cells c
      → Ring capacity start' cells' (others c)
      → start ≤ start'
      → start' + length cells' < start + 2 ^ 32
      → ((is_closed c ≡ true) × (try_send_among capacity others v c ≡ (c, err (closed v), none)))
        ⊎ ((is_closed c ≡ false)
            × (length cells ≡ capacity)
            × (try_send_among capacity others v c ≡ (c, err (full v), none)))
        ⊎ ((is_closed c ≡ false)
            × (length cells < capacity)
            × ((others c).head ≢ c.head)
            × (try_send_among capacity others v c ≡ (others c, err (full v), none)))
        ⊎ ((is_closed c ≡ false)
            × (length cells < capacity)
            × ((others c).head ≡ c.head)
            × (c' : MpscChannel A) × (try_send_among capacity others v c
                ≡ (c', ok, (wake_consumer (others c)).1))
            × Ring capacity start' (cells' ++ published v ∷ []) c'
            × (c'.waker_set ≡ 0))
  unfolding try_send_among complete claim
  try_send_refines start start' cells cells' others c v r r' le few =
      elim (Bool-cases (is_closed c)) [
        | inl e ↦ inl (e, rw e refl)
        | inr e ↦ elim (dec_lt (length cells) capacity) [
          | no p ↦
              let eq : length cells ≡ capacity = omega (arith, r.fits) in
              inr (
                inl (
                  e,
                  eq,
                  rw (e, r.head, r.tail, has_room-false capacity start (length cells) fit.small eq)
                      refl,
                ))
          | yes p ↦
              let roomy : has_room capacity c.head c.tail ≡ true =
                rw (r.head, r.tail) (has_room-true capacity start (length cells) fit.small p) in
              elim (ℕ_discrete (others c).head c.head) [
                | no moved ↦
                    inr (inr (inl (e, p, moved, try_send_lost capacity others v c e roomy moved)))
                | yes same ↦
                    let sent_there = sent capacity v (others c) in
                    let fits =
                      room capacity start' (length cells') start le few
                        (rw (sym r'.head, same, sym r.tail) roomy) in
                    inr (
                      inr (
                        inr (
                          e,
                          p,
                          same,
                          (wake_consumer sent_there).0,
                          try_send-open capacity others v c e roomy same,
                          wake_consumer-Ring _ sent_there
                              (sent-Ring fit cells' (others c) v fits r'),
                          wake_consumer-clear sent_there,
                        )))
              ]
        ]
      ]

  -- The same with no other producer in between.
  pub try_send_alone :
      {start : ℕ} (cells : List (Cell A)) (c : MpscChannel A) (v : A)
      → Ring capacity start cells c
      → ((is_closed c ≡ true) × (try_send capacity v c ≡ (c, err (closed v), none)))
        ⊎ ((is_closed c ≡ false)
            × (length cells ≡ capacity)
            × (try_send capacity v c ≡ (c, err (full v), none)))
        ⊎ ((is_closed c ≡ false)
            × (length cells < capacity)
            × (c' : MpscChannel A) × (try_send capacity v c ≡ (c', ok, (wake_consumer c).1))
            × Ring capacity start (cells ++ published v ∷ []) c'
            × (c'.waker_set ≡ 0))
  unfolding try_send
  try_send_alone {start = start} cells c v r =
      elim (try_send_refines start start cells cells (λ c. c) c v r r (omega arith)
        (omega (arith, r.fits, fit.small))) [
          | inl a ↦ inl a
          | inr (inl a) ↦ inr (inl a)
          | inr (inr (inl (e, p, moved, q))) ↦ absurd (moved refl)
          | inr (inr (inr (e, p, same, c', q, r', w))) ↦ inr (inr (e, p, c', q, r', w))
        ]
