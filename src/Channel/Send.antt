-- ===== src/Channel/Send.antt =====
-- Sending, in the two atomic steps that a producer makes, and as a whole.
use async_gpu.Prelude.{
  ℕ, ◌+◌, ◌-◌, ◌%◌, ◌^◌, ◌<◌, ◌≤◌, ◌≡◌, ◌≢◌, ◌∙◌, refl, sym, ap, ◌⊎◌, inl, inr, true, List, [], ◌∷◌,
  ◌++◌, none, some, length, get_elem?, set, length-append, length-set, arith, ℕ_discrete, eq→==,
  update_self, update_ne, wrapping_add, wrapping_sub, ne→==,
}
use async_gpu.Channel.{MpscSlot, MpscChannel, index, has_room, claim, publish}
use async_gpu.Channel.Entries.{
  get_elem?-snoc_ne, get_elem?-snoc_self, get_elem?-length, get_elem?-set_ne, get_elem?-set_self,
  get_elem?-some_lt,
}
use async_gpu.Channel.Ring.{Cell, claimed, published, Ring, Capacity, places_ne, wrapped_place}

-- Room by cursors of which the tail may be stale is room.
pub room :
    (capacity start n seen : ℕ)
    → seen ≤ start
    → start + n < seen + 2 ^ 32
    → has_room capacity ((start + n) % 2 ^ 32) (seen % 2 ^ 32) ≡ true
    → n < capacity
unfolding has_room
room capacity start n seen h k e =
    let w : wrapping_sub ((start + n) % 2 ^ 32) (seen % 2 ^ 32) ≡ start + n - seen = omega arith in
    ground (arith, w)

module _ {A : Type 0} where
  abbrev pub advanced : MpscChannel A → MpscChannel A
  advanced c = record c { head = wrapping_add c.head 1 }

module _ {A : Type 0} {capacity start : ℕ} where
  pub claimed-Ring :
      (cells : List (Cell A)) (c : MpscChannel A)
      → length cells < capacity
      → Ring capacity start cells c
      → Ring capacity start (cells ++ claimed ∷ []) (advanced c)
  claimed-Ring cells c lt r = record {
    head =
        ap (λ (h : ℕ). wrapping_add h 1) r.head ∙ omega (arith, length-append cells (claimed ∷ []));
    tail = r.tail;
    fits = omega (arith, length-append cells (claimed ∷ []));
    slots = λ j hj. elim (ℕ_discrete j (length cells)) [
      | yes e ↦
          rw (e, get_elem?-snoc_self cells claimed)
            (rw (get_elem?-length cells) at (rw e at (r.slots j hj)))
      | no ne ↦ rw (get_elem?-snoc_ne cells claimed j ne) (r.slots j hj)
    ];
  }

  -- In a ring whose next value is the `start`-th, a producer loaded `head`, and a tail of when only
  -- `seen` values had been received, and saw room. Its compare-and-swap fails exactly when `head` is
  -- no more the ring's; else it adds one claimed cell at the end, within the capacity.
  pub claim_refines :
      (cells : List (Cell A)) (c : MpscChannel A) (head seen : ℕ)
      → Ring capacity start cells c
      → seen ≤ start
      → start + length cells < seen + 2 ^ 32
      → has_room capacity head (seen % 2 ^ 32) ≡ true
      → ((c.head ≢ head) × (claim head c ≡ none))
        ⊎ ((c.head ≡ head)
            × (c' : MpscChannel A) × (claim head c ≡ some c')
            × Ring capacity start (cells ++ claimed ∷ []) c')
  unfolding claim
  claim_refines cells c head seen r h k roomy = elim (ℕ_discrete c.head head) [
    | no ne ↦ inl (ne, rw (ne→== c.head head ne))
    | yes e ↦ inr (
      e,
      advanced c,
      rw (eq→== c.head head e) (rw e refl),
      claimed-Ring cells c (room capacity start (length cells) seen h k (rw (sym r.head, e) roomy))
          r,
    )
  ]

  module _ (fit : Capacity capacity) where
    -- A producer that has claimed the `j`-th cell of the ring, and so holds the cursor `start + j`,
    -- publishes `v` in it: that cell then has `v`, and all the others are as they were.
    pub publish_refines :
        (cells : List (Cell A)) (c : MpscChannel A) (j : ℕ) (v : A)
        → Ring capacity start cells c
        → get_elem? cells j ≡ some claimed
        → Ring capacity start
            (set cells j (published v))
            (publish capacity ((start + j) % 2 ^ 32) v c)
    unfolding publish index
    publish_refines cells c j v r at_j =
        let lt = get_elem?-some_lt cells j at_j in
        let here = wrapped_place fit (start + j) in
        record {
          head = rw (length-set cells j (published v)) r.head;
          tail = r.tail;
          fits = rw (length-set cells j (published v)) r.fits;
          slots = λ i hi. elim (ℕ_discrete i j) [
            | yes e ↦
                rw (e, get_elem?-set_self cells j (published v) lt, here)
                  (
                    ap (λ (s : MpscSlot A). s.sequence)
                          (update_self c.slots ((start + j) % capacity) _)
                        ∙ omega arith,
                    ap (λ (s : MpscSlot A). s.value)
                        (update_self c.slots ((start + j) % capacity) _),
                  )
            | no ne ↦
                rw
                  (
                    get_elem?-set_ne cells j i (published v) ne,
                    here,
                    update_ne c.slots ((start + j) % capacity) ((start + i) % capacity)
                        (record { sequence = ((start + j) % 2 ^ 32 + 1) % 2 ^ 32; value = v })
                        (places_ne capacity start j i fit.positive (omega (arith, lt, r.fits)) hi
                          (λ e. ne (sym e))),
                  )
                  (r.slots i hi)
          ];
        }
