-- ===== src/Channel/Polls.antt =====
-- The receiver's future, and a consumer that is parked.
use async_gpu.Prelude.{
  ℕ, suc, ◌≡◌, ◌≢◌, ◌∙◌, refl, inl, inr, false, List, [], ◌∷◌, none, some, arith, if◌then◌else◌,
  eq→==, ne→==, Bool-cases,
}
use async_gpu.Channel.{
  MpscChannel, closed, err, ready, pending, is_closed, is_terminated, store_waker, try_send, poll,
  poll_after, close,
}
use async_gpu.Channel.Ring.{Cell, claimed, published, Ring, Capacity}
use async_gpu.Channel.Receive.{recv_refines}

module _ {A : Type 0} where
  store_waker-Ring :
      {capacity start : ℕ} (waker : ℕ) (cells : List (Cell A)) (c : MpscChannel A)
      → Ring capacity start cells c
      → Ring capacity start cells (store_waker waker c)
  unfolding store_waker
  store_waker-Ring waker cells c r = record {
    head = r.head;
    tail = r.tail;
    fits = r.fits;
    slots = r.slots;
  }

  -- What `poll` answers, by the cells of the ring and whether the channel is closed.
  abbrev pub Polled : ℕ → ℕ → ℕ → List (Cell A) → MpscChannel A → Type 0
  Polled capacity start waker [] c =
      poll capacity waker c
      ≡ (if is_closed c then (c, ready none) else (store_waker waker c, pending))
  Polled capacity start waker (claimed ∷ cells) c =
      poll capacity waker c ≡ (store_waker waker c, pending)
  Polled capacity start waker (published v ∷ cells) c =
      (c' : MpscChannel A) × (poll capacity waker c ≡ (c', ready (some v)))
      × Ring capacity (suc start) cells c'

  module _ {capacity start : ℕ} (fit : Capacity capacity) where
    empty-is_terminated :
        (c : MpscChannel A) → Ring capacity start [] c → is_terminated c ≡ is_closed c
    unfolding is_terminated
    empty-is_terminated c r =
        let e : c.head ≡ c.tail = omega (arith, r.head, r.tail) in
        elim (Bool-cases (is_closed c)) [
          | inl h ↦ rw (h, eq→== c.head c.tail e) refl
          | inr h ↦ rw h refl
        ]

    nonempty-is_terminated :
        (x : Cell A) (cells : List (Cell A)) (c : MpscChannel A)
        → Ring capacity start (x ∷ cells) c
        → is_terminated c ≡ false
    unfolding is_terminated
    nonempty-is_terminated x cells c r =
        let ne : c.head ≢ c.tail = omega (arith, r.head, r.tail, r.fits, fit.small) in
        elim (Bool-cases (is_closed c)) [
          | inl h ↦ rw (h, ne→== c.head c.tail ne) refl
          | inr h ↦ rw h refl
        ]

    -- `poll` of the receiver's future, with no producer in between: the oldest value if it is
    -- published; else, if the ring is empty and the channel closed, the end; else it waits with its
    -- waker stored, also where the oldest cell is only claimed, closed or not.
    pub poll_refines :
        (waker : ℕ) (cells : List (Cell A)) (c : MpscChannel A)
        → Ring capacity start cells c
        → Polled capacity start waker cells c
    unfolding poll poll_after
    poll_refines waker [] c r = elim (Bool-cases (is_closed c)) [
      | inl h ↦ rw (recv_refines fit [] c r, empty-is_terminated c r, h) refl
      | inr h ↦
          rw
            (
              recv_refines fit [] c r,
              empty-is_terminated c r,
              h,
              recv_refines fit [] (store_waker waker c) (store_waker-Ring waker [] c r),
            )
            refl
    ]
    poll_refines waker (claimed ∷ cells) c r =
        rw
          (
            recv_refines fit (claimed ∷ cells) c r,
            nonempty-is_terminated claimed cells c r,
            recv_refines fit (claimed ∷ cells) (store_waker waker c)
                (store_waker-Ring waker (claimed ∷ cells) c r),
          )
          refl
    poll_refines waker (published v ∷ cells) c r =
        let (c', e, r') = recv_refines fit (published v ∷ cells) c r in (c', rw e refl, r')

    -- A consumer that is parked on an empty ring before the channel closes stays parked: `poll` has
    -- stored its waker, after `close` the waker is stored still and no `try_send` will call it, as
    -- each fails without a change, although another `poll` would return the end at once.
    pub close_leaves_parked :
        (waker : ℕ) (c : MpscChannel A)
        → Ring capacity start [] c
        → is_closed c ≡ false
        → (c' : MpscChannel A) × (poll capacity waker c ≡ (c', pending))
          × ((close c').waker_set ≡ 1)
          × ((v : A) → try_send capacity v (close c') ≡ (close c', err (closed v), none))
          × (poll capacity waker (close c') ≡ (close c', ready none))
    unfolding store_waker close is_closed try_send
    close_leaves_parked waker c r open_still = (
      store_waker waker c,
      poll_refines waker [] c r ∙ rw open_still refl,
      refl,
      λ v. refl,
      poll_refines waker [] (close (store_waker waker c))
          (record { head = r.head; tail = r.tail; fits = r.fits; slots = r.slots }),
    )
