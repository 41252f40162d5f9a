-- ===== src/Channel.antt =====
-- crates/core/gpu-runtime/src/channel.rs: the oneshot slot, and the ring that many producers share
-- with one consumer. Cursors and sequence numbers are u32 and wrap.
pub mod Entries
pub mod Oneshot
pub mod Ring
pub mod Send
pub mod TrySend
pub mod Receive
pub mod Fifo
pub mod Polls
use async_gpu.Prelude.{
  ℕ, ◌+◌, ◌%◌, Bool, true, false, ◌==◌, leb, if◌then◌else◌, ◌&&◌, not, Option, none, some, update,
  wrapping_add, wrapping_sub,
}

-- The value is what the slot's memory holds, whether or not it was written.
pub record MpscSlot (A : Type 0) : Type 0 where
  pub sequence : ℕ
  pub value : A

-- The stored waker is the bytes that `store_waker` copied; a woken task is counted by its waker.
pub record MpscChannel (A : Type 0) : Type 0 where
  pub head : ℕ
  pub tail : ℕ
  pub closed : ℕ
  pub waker_set : ℕ
  pub waker_bytes : ℕ
  pub slots : ℕ → MpscSlot A

pub data MpscSendError (A : Type 0) : Type 0 where
  closed full : A → MpscSendError A

-- `Result<(), MpscSendError<T>>`
pub data Sent (A : Type 0) : Type 0 where
  ok : Sent A
  err : MpscSendError A → Sent A

pub data Poll (B : Type 0) : Type 0 where
  ready : B → Poll B
  pending : Poll B

abbrev pub mpsc_default_capacity : ℕ
mpsc_default_capacity = 64

-- `cursor & (N - 1)`, which is the remainder, as N is a power of two.
unfoldable pub index : ℕ → ℕ → ℕ
index capacity cursor = cursor % capacity

-- `try_send` up to the compare-and-swap: what the two cursors that were loaded say.
unfoldable pub has_room : ℕ → ℕ → ℕ → Bool
has_room capacity head tail = not (leb capacity (wrapping_sub head tail))

module _ {A : Type 0} where
  unfoldable pub close : MpscChannel A → MpscChannel A
  close c = record c { closed = 1 }

  unfoldable pub is_closed : MpscChannel A → Bool
  is_closed c = not (c.closed == 0)

  -- The waker is consumed: the channel after, and the waker that was called.
  unfoldable pub wake_consumer : MpscChannel A → MpscChannel A × Option ℕ
  wake_consumer c =
      if not (c.waker_set == 0) then (record c { waker_set = 0 }, some c.waker_bytes) else (c, none)

  unfoldable pub store_waker : ℕ → MpscChannel A → MpscChannel A
  store_waker waker c = record c { waker_bytes = waker; waker_set = 1 }

  -- The compare-and-swap on `head`, `none` if another producer was faster.
  unfoldable pub claim : ℕ → MpscChannel A → Option (MpscChannel A)
  claim head c = if c.head == head then some (record c { head = wrapping_add head 1 }) else none

  unfoldable pub is_terminated : MpscChannel A → Bool
  unfolding is_closed
  is_terminated c = is_closed c && (c.head == c.tail)

  abbrev received_again : MpscChannel A × Option A → MpscChannel A × Poll (Option A)
  received_again (c, some v) = (c, ready (some v))
  received_again (c, none) = (c, pending)

  module _ (capacity : ℕ) where
    -- Each slot's sequence is its index.
    unfoldable pub init : MpscChannel A → MpscChannel A
    init c = record c {
      head = 0;
      tail = 0;
      closed = 0;
      waker_set = 0;
      slots = λ i. if leb capacity i then c.slots i else record (c.slots i) { sequence = i };
    }

    -- `try_send` after the compare-and-swap, up to the call of `wake_consumer`.
    unfoldable pub publish : ℕ → A → MpscChannel A → MpscChannel A
    unfolding index
    publish head v c = record c {
      slots =
          update c.slots (index capacity head)
            (record { sequence = wrapping_add head 1; value = v });
    }

    -- What a successful claim goes on to do.
    unfoldable pub complete :
        ℕ → A → MpscChannel A → Option (MpscChannel A) → MpscChannel A × Sent A × Option ℕ
    unfolding publish wake_consumer
    complete head v c none = (c, err (full v), none)
    complete head v c (some c') =
        let (w, woken) = wake_consumer (publish head v c') in (w, ok, woken)

    -- A whole `try_send`: `others` is what other threads do between its loads of the cursors and
    -- its compare-and-swap; none of them comes between that and the publication. The last part of
    -- the result is the waker called.
    unfoldable pub try_send_among :
        (MpscChannel A → MpscChannel A) → A → MpscChannel A → MpscChannel A × Sent A × Option ℕ
    unfolding is_closed has_room claim complete
    try_send_among others v c =
        let c' = others c in
        if is_closed c
        then (c, err (closed v), none)
        else if has_room capacity c.head c.tail
        then complete c.head v c' (claim c.head c')
        else (c, err (full v), none)

    -- With no other thread in between.
    unfoldable pub try_send : A → MpscChannel A → MpscChannel A × Sent A × Option ℕ
    unfolding try_send_among
    try_send = try_send_among (λ c. c)

    unfoldable pub try_recv : MpscChannel A → MpscChannel A × Option A
    unfolding index
    try_recv c =
        let slot = c.slots (index capacity c.tail) in
        if slot.sequence == wrapping_add c.tail 1
        then (
          record c {
            slots =
                update c.slots (index capacity c.tail)
                  (record slot { sequence = wrapping_add c.tail capacity });
            tail = wrapping_add c.tail 1;
          },
          some slot.value,
        )
        else (c, none)

    -- The rest of `poll` after a first `try_recv`.
    unfoldable pub poll_after : ℕ → MpscChannel A × Option A → MpscChannel A × Poll (Option A)
    unfolding is_terminated store_waker try_recv
    poll_after waker (c, some v) = (c, ready (some v))
    poll_after waker (c, none) =
        if is_terminated c then (c, ready none) else received_again (try_recv (store_waker waker c))

    -- `MpscRecvFuture::poll` with no step of a producer in between.
    unfoldable pub poll : ℕ → MpscChannel A → MpscChannel A × Poll (Option A)
    unfolding poll_after try_recv
    poll waker c = poll_after waker (try_recv c)
