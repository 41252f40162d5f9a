-- ===== src/Channel/Oneshot.antt =====
-- The oneshot channel: a slot, a sender that is consumed by `send` or by its drop, and a receiver
-- that is polled.
use async_gpu.Prelude.{ℕ, ◌≡◌, refl, ◌==◌, if◌then◌else◌}
use async_gpu.Channel.{Poll, ready, pending}

abbrev oneshot_empty : ℕ
oneshot_empty = 0

abbrev oneshot_sent : ℕ
oneshot_sent = 1

abbrev oneshot_closed : ℕ
oneshot_closed = 2

pub record OneshotSlot (A : Type 0) : Type 0 where
  pub state : ℕ
  pub value : A

pub data OneshotResult (A : Type 0) : Type 0 where
  ok : A → OneshotResult A
  closed : OneshotResult A

-- How the one sender ended, if it has.
pub data Fate (A : Type 0) : Type 0 where
  waiting dropped : Fate A
  sent : A → Fate A

module _ {A : Type 0} where
  unfoldable pub oneshot : OneshotSlot A → OneshotSlot A
  oneshot s = record s { state = oneshot_empty }

  unfoldable pub send : A → OneshotSlot A → OneshotSlot A
  send v s = record s { value = v; state = oneshot_sent }

  unfoldable pub drop_sender : OneshotSlot A → OneshotSlot A
  drop_sender s = record s { state = oneshot_closed }

  unfoldable pub poll : OneshotSlot A → Poll (OneshotResult A)
  poll s =
      if s.state == oneshot_sent
      then ready (ok s.value)
      else if s.state == oneshot_closed
      then ready closed
      else pending

  abbrev pub ended : Fate A → OneshotSlot A → OneshotSlot A
  ended waiting s = s
  ended dropped s = drop_sender s
  ended (sent v) s = send v s

  abbrev pub answer : Fate A → Poll (OneshotResult A)
  answer waiting = pending
  answer dropped = ready closed
  answer (sent v) = ready (ok v)

  -- Whatever a slot held before, a oneshot made of it answers every poll by the fate of its sender:
  -- it waits while the sender is there, gives the value that was sent, and the error if the sender
  -- was dropped.
  pub poll_fate : (fate : Fate A) (s : OneshotSlot A) → poll (ended fate (oneshot s)) ≡ answer fate
  unfolding poll oneshot send drop_sender
  poll_fate waiting s = refl
  poll_fate dropped s = refl
  poll_fate (sent v) s = refl
