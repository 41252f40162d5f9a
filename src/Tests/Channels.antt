-- ===== src/Tests/Channels.antt =====
-- A ring of four slots.
use native.Mathlib.Nat.{dvd_of_mod-eq-zero}
use async_gpu.Prelude.{
  ℕ, ◌+◌, ◌%◌, ◌^◌, ◌<◌, ◌≤◌, ◌≡◌, ◌≢◌, ◌⊎◌, refl, true, false, [], ◌∷◌, ◌++◌, none, List, length,
  map, arith,
}
use async_gpu.Channel.{
  MpscChannel, closed, full, ok, err, publish, is_closed, wake_consumer, try_send_among, init,
  has_room,
}
use async_gpu.Channel.Ring.{claimed, published, Ring, Capacity}
use async_gpu.Channel.Send.{advanced, claimed-Ring, publish_refines}
use async_gpu.Channel.TrySend.{try_send_refines}
use async_gpu.Channel.Fifo.{Call, send, receive, shut, run, started, init-Ring, fifo}

abbrev four : Capacity 4
four = record { positive = omega arith; small = omega arith; whole = dvd_of_mod-eq-zero 4 refl }

-- Memory before `init`.
abbrev memory : MpscChannel ℕ
memory = record {
  head = 17;
  tail = 3;
  closed = 9;
  waker_set = 9;
  waker_bytes = 0;
  slots = λ _. record { sequence = 0; value = 0 };
}

abbrev calls : List (Call ℕ)
calls = send 5 ∷ send 6 ∷ receive ∷ send 7 ∷ shut ∷ send 8 ∷ receive ∷ []

fifo_example :
    let t = run 4 calls (started 4 memory) in
    (waiting : List ℕ) × (t.accepted ≡ t.received ++ waiting)
    × (length waiting ≤ 4)
    × Ring 4 (length t.received) (map published waiting) t.channel
fifo_example = fifo four calls memory

abbrev empty : MpscChannel ℕ
empty = init 4 memory

empty-Ring : Ring 4 0 [] empty
empty-Ring = init-Ring four memory

room : has_room 4 0 (0 % 2 ^ 32) ≡ true
unfolding has_room
room = refl

-- One producer has claimed, and not published.
abbrev one_claimed : MpscChannel ℕ
one_claimed = advanced empty

one_claimed-Ring : Ring 4 0 (claimed ∷ []) one_claimed
one_claimed-Ring = claimed-Ring [] empty (omega arith) empty-Ring

abbrev one_published : MpscChannel ℕ
one_published = publish 4 ((0 + 0) % 2 ^ 32) 5 one_claimed

one_published-Ring : Ring 4 0 (published 5 ∷ []) one_published
one_published-Ring = publish_refines four (claimed ∷ []) one_claimed 0 5 one_claimed-Ring refl

-- Another producer claims a cell in between.
try_send_refines_example :
    ((is_closed empty ≡ true) × (try_send_among 4 advanced 5 empty ≡ (empty, err (closed 5), none)))
    ⊎ ((is_closed empty ≡ false)
        × (◌≡◌ {A = ℕ} 0 4)
        × (try_send_among 4 advanced 5 empty ≡ (empty, err (full 5), none)))
    ⊎ ((is_closed empty ≡ false)
        × (0 < 4)
        × (one_claimed.head ≢ empty.head)
        × (try_send_among 4 advanced 5 empty ≡ (one_claimed, err (full 5), none)))
    ⊎ ((is_closed empty ≡ false)
        × (0 < 4)
        × (one_claimed.head ≡ empty.head)
        × (c' : MpscChannel ℕ) × (try_send_among 4 advanced 5 empty
            ≡ (c', ok, (wake_consumer one_claimed).1))
        × Ring 4 0 (claimed ∷ published 5 ∷ []) c'
        × (c'.waker_set ≡ 0))
try_send_refines_example =
    try_send_refines four 0 0 [] (claimed ∷ []) advanced empty 5 empty-Ring one_claimed-Ring
      (omega arith) (omega arith)

open_still : is_closed empty ≡ false
unfolding is_closed init
open_still = refl
