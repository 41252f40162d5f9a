-- ===== src/Tests/Records.antt =====
-- A recorder of two slots.
use async_gpu.Prelude.{ℕ, zero, suc, ◌-◌, ◌<◌, ◌≡◌, List, [], ◌∷◌, Option, some, map, drop, arith}
use async_gpu.Recorder.{Event, new, dump, reset}
use async_gpu.Recorder.Entry.{shown}
use async_gpu.Recorder.Last.{record_all, Levels, dump-record_all}

abbrev event : ℕ → Event
event n = record {
  thread_idx = 1;
  block_idx = 2;
  lane = 3;
  timestamp = n;
  level = 1;
  msg = 104 ∷ n ∷ [];
}

abbrev events : List Event
events = event 1 ∷ event 2 ∷ event 3 ∷ []

some_level : {a b : Event} → ◌≡◌ {A = Option Event} (some a) (some b) → a.level ≡ b.level
some_level e = cc

levels : Levels events
levels zero e h = omega (arith, some_level h)
levels (suc zero) e h = omega (arith, some_level h)
levels (suc (suc zero)) e h = omega (arith, some_level h)
levels (suc (suc (suc i))) e h = absurd (cc)

slots : 0 < (new 2).capacity
unfolding new
slots = omega arith

dump-record_all_example :
    dump (record_all events (reset (new 2))) ≡ map shown (drop (3 - (new 2).capacity) events)
dump-record_all_example = dump-record_all events (new 2) slots (omega arith) levels
