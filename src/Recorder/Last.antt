-- ===== src/Recorder/Last.antt =====
-- What the dump shows after a run of records, for Recorder.
use async_gpu.Prelude.{
  ℕ, zero, suc, ◌+◌, ◌-◌, ◌%◌, ◌^◌, ◌<◌, ◌≤◌, ◌≡◌, ◌∙◌, refl, sym, ap, ap₂, List, [], ◌∷◌, ◌++◌,
  Option, some, length, map, get_elem?, drop, length-append, append_assoc, append-nil, arith,
  ℕ_discrete, update, update_self, update_ne, ◌==◌, ne→==, Bool-cases, inl, inr,
}
use native.Mathlib.Nat.{add-zero}
use async_gpu.Channel.Ring.{places_ne}
use async_gpu.Channel.Entries.{get_elem?-snoc_ne, get_elem?-snoc_self, get_elem?-some_lt}
use async_gpu.Recorder.{FlightRecorder, Event, written, fr_record, entry, dump_loop, dump, reset}
use async_gpu.Recorder.Entry.{shown, entry-written}

-- A kernel's calls of `fr_record`, in the order of their `fetch_add`.
abbrev pub record_all : List Event → FlightRecorder → FlightRecorder
record_all [] r = r
record_all (e ∷ events) r = record_all events (fr_record e r)

-- Each slot has the last event whose turn it was.
record Recorded (events : List Event) (r : FlightRecorder) : Type 0 where
  positive : 0 < r.capacity
  counted : r.write_idx ≡ length events
  slots :
      (i : ℕ) (e : Event)
      → get_elem? events i ≡ some e
      → length events ≤ i + r.capacity
      → r.slots (i % r.capacity) ≡ written e

some_injective : (x y : Event) → ◌≡◌ {A = Option Event} (some x) (some y) → x ≡ y
some_injective x y e = cc

record-slots :
    (events : List Event) (e : Event) (r : FlightRecorder)
    → Recorded events r
    → (i : ℕ) (other : Event) → get_elem? (events ++ e ∷ []) i ≡ some other
    → suc (length events) ≤ i + r.capacity
    → update r.slots (length events % r.capacity) (written e) (i % r.capacity) ≡ written other
record-slots events e r p i other at_i near = elim (ℕ_discrete i (length events)) [
  | yes q ↦
      let last : e ≡ other =
        some_injective e other
          (sym (get_elem?-snoc_self events e) ∙ ap (get_elem? (events ++ e ∷ [])) (sym q) ∙ at_i) in
      rw q (update_self r.slots (length events % r.capacity) (written e) ∙ ap written last)
  | no ne ↦
      let before = sym (get_elem?-snoc_ne events e i ne) ∙ at_i in
      let inside = get_elem?-some_lt events i before in
      let n : i + (length events - i) ≡ length events = omega arith in
      let apart =
        rw (n, add-zero i) at
          (places_ne r.capacity i (length events - i) 0 p.positive (omega arith) p.positive
            (omega arith)) in
      update_ne r.slots (length events % r.capacity) (i % r.capacity) (written e) apart
      ∙ p.slots i other before (omega arith)
]

fr_record-Recorded :
    (events : List Event) (e : Event) (r : FlightRecorder)
    → suc (length events) < 2 ^ 64
    → Recorded events r
    → Recorded (events ++ e ∷ []) (fr_record e r)
unfolding fr_record
fr_record-Recorded events e r room p = rw (ne→== r.capacity 0 (omega (arith, p.positive))) (record {
  positive = p.positive;
  counted = omega (arith, p.counted, length-append events (e ∷ []));
  slots = λ i other at_i near.
      rw p.counted (
        record-slots events e r p i other at_i
          (omega (arith, near, length-append events (e ∷ []))));
})

record_all-Recorded :
    (before events : List Event) (r : FlightRecorder)
    → length before + length events < 2 ^ 64
    → Recorded before r
    → Recorded (before ++ events) (record_all events r)
record_all-Recorded before [] r room p = rw (append-nil before) p
record_all-Recorded before (e ∷ events) r room p = rw (sym (append_assoc before (e ∷ []) events)) (
    record_all-Recorded (before ++ e ∷ []) events (fr_record e r)
      (omega (arith, room, length-append before (e ∷ [])))
      (fr_record-Recorded before e r (omega arith) p))

drop-get :
    (xs : List Event) (i : ℕ)
    → i < length xs
    → (x : Event) × (get_elem? xs i ≡ some x) × (drop i xs ≡ x ∷ drop (suc i) xs)
drop-get [] i h = absurd (omega (arith, h))
drop-get (x ∷ xs) zero h = (x, refl, refl)
drop-get (x ∷ xs) (suc i) h = drop-get xs i (omega arith)

drop-all : (xs : List Event) (i : ℕ) → i ≡ length xs → drop i xs ≡ []
drop-all [] zero h = refl
drop-all [] (suc i) h = refl
drop-all (x ∷ xs) zero h = absurd (omega (arith, h))
drop-all (x ∷ xs) (suc i) h = drop-all xs i (omega (arith, h))

-- The type of `level`, a u8.
abbrev pub Levels : List Event → Type 0
Levels events = (i : ℕ) (e : Event) → get_elem? events i ≡ some e → e.level < 2 ^ 8

dump_loop-drop :
    (events : List Event) (r : FlightRecorder) (i left : ℕ)
    → Levels events
    → Recorded events r
    → i + left ≡ length events
    → length events ≤ i + r.capacity
    → dump_loop i left r ≡ map shown (drop i events)
unfolding dump_loop
dump_loop-drop events r i zero levels p all near =
    ap (map shown) (sym (drop-all events i (omega arith)))
dump_loop-drop events r i (suc left) levels p all near =
    let (e, at_i, rest) = drop-get events i (omega arith) in
    ap₂ ◌∷◌ (ap entry (p.slots i e at_i near) ∙ entry-written e (levels i e at_i))
      (dump_loop-drop events r (suc i) left levels p (omega arith) (omega arith))
    ∙ ap (map shown) (sym rest)

reset-Recorded : (r : FlightRecorder) → 0 < r.capacity → Recorded [] (reset r)
unfolding reset
reset-Recorded r pos = record { positive = pos; counted = refl; slots = λ i e at_i. absurd (cc) }

dump-Recorded :
    (events : List Event) (r : FlightRecorder)
    → Levels events
    → Recorded events r
    → dump r ≡ map shown (drop (length events - r.capacity) events)
unfolding dump
dump-Recorded events r levels p =
    dump_loop-drop events r (r.write_idx - r.capacity) (r.write_idx - (r.write_idx - r.capacity))
      levels p (omega (arith, p.counted)) (omega (arith, p.counted))
    ∙ ap (λ (w : ℕ). map shown (drop (w - r.capacity) events)) p.counted

capacity-fr_record : (e : Event) (r : FlightRecorder) → (fr_record e r).capacity ≡ r.capacity
unfolding fr_record
capacity-fr_record e r = elim (Bool-cases (r.capacity == 0)) [
  | inl z ↦ rw z refl
  | inr z ↦ rw z refl
]

capacity-record_all :
    (events : List Event) (r : FlightRecorder) → (record_all events r).capacity ≡ r.capacity
capacity-record_all [] r = refl
capacity-record_all (e ∷ events) r =
    capacity-record_all events (fr_record e r) ∙ capacity-fr_record e r

-- After a reset of any recorder with slots and fewer than 2⁶⁴ events recorded one after another,
-- with levels of a byte, the dump shows the last events, as many as there are slots, oldest first,
-- each with its fields cast to 16 bits and the first 48 bytes of its message.
pub dump-record_all :
    (events : List Event) (r : FlightRecorder)
    → 0 < r.capacity
    → length events < 2 ^ 64
    → Levels events
    → dump (record_all events (reset r)) ≡ map shown (drop (length events - r.capacity) events)
unfolding reset
dump-record_all events r pos room levels =
    let p = record_all-Recorded [] events (reset r) (omega arith) (reset-Recorded r pos) in
    dump-Recorded events (record_all events (reset r)) levels p
    ∙ ap (λ (c : ℕ). map shown (drop (length events - c) events))
        (capacity-record_all events (reset r))
