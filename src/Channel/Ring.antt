-- ===== src/Channel/Ring.antt =====
-- What the ring stands for: the cells that producers have claimed, oldest first, some already with
-- their values. `start` counts all the values ever received, so it does not wrap.
use Prim.Native.Nat.{◌∣◌}
use native.Mathlib.Nat.{mod-add-mod, mod-eq_of_lt, mod-eq-sub-mod, mod-lt, mod-mod_of_dvd}
use async_gpu.Prelude.{
  ℕ, ◌+◌, ◌-◌, ◌%◌, ◌^◌, ◌<◌, ◌≤◌, ◌≡◌, ◌≢◌, ◌∙◌, sym, ◌⊎◌, inl, inr, List, Option, none, some,
  length, get_elem?, arith, dec_lt,
}
use async_gpu.Channel.{MpscSlot, MpscChannel}

pub data Cell (A : Type 0) : Type 0 where
  claimed : Cell A
  published : A → Cell A

-- The slot at a place of the ring, by the cell that the place has.
abbrev pub SlotHolds : {A : Type 0} → Option (Cell A) → ℕ → MpscSlot A → Type 0
SlotHolds none place s = s.sequence ≡ place % 2 ^ 32
SlotHolds (some claimed) place s = s.sequence ≡ place % 2 ^ 32
SlotHolds (some (published v)) place s = (s.sequence ≡ (place + 1) % 2 ^ 32) × (s.value ≡ v)

pub record Ring {A : Type 0} (capacity start : ℕ) (cells : List (Cell A)) (c : MpscChannel A)
    : Type 0 where
  pub head : c.head ≡ (start + length cells) % 2 ^ 32
  pub tail : c.tail ≡ start % 2 ^ 32
  pub fits : length cells ≤ capacity
  pub slots :
      (j : ℕ)
      → j < capacity
      → SlotHolds (get_elem? cells j) (start + j) (c.slots ((start + j) % capacity))

-- A capacity that divides the range of the cursors, as a power of two does.
pub record Capacity (capacity : ℕ) : Type 0 where
  pub positive : 0 < capacity
  pub small : capacity < 2 ^ 32
  pub whole : capacity ∣ 2 ^ 32

wrapped :
    (n r i : ℕ)
    → r < n
    → i < n
    → (((r + i) % n ≡ r + i) × (r + i < n)) ⊎ (((r + i) % n ≡ r + i - n) × (n ≤ r + i))
wrapped n r i hr hi = elim (dec_lt (r + i) n) [
  | yes p ↦ inl (mod-eq_of_lt p, p)
  | no p ↦
      let far : n ≤ r + i = omega arith in
      inr (mod-eq-sub-mod far ∙ mod-eq_of_lt (omega arith), far)
]

-- Two places less than one round apart are two slots.
pub places_ne : (n t i j : ℕ) → 0 < n → i < n → j < n → i ≢ j → (t + i) % n ≢ (t + j) % n
places_ne n t i j pos hi hj ne e =
    let r = mod-lt t pos in
    let e' = mod-add-mod t n i ∙ e ∙ sym (mod-add-mod t n j) in
    elim (wrapped n (t % n) i r hi) [
      | inl a ↦ elim (wrapped n (t % n) j r hj) [ inl b ↦ ne (omega arith) | inr b ↦ omega arith ]
      | inr a ↦ elim (wrapped n (t % n) j r hj) [ inl b ↦ omega arith | inr b ↦ ne (omega arith) ]
    ]

-- The slot of a cursor is that of the count which it wraps.
pub wrapped_place : {n : ℕ} (k : Capacity n) (x : ℕ) → x % 2 ^ 32 % n ≡ x % n
wrapped_place {n} k x = mod-mod_of_dvd n x k.whole
