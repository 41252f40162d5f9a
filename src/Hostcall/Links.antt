-- ===== src/Hostcall/Links.antt =====
-- The loop of `init` and `reinit_packets` over the packets of one free stack.
use async_gpu.Prelude.{
  ℕ, zero, suc, ◌+◌, ◌≤◌, ◌<◌, ◌≡◌, refl, sym, ◌∙◌, ap, ◌⊎◌, inl, inr, true, false, ltb,
  if◌then◌else◌, update_self, update_ne, range_from, arith, Bool-cases, u16, lt→ltb, le→ltb, tests,
  ℕ_discrete,
}
use async_gpu.Protocol.Tagged.{
  null_index, tagged_index, make_tagged, null_tagged, tagged_index-make_tagged,
  tagged_index-null_tagged,
}
use async_gpu.Hostcall.Buffer.{Packet}
use async_gpu.Hostcall.Chain.{Chain}
use async_gpu.Hostcall.Init.{link_packets}

-- The link of the `i`-th of `count` packets from `base` on.
abbrev pub link : ℕ → ℕ → ℕ → ℕ
link base count i = if ltb (i + 1) count then make_tagged 0 (u16 (base + i + 1)) else null_tagged

pub link_packets-out :
    (base count i left : ℕ) (packets : ℕ → Packet) (j : ℕ)
    → base + i + left ≤ null_index
    → (j < base + i) ⊎ (base + i + left ≤ j)
    → link_packets base count i left packets j ≡ packets j
unfolding link_packets
link_packets-out base count i zero packets j h out = refl
link_packets-out base count i (suc left) packets j h out =
    link_packets-out base count (suc i) left _ j (omega arith) (omega arith)
    ∙ update_ne packets (u16 (base + i)) j _ (omega arith)

-- What the round for packet `base + i` leaves in it.
link_packets-at :
    (base count i left : ℕ) (packets : ℕ → Packet)
    → base + i + suc left ≤ null_index
    → link_packets base count i (suc left) packets (base + i)
      ≡ record (packets (base + i)) { next = link base count i; control = 0 }
unfolding link_packets
link_packets-at base count i left packets h =
    let e : u16 (base + i) ≡ base + i = omega arith in
    rw e (
      link_packets-out base count (suc i) left _ (base + i) (omega arith) (omega arith)
      ∙ update_self packets (base + i) _)

-- Packet `j` of the loop is linked and cleared.
abbrev pub IsLinked : ℕ → ℕ → ℕ → (ℕ → Packet) → Type 0
IsLinked base count j packets =
    ((packets (base + j)).next ≡ link base count j) × ((packets (base + j)).control ≡ 0)

pub link_packets-in :
    (base count i left : ℕ) (packets : ℕ → Packet) (j : ℕ)
    → base + i + left ≤ null_index
    → i ≤ j
    → j < i + left
    → IsLinked base count j (link_packets base count i left packets)
unfolding link_packets
link_packets-in base count i zero packets j h lo hi = absurd (omega arith)
link_packets-in base count i (suc left) packets j h lo hi = elim (ℕ_discrete i j) [
  | yes e ↦ rw (← e) (
      let at = link_packets-at base count i left packets h in
      (ap (λ (pkt : Packet). pkt.next) at, ap (λ (pkt : Packet). pkt.control) at))
  | no ne ↦ link_packets-in base count (suc i) left _ j (omega arith) (omega arith) (omega arith)
]

-- The index to which the `i`-th of `count` packets from `base` on is linked, if `i` is in front of it.
abbrev pub nth : ℕ → ℕ → ℕ → ℕ
nth base count i = if ltb i count then base + i else null_index

tagged_index-link :
    (base count i : ℕ)
    → base + count ≤ null_index
    → tagged_index (link base count i) ≡ nth base count (suc i)
tagged_index-link base count i h = elim (Bool-cases (ltb (i + 1) count)) [
  | inl e ↦
      let f : ltb (suc i) count ≡ true = lt→ltb _ _ (omega tests) in
      rw (e, f) (tagged_index-make_tagged 0 _ (omega arith) ∙ omega tests)
  | inr e ↦
      let f : ltb (suc i) count ≡ false = le→ltb _ _ (omega tests) in
      rw (e, f) tagged_index-null_tagged
]

pub nth-in : (base count i : ℕ) → i < count → nth base count i ≡ base + i
nth-in base count i h = rw (lt→ltb i count h)

nth-out : (base count i : ℕ) → count ≤ i → nth base count i ≡ null_index
nth-out base count i h = rw (le→ltb i count h)

-- Links of this form make the chain of the packets from `base + i` to the last.
pub Chain-links :
    (packets : ℕ → Packet) (base count i n : ℕ) (head : ℕ)
    → base + count ≤ null_index
    → i + n ≡ count
    → ((j : ℕ) → j < count → (packets (base + j)).next ≡ link base count j)
    → tagged_index head ≡ nth base count i
    → Chain packets head (range_from (base + i) n)
Chain-links packets base count i zero head h e links top = top ∙ nth-out base count i (omega arith)
Chain-links packets base count i (suc n) head h e links top =
    let step : base + suc i ≡ suc (base + i) = omega arith in
    (
      top ∙ nth-in base count i (omega arith),
      omega arith,
      rw step at (
          Chain-links packets base count (suc i) n (packets (base + i)).next h (omega arith) links
            (ap tagged_index (links i (omega arith)) ∙ tagged_index-link base count i h)),
    )

-- The same for all of the packets, from the index of the first.
pub Chain-all :
    (packets : ℕ → Packet) (base count : ℕ) (head : ℕ)
    → base + count ≤ null_index
    → 0 < count
    → ((j : ℕ) → j < count → (packets (base + j)).next ≡ link base count j)
    → tagged_index head ≡ base
    → Chain packets head (range_from base count)
Chain-all packets base count head h pos links top =
    let start : base + 0 ≡ base = omega arith in
    rw start at (
      Chain-links packets base count 0 count head h (omega arith) links
        (top ∙ sym (nth-in base count 0 pos ∙ start)))
