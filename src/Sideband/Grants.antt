-- ===== src/Sideband/Grants.antt =====
-- The blocks that the bump allocator grants.
use async_gpu.Prelude.{
  ℕ, ◌+◌, ◌^◌, ◌<◌, ◌≤◌, ◌≡◌, refl, ◌⊎◌, inl, inr, List, [], ◌∷◌, ltb, ltb→le, Bool-cases, u64,
  u64_max, arith,
}
use async_gpu.Host.Resources.{Sideband}
use async_gpu.Sideband.{sideband_alloc}

-- A run of allocations: their offsets, or u64::MAX, with their sizes.
abbrev pub alloc_all : List ℕ → Sideband → List (ℕ × ℕ)
alloc_all [] sb = []
alloc_all (size ∷ rest) sb =
    let (offset, sb') = sideband_alloc size sb in (offset, size) ∷ alloc_all rest sb'

-- The blocks granted lie behind each other from `low` on, below the capacity.
abbrev pub InOrder : ℕ → ℕ → List (ℕ × ℕ) → Type 0
InOrder capacity low [] = Unit
InOrder capacity low ((offset, size) ∷ rest) =
    ((offset ≡ u64_max) × InOrder capacity low rest)
    ⊎ ((low ≤ offset) × (offset + size ≤ capacity) × InOrder capacity (offset + size) rest)

abbrev pub total : List ℕ → ℕ
total [] = 0
total (size ∷ rest) = size + total rest

InOrder-lower :
    (capacity low low' : ℕ) (blocks : List (ℕ × ℕ))
    → low ≤ low'
    → InOrder capacity low' blocks
    → InOrder capacity low blocks
InOrder-lower capacity low low' [] h k = tt
InOrder-lower capacity low low' ((offset, size) ∷ rest) h (inl (e, k)) =
    inl (e, InOrder-lower capacity low low' rest h k)
InOrder-lower capacity low low' ((offset, size) ∷ rest) h (inr (l, u, k)) = inr (omega arith, u, k)

-- While the sizes and the place of the pointer add up to less than 2 ^ 64, the blocks that
-- allocations one after the other grant are in order from the pointer on, one behind the end of the
-- other and inside the capacity: no two overlap. The others get u64::MAX.
pub alloc_all-InOrder :
    (sizes : List ℕ) (sb : Sideband)
    → sb.alloc + total sizes < 2 ^ 64
    → InOrder sb.capacity sb.alloc (alloc_all sizes sb)
unfolding sideband_alloc
alloc_all-InOrder [] sb h = tt
alloc_all-InOrder (size ∷ rest) sb h =
    let moved = record sb { alloc = u64 (sb.alloc + size) } in
    let fits : u64 (sb.alloc + size) ≡ sb.alloc + size = omega arith in
    let later = alloc_all-InOrder rest moved (omega arith) in
    elim (Bool-cases (ltb sb.capacity (u64 (sb.alloc + size)))) [
      | inl full ↦ rw full (inl (refl, InOrder-lower sb.capacity sb.alloc _ _ (omega arith) later))
      | inr room ↦ rw room (
          inr (
            omega arith,
            omega (arith, ltb→le _ _ room),
            InOrder-lower sb.capacity (sb.alloc + size) _ _ (omega arith) later,
          ))
    ]
