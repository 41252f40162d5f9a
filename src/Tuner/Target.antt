-- ===== src/Tuner/Target.antt =====
-- What next_occupancy_target_regs finds.
use native.Mathlib.Nat.{div-mul-le_self, lt-div-mul-add, mul-le-mul}
use async_gpu.Prelude.{
  ℕ, zero, suc, ◌+◌, ◌-◌, ◌*◌, ◌/◌, ◌^◌, ◌<◌, ◌≤◌, ◌≡◌, refl, ltb, leb, ne→==, true, false, Option,
  none, some, Bool-cases, ◌⊎◌, ◌≢◌, inl, inr, arith, u32, if◌then◌else◌, Bool, div_ceil,
}
use async_gpu.Tuner.{SmConfig, occupancy, with_registers, target_loop, next_occupancy_target_regs}

-- A configuration as devices have them.
pub record IsDevice (sm : SmConfig) : Type 0 where
  pub warps : 0 < sm.warp_size
  pub warps_small : sm.warp_size ≤ 1024
  pub granules : 0 < sm.reg_alloc_granularity
  pub granules_small : sm.reg_alloc_granularity ≤ 65536
  pub threads : 0 < sm.max_threads_per_sm

pub div_ceil-covers : (a b : ℕ) → 1 ≤ b → (a ≤ div_ceil a b * b) × (div_ceil a b * b < a + b)
div_ceil-covers a b h =
    let low = div-mul-le_self (a + b - 1) b in
    let high : a + b - 1 < (a + b - 1) / b * b + b = lt-div-mul-add h in
    (omega (arith, low, high), omega (arith, low, high))

pos_ne : (n : ℕ) → 0 < n → n ≢ 0
pos_ne n pos e = absurd (omega arith)

nonzero : (n : ℕ) → 0 < n → n < 2 ^ 32 → u32 n ≢ 0
nonzero n pos small e = absurd (omega arith)

passes :
    (idle panics : Bool) (x : ℕ)
    → panics ≡ false
    → (o : ℕ) × ((if idle then some 100 else if panics then none else some x) ≡ some o)
passes true panics x e = (100, refl)
passes false panics x e = (x, rw e refl)

module _ (sm : SmConfig) (block_size : ℕ) where
  -- The most registers of `1..=n` with at least the occupancy `target`, and what they give; none only
  -- if no number of registers gives as much. The occupancy of each number is defined.
  abbrev pub IsMost : ℕ → ℕ → Option (ℕ × ℕ) → Type 0
  IsMost target n none =
      (r : ℕ)
      → 1 ≤ r
      → r ≤ n
      → (o : ℕ) × (occupancy (with_registers r) sm block_size ≡ some o) × (o < target)
  IsMost target n (some (regs, occ)) =
      (1 ≤ regs)
      × (regs ≤ n)
      × (occupancy (with_registers regs) sm block_size ≡ some occ)
      × (target ≤ occ)
      × ((r : ℕ)
          → regs < r
          → r ≤ n
          → (o : ℕ) × (occupancy (with_registers r) sm block_size ≡ some o) × (o < target))

  IsMost-suc :
      (target n occ : ℕ) (o : Option (ℕ × ℕ))
      → occupancy (with_registers (suc n)) sm block_size ≡ some occ
      → occ < target
      → IsMost target n o
      → IsMost target (suc n) o
  IsMost-suc target n occ none is low h = λ r p q. elim (Bool-cases (leb r n)) [
    | inl le ↦ h r p (ground arith)
    | inr gt ↦ let e : r ≡ suc n = ground arith in rw e (occ, is, low)
  ]
  IsMost-suc target n occ (some (regs, most_occ)) is low (p, q, e, t, most) = (
    p,
    omega arith,
    e,
    t,
    λ r lt le. elim (Bool-cases (leb r n)) [
      | inl le' ↦ most r lt (ground arith)
      | inr gt ↦ let e : r ≡ suc n = ground arith in rw e (occ, is, low)
    ],
  )

  module _ (device : IsDevice sm) where
    -- No division by zero.
    occupancy-some :
        (regs : ℕ)
        → 1 ≤ regs
        → regs ≤ 255
        → (o : ℕ) × (occupancy (with_registers regs) sm block_size ≡ some o)
    unfolding occupancy
    occupancy-some regs pos small =
        let product : (1 ≤ regs * sm.warp_size) × (regs * sm.warp_size ≤ 255 * 1024) =
          (mul-le-mul pos device.warps, mul-le-mul small device.warps_small) in
        let R : ℕ = u32 (regs * sm.warp_size) in
        let whole : (1 ≤ R) × (R ≤ 261120) = (omega (arith, product), omega (arith, product)) in
        let padded = div_ceil-covers R sm.reg_alloc_granularity device.granules in
        let aligned : u32 (div_ceil R sm.reg_alloc_granularity * sm.reg_alloc_granularity) ≢ 0 =
          nonzero _ (omega (arith, whole, padded))
            (omega (arith, whole, padded, device.granules_small)) in
        passes _ _ _ (
          rw
            (
              ne→== sm.reg_alloc_granularity 0 (pos_ne _ device.granules),
              ne→== sm.warp_size 0 (pos_ne _ device.warps),
              ne→== _ 0 aligned,
              ne→== sm.max_threads_per_sm 0 (pos_ne _ device.threads),
            )
            refl)

    target_loop-IsMost :
        (target n : ℕ)
        → n ≤ 255
        → (o : Option (ℕ × ℕ)) × (target_loop sm block_size target n ≡ some o) × IsMost target n o
    unfolding target_loop
    target_loop-IsMost target zero le = (none, refl, λ r p q. absurd (omega arith))
    target_loop-IsMost target (suc n) le =
        let (o, rest, most) = target_loop-IsMost target n (omega arith) in
        let (occ, is) = occupancy-some (suc n) (omega arith) le in
        elim (Bool-cases (leb target occ)) [
          | inl e ↦ (
            some (suc n, occ),
            rw (is, e) refl,
            (omega arith, omega arith, is, ground arith, λ r lt le. absurd (omega arith)),
          )
          | inr e ↦ (o, rw (is, e) rest, IsMost-suc target n occ o is (ground arith) most)
        ]

searched :
    (sm : SmConfig) (block_size current_occ : ℕ) (o : Option (ℕ × ℕ))
    → u32 ((current_occ / 25 + 1) * 25) ≡ (current_occ / 25 + 1) * 25
    → ltb 100 ((current_occ / 25 + 1) * 25) ≡ false
    → target_loop sm block_size ((current_occ / 25 + 1) * 25) 255 ≡ some o
    → next_occupancy_target_regs sm block_size current_occ ≡ some o
unfolding next_occupancy_target_regs
searched sm block_size current_occ o whole low found = rw (whole, low) found

-- On the configuration of a device, next_occupancy_target_regs returns, for a current occupancy whose
-- next multiple of 25 is below 2^32. Below 100 it gives the most registers of 1 to 255 with at least
-- the occupancy of that multiple, and what they give, and none only if no number of registers gives
-- as much. From 100 on it gives none.
pub next_occupancy_target_regs-IsMost :
    (sm : SmConfig) (block_size current_occ : ℕ)
    → IsDevice sm
    → current_occ + 25 < 2 ^ 32
    → (o : Option (ℕ × ℕ)) × (next_occupancy_target_regs sm block_size current_occ ≡ some o)
      × (((current_occ < 100) × IsMost sm block_size ((current_occ / 25 + 1) * 25) 255 o)
          ⊎ ((100 ≤ current_occ) × (o ≡ none)))
unfolding next_occupancy_target_regs
next_occupancy_target_regs-IsMost sm block_size current_occ device low =
    let target : ℕ = (current_occ / 25 + 1) * 25 in
    let whole : u32 target ≡ target = omega arith in
    let below : ltb 100 target ≡ false → current_occ < 100 = λ e. ground arith in
    let above : ltb 100 target ≡ true → 100 ≤ current_occ = λ e. ground arith in
    elim (Bool-cases (ltb 100 target)) [
      | inl e ↦ (none, rw (whole, e) refl, inr (above e, refl))
      | inr e ↦
          let (o, found, most) = target_loop-IsMost sm block_size device target 255 (omega arith) in
          (o, searched sm block_size current_occ o whole e found, inl (below e, most))
    ]
