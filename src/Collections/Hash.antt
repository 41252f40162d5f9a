-- ===== src/Collections/Hash.antt =====
-- The range of the hash of Collections.
use async_gpu.Prelude.{
  ℕ, zero, suc, ◌+◌, ◌-◌, ◌*◌, ◌/◌, ◌^◌, ◌<◌, ◌≤◌, ◌≡◌, ltb, arith, Bool-cases, inl, inr, ltb→lt,
  u32, ap, ◌∙◌, refl, dec_lt,
}
use native.Mathlib.Nat.{
  div-lt_iff_lt-mul, le-mul_of_pos_right, mul-le-mul_left, two-pow-succ, pow-le-pow_right,
  mul_assoc, one-le-pow, add-zero, add-suc, pow-suc, pow-zero, mul-one,
}
use native.Mathlib.Numerals.{add-one}
use async_gpu.Collections.{log2_loop, log2_n, hash}

half : (p q n c : ℕ) → 2 * n ≤ q → p * q ≤ c → (p + p) * n ≤ c
half p q n c h k = let m = mul-le-mul_left p h in omega (arith, mul_assoc p 2 n, m)

-- The loop keeps `2 ^ log * n` below what it started from.
log2_loop-le : (fuel n log c : ℕ) → 0 < n → 2 ^ log * n ≤ c → 2 ^ log2_loop fuel n log ≤ c
unfolding log2_loop
log2_loop-le zero n log c pos h =
    let k : 2 ^ log ≤ 2 ^ log * n = le-mul_of_pos_right (2 ^ log) pos in omega arith
log2_loop-le (suc fuel) n log c pos h = elim (Bool-cases (ltb 1 n)) [
  | inl more ↦
      let big : 1 < n = ltb→lt 1 n more in
      rw more (
        log2_loop-le fuel (n / 2) (log + 1) c (omega arith)
          (rw (add-one, two-pow-succ log) (half (2 ^ log) n (n / 2) c (omega arith) h)))
  | inr done ↦
      let k : 2 ^ log ≤ 2 ^ log * n = le-mul_of_pos_right (2 ^ log) pos in
      rw (done, log2_loop) (omega arith)
]

pow-add : (a b : ℕ) → 2 ^ (a + b) ≡ 2 ^ a * 2 ^ b
pow-add a zero = rw (add-zero a, pow-zero 2, mul-one (2 ^ a)) refl
pow-add a (suc b) =
    rw (add-suc a b, pow-suc 2 (a + b), pow-suc 2 b, pow-add a b, mul_assoc (2 ^ a) (2 ^ b) 2) refl

log2_n-le : (capacity : ℕ) → 0 < capacity → 2 ^ log2_n capacity ≤ capacity
unfolding log2_n
log2_n-le capacity pos = log2_loop-le capacity capacity 0 capacity pos (omega arith)

-- The hash of any key is a slot of the map.
pub hash-lt :
    (capacity : ℕ) → 0 < capacity → capacity ≤ 2 ^ 32 → (key : ℕ) → hash capacity key < capacity
unfolding hash
hash-lt capacity pos small key =
    let le = log2_n-le capacity pos in
    let short : log2_n capacity ≤ 32 = elim (dec_lt 32 (log2_n capacity)) [
      | no p ↦ omega arith
      | yes p ↦
          let big : 2 ^ 33 ≤ 2 ^ log2_n capacity = pow-le-pow_right (omega arith) p in
          absurd (omega arith)
    ] in
    let split : 32 ≡ log2_n capacity + (32 - log2_n capacity) = omega arith in
    let whole : 2 ^ 32 ≡ 2 ^ log2_n capacity * 2 ^ (32 - log2_n capacity) =
      ap (λ (k : ℕ). 2 ^ k) split ∙ pow-add (log2_n capacity) (32 - log2_n capacity) in
    let room : 0 < 2 ^ (32 - log2_n capacity) = one-le-pow (32 - log2_n capacity) 2 (omega arith) in
    let inside : u32 (key * 0x9E3779B9) < 2 ^ log2_n capacity * 2 ^ (32 - log2_n capacity) =
      omega arith in
    let h = (div-lt_iff_lt-mul room).1 inside in omega arith
