-- ===== src/Scope/Mask.antt =====
-- The mask of an alignment that is a power of two, as a quotient.
use native.Mathlib.Nat.{
  div-mul-le_self, lt-div-mul-add, mul-mod_left, div-div-eq-div-mul, mul_left_comm, div-one,
  mul-one, pow-succ', pow-le-pow_right,
}
use async_gpu.Prelude.{
  ℕ, zero, suc, ◌+◌, ◌-◌, ◌*◌, ◌/◌, ◌%◌, ◌^◌, ◌<◌, ◌≤◌, ◌≡◌, sym, ap, ap₂, ◌∙◌, u64, arith,
}
use async_gpu.Scope.{and_not, align_up}

and_not-zero : (w x : ℕ) → x < 2 ^ w → and_not w x 0 ≡ x
unfolding and_not
and_not-zero zero x lt = omega arith
and_not-zero (suc w) x lt =
    let half : x / 2 < 2 ^ w = omega (arith, pow-succ' 2 w) in
    rw (and_not-zero w (x / 2) half) (omega arith)

odd_bit : (w x m : ℕ) → m % 2 ≡ 1 → and_not (suc w) x m ≡ 2 * and_not w (x / 2) (m / 2)
unfolding and_not
odd_bit w x m h = rw h (omega arith)

-- The bits below the `k`-th are cleared.
and_not-pow : (k w x : ℕ) → k ≤ w → x < 2 ^ w → and_not w x (2 ^ k - 1) ≡ x / 2 ^ k * 2 ^ k
and_not-pow zero w x le lt = and_not-zero w x lt ∙ sym (mul-one (x / 1) ∙ div-one x)
and_not-pow (suc k) zero x le lt = absurd (omega arith)
and_not-pow (suc k) (suc w) x le lt =
    let half : x / 2 < 2 ^ w = omega (arith, pow-succ' 2 w) in
    let double : 2 ^ suc k ≡ 2 * 2 ^ k = pow-succ' 2 k in
    let pos : 1 ≤ 2 ^ k = pow-le-pow_right {n = 2} (omega arith) {i = 0} {j = k} (omega arith) in
    let odd : (2 ^ suc k - 1) % 2 ≡ 1 = omega (arith, double, pos) in
    let rest : (2 ^ suc k - 1) / 2 ≡ 2 ^ k - 1 = omega (arith, double, pos) in
    let quotient : x / 2 / 2 ^ k ≡ x / 2 ^ suc k =
      div-div-eq-div-mul x 2 (2 ^ k) ∙ ap (λ n. x / n) (sym double) in
    odd_bit w x (2 ^ suc k - 1) odd
    ∙ ap (λ m. 2 * and_not w (x / 2) m) rest
    ∙ ap (λ n. 2 * n) (and_not-pow k w (x / 2) (omega arith) half)
    ∙ mul_left_comm 2 (x / 2 / 2 ^ k) (2 ^ k)
    ∙ ap₂ ◌*◌ quotient (sym double)

module _ (n k : ℕ) (small : k < 32) (low : n < 2 ^ 32) where
  below_word : 2 ^ k ≤ 2 ^ 32
  below_word = pow-le-pow_right {n = 2} (omega arith) {i = k} {j = 32} (omega arith)

  above_zero : 1 ≤ 2 ^ k
  above_zero = pow-le-pow_right {n = 2} (omega arith) {i = 0} {j = k} (omega arith)

  align_up-quotient : align_up n (2 ^ k) ≡ (n + 2 ^ k - 1) / 2 ^ k * 2 ^ k
  unfolding align_up
  align_up-quotient =
      let sum : u64 (u64 (n + 2 ^ k) + (2 ^ 64 - 1)) ≡ n + 2 ^ k - 1 =
        omega (arith, above_zero, below_word, low) in
      let mask : u64 (2 ^ k + (2 ^ 64 - 1)) ≡ 2 ^ k - 1 = omega (arith, above_zero, below_word) in
      ap₂ (and_not 64) sum mask
      ∙ and_not-pow k 64 (n + 2 ^ k - 1) (omega arith) (omega (arith, above_zero, below_word, low))

  le-align_up_pow : n ≤ align_up n (2 ^ k)
  le-align_up_pow =
      omega (arith, align_up-quotient, lt-div-mul-add {a = n + 2 ^ k - 1} above_zero, above_zero)

  align_up_pow-lt : align_up n (2 ^ k) < n + 2 ^ k
  align_up_pow-lt =
      omega (arith, align_up-quotient, div-mul-le_self (n + 2 ^ k - 1) (2 ^ k), above_zero)

  align_up_pow-mod : align_up n (2 ^ k) % 2 ^ k ≡ 0
  align_up_pow-mod =
      ap (λ x. x % 2 ^ k) align_up-quotient ∙ mul-mod_left ((n + 2 ^ k - 1) / 2 ^ k) (2 ^ k)

-- An alignment of a type: a power of two, below 2^32.
abbrev pub IsAlign : ℕ → Type 0
IsAlign a = (k : ℕ) × (k < 32) × (a ≡ 2 ^ k)

pub IsAlign-lt : (a : ℕ) → IsAlign a → a < 2 ^ 32
IsAlign-lt a (k, small, e) =
    omega (arith, e, pow-le-pow_right {n = 2} (omega arith) {i = k} {j = 31} (omega arith))

pub le-align_up : (n a : ℕ) → IsAlign a → n < 2 ^ 32 → n ≤ align_up n a
le-align_up n a (k, small, e) low = rw e (le-align_up_pow n k small low)

pub align_up-lt : (n a : ℕ) → IsAlign a → n < 2 ^ 32 → align_up n a < n + a
align_up-lt n a (k, small, e) low = rw e (align_up_pow-lt n k small low)

pub align_up-mod : (n a : ℕ) → IsAlign a → n < 2 ^ 32 → align_up n a % a ≡ 0
align_up-mod n a (k, small, e) low = rw e (align_up_pow-mod n k small low)
