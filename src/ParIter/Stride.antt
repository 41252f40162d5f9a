-- ===== src/ParIter/Stride.antt =====
-- Sums over intervals in a commutative monoid, and the loop of a warp as such a sum.
use native.Mathlib.Nat.{add-mod_right}
use async_gpu.Prelude.{
  ℕ, zero, suc, ◌+◌, ◌-◌, ◌%◌, ◌<◌, ◌≤◌, ◌≡◌, ◌≢◌, refl, sym, ap, ◌∙◌, ◌==◌, lt→ltb, le→ltb,
  if◌then◌else◌, ne→==, eq→==, arith, dec_lt,
}
use async_gpu.Channel.Ring.{places_ne}
use async_gpu.ParIter.{warp_loop}

sum_back : (i j : ℕ) → i ≤ j → i + (j - i) ≡ j
sum_back i j h = omega arith

sum_zero : (i : ℕ) → i ≡ i + 0
sum_zero i = omega arith

-- An operation for which the order and the grouping of its operands do not matter.
pub record Commutes {A : Type 0} (op : A → A → A) (e : A) : Type 0 where
  pub assoc : (a b c : A) → op (op a b) c ≡ op a (op b c)
  pub comm : (a b : A) → op a b ≡ op b a
  pub neutral : (a : A) → op a e ≡ a

module _ {A : Type 0} (op : A → A → A) (e : A) where
  -- `g` at `i`, `i + 1`, … of which there are `n`, one after another.
  abbrev pub sum_from : (ℕ → A) → ℕ → ℕ → A
  sum_from g i zero = e
  sum_from g i (suc n) = op (g i) (sum_from g (suc i) n)

  -- `g` at the numbers of a residue, elsewhere the neutral element.
  abbrev pub at_residue : ℕ → ℕ → (ℕ → A) → ℕ → A
  at_residue n r g j = if j % n == r then g j else e

  module _ (m : Commutes op e) where
    pub neutral_left : (a : A) → op e a ≡ a
    neutral_left a = m.comm e a ∙ m.neutral a

    pub sum_from-add :
        (g : ℕ → A) (i k n j t : ℕ)
        → j ≡ i + k
        → t ≡ k + n
        → sum_from g i t ≡ op (sum_from g i k) (sum_from g j n)
    sum_from-add g i zero n j t at all =
        let same : t ≡ n = omega arith in
        let start : i ≡ j = omega arith in
        ap (sum_from g i) same
        ∙ ap (λ x. sum_from g x n) start
        ∙ sym (neutral_left (sum_from g j n))
    sum_from-add g i (suc k) n j t at all =
        let more : t ≡ suc (k + n) = omega arith in
        ap (sum_from g i) more
        ∙ ap (op (g i)) (sum_from-add g (suc i) k n j (k + n) (omega arith) refl)
        ∙ sym (m.assoc (g i) (sum_from g (suc i) k) (sum_from g j n))

    -- A stretch without a number of the residue.
    pub sum_from_gap :
        (n r : ℕ) (g : ℕ → A) (i k : ℕ)
        → ((j : ℕ) → i ≤ j → j < i + k → j % n ≢ r)
        → sum_from (at_residue n r g) i k ≡ e
    sum_from_gap n r g i zero h = refl
    sum_from_gap n r g i (suc k) h =
        rw (ne→== (i % n) r (h i (omega arith) (omega arith))) (
          neutral_left _
          ∙ sum_from_gap n r g (suc i) k (λ j lo hi. h j (omega arith) (omega arith)))

    pub interchange : (a b c d : A) → op (op a b) (op c d) ≡ op (op a c) (op b d)
    interchange a b c d =
        m.assoc a b (op c d)
        ∙ ap (op a) (sym (m.assoc b c d) ∙ ap (λ x. op x d) (m.comm b c) ∙ m.assoc c b d)
        ∙ sym (m.assoc a c (op b d))

    pub sum_from-op :
        (f g : ℕ → A) (i n : ℕ)
        → sum_from (λ j. op (f j) (g j)) i n ≡ op (sum_from f i n) (sum_from g i n)
    sum_from-op f g i zero = sym (m.neutral e)
    sum_from-op f g i (suc n) =
        ap (op (op (f i) (g i))) (sum_from-op f g (suc i) n)
        ∙ interchange (f i) (g i) (sum_from f (suc i) n) (sum_from g (suc i) n)

    -- Of up to `n` numbers from `i` on, only `i` has its residue.
    pub sum_from_first :
        (n r : ℕ) (g : ℕ → A) (i k : ℕ)
        → i % n ≡ r
        → 0 < k
        → k ≤ n
        → sum_from (at_residue n r g) i k ≡ g i
    sum_from_first n r g i zero res pos le = absurd (omega arith)
    sum_from_first n r g i (suc k) res pos le =
        let others : (j : ℕ) → suc i ≤ j → j < suc i + k → j % n ≢ r = λ j lo hi same.
          places_ne n i (j - i) 0 (omega arith) (omega arith) (omega arith) (omega arith) (
            ap (λ x. x % n) (sum_back i j (omega arith))
            ∙ same
            ∙ sym res
            ∙ ap (λ x. x % n) (sum_zero i)) in
        rw (eq→== (i % n) r res)
          (ap (op (g i)) (sum_from_gap n r g (suc i) k others) ∙ m.neutral (g i))

    -- The first of its numbers, and the sum from the next of them on.
    pub sum_from_step :
        (n r : ℕ) (g : ℕ → A) (i len : ℕ)
        → 0 < n
        → i % n ≡ r
        → i < len
        → sum_from (at_residue n r g) i (len - i)
          ≡ op (g i) (sum_from (at_residue n r g) (i + n) (len - (i + n)))
    sum_from_step n r g i len pos res more = elim (dec_lt len (i + n)) [
      | yes last ↦
          let none_left : len - (i + n) ≡ 0 = omega arith in
          rw none_left (
            sum_from_first n r g i (len - i) res (omega arith) (omega arith)
            ∙ sym (m.neutral (g i)))
      | no further ↦
          sum_from-add (at_residue n r g) i n (len - (i + n)) (i + n) (len - i) refl (omega arith)
          ∙ ap (λ x. op x (sum_from (at_residue n r g) (i + n) (len - (i + n))))
              (sum_from_first n r g i n res pos (omega arith))
    ]

    -- The loop of a warp at `i`, which is of residue `r`.
    pub warp_loop-sum :
        (fuel len n r : ℕ) (g : ℕ → A) (i : ℕ) (acc : A)
        → 0 < n
        → i % n ≡ r
        → len ≤ i + fuel
        → warp_loop fuel len n (λ a j. op a (g j)) i acc
          ≡ op acc (sum_from (at_residue n r g) i (len - i))
    unfolding warp_loop
    warp_loop-sum zero len n r g i acc pos res enough =
        let none_left : len - i ≡ 0 = omega arith in rw none_left (sym (m.neutral acc))
    warp_loop-sum (suc fuel) len n r g i acc pos res enough = elim (dec_lt i len) [
      | no done ↦
          let none_left : len - i ≡ 0 = omega arith in
          rw (le→ltb i len (omega arith), none_left) (sym (m.neutral acc))
      | yes more ↦
          let next = add-mod_right i n ∙ res in
          rw (lt→ltb i len more) (
            warp_loop-sum fuel len n r g (i + n) (op acc (g i)) pos next (omega arith)
            ∙ m.assoc acc (g i) _
            ∙ ap (op acc) (sym (sum_from_step n r g i len pos res more)))
    ]
