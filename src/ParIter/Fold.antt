-- ===== src/ParIter/Fold.antt =====
-- The parallel folds against folds over the list of the elements.
use mathlib.Core.List.{foldl}
use native.Mathlib.Nat.{mod-eq_of_lt, mod-lt}
use async_gpu.Prelude.{
  ℕ, zero, suc, ◌+◌, ◌-◌, ◌%◌, ◌<◌, ◌≤◌, ◌≡◌, ◌≢◌, refl, sym, ap, ◌∙◌, fun_ext, inl, inr, ◌==◌,
  Bool, Bool-cases, ==_iff, ==→ne, ne→==, eq→==, if◌then◌else◌, List, [], ◌∷◌, map, range_from,
  arith, dec_lt,
}
use async_gpu.ParIter.{
  GpuParallelIterator, total_warps, partials, combine, default_fold, filter_fold,
}
use async_gpu.ParIter.Stride.{
  Commutes, sum_from, at_residue, neutral_left, sum_from-add, sum_from_gap, sum_from-op,
  warp_loop-sum,
}

-- The elements in order.
abbrev pub elements : {A : Type 0} → GpuParallelIterator A → List A
elements it = map it.get_unchecked (range_from 0 it.len)

abbrev pub kept : {A : Type 0} → (A → Bool) → List A → List A
kept p [] = []
kept p (x ∷ xs) = if p x then x ∷ kept p xs else kept p xs

module _ {A : Type 0} (op : A → A → A) (e : A) (m : Commutes op e) where
  sum_from_none : (h : ℕ → A) (i n : ℕ) → ((j : ℕ) → i ≤ j → h j ≡ e) → sum_from op e h i n ≡ e
  sum_from_none h i zero off = refl
  sum_from_none h i (suc n) off =
      ap (λ x. op x (sum_from op e h (suc i) n)) (off i (omega arith))
      ∙ neutral_left op e m (sum_from op e h (suc i) n)
      ∙ sum_from_none h (suc i) n (λ j le. off j (omega arith))

  -- A sum with one place at which the summand is not neutral.
  sum_from_only :
      (h : ℕ → A) (p i n : ℕ)
      → i ≤ p
      → p < i + n
      → ((j : ℕ) → j ≢ p → h j ≡ e)
      → sum_from op e h i n ≡ h p
  sum_from_only h p i zero lo hi off = absurd (omega arith)
  sum_from_only h p i (suc n) lo hi off = elim (Bool-cases (i == p)) [
    | inl here ↦
        let at : i ≡ p = (==_iff i p).0 here in
        ap (op (h i)) (sum_from_none h (suc i) n (λ j far. off j (omega arith)))
        ∙ m.neutral (h i)
        ∙ ap h at
    | inr there ↦
        let ne = ==→ne i p there in
        ap (λ x. op x (sum_from op e h (suc i) n)) (off i ne)
        ∙ neutral_left op e m (sum_from op e h (suc i) n)
        ∙ sum_from_only h p (suc i) n (omega arith) (omega arith) off
  ]

  -- The sum of the residues is the whole sum.
  residues_sum :
      (n : ℕ) (g : ℕ → A) (len i : ℕ)
      → 0 < n
      → sum_from op e (λ w. sum_from op e (at_residue op e n w g) i len) 0 n ≡ sum_from op e g i len
  residues_sum n g zero i pos = sum_from_none (λ w. e) 0 n (λ j le. refl)
  residues_sum n g (suc len) i pos =
      let first = λ (w : ℕ). at_residue op e n w g i in
      let rest = λ (w : ℕ). sum_from op e (at_residue op e n w g) (suc i) len in
      let one : sum_from op e first 0 n ≡ g i =
        sum_from_only first (i % n) 0 n (omega arith) (omega (arith, mod-lt i pos))
          (λ w ne. rw (ne→== (i % n) w (λ same. ne (sym same))) refl)
        ∙ rw (eq→== (i % n) (i % n) refl) refl in
      sum_from-op op e m first rest 0 n
      ∙ ap (λ x. op x (sum_from op e rest 0 n)) one
      ∙ ap (op (g i)) (residues_sum n g len (suc i) pos)

  -- No number below `w` has the residue `w`.
  sum_from_start :
      (len n : ℕ) (g : ℕ → A) (w : ℕ)
      → w < n
      → sum_from op e (at_residue op e n w g) 0 len
        ≡ sum_from op e (at_residue op e n w g) w (len - w)
  sum_from_start len n g w lt =
      let h = at_residue op e n w g in
      let below : (j : ℕ) → j < w → j % n ≢ w =
        λ j hi same. absurd (omega (arith, mod-eq_of_lt {n = j} {m = n} (omega arith))) in
      elim (dec_lt len w) [
        | yes short ↦
            let none_left : len - w ≡ 0 = omega arith in
            rw none_left (sum_from_gap op e m n w g 0 len (λ j lo hi. below j (omega arith)))
        | no long ↦
            sum_from-add op e m h 0 w (len - w) w len (omega arith) (omega arith)
            ∙ ap (λ x. op x (sum_from op e h w (len - w)))
                (sum_from_gap op e m n w g 0 w (λ j lo hi. below j (omega arith)))
            ∙ neutral_left op e m (sum_from op e h w (len - w))
      ]

  -- The partial result of a warp is the sum of its residue over all elements.
  partials-sum :
      (len n : ℕ) (g : ℕ → A) (w : ℕ)
      → w < n
      → partials len n (λ a j. op a (g j)) e w ≡ sum_from op e (at_residue op e n w g) 0 len
  unfolding partials
  partials-sum len n g w lt =
      let res : w % n ≡ w = mod-eq_of_lt lt in
      warp_loop-sum op e m len len n w g w e (omega arith) res (omega arith)
      ∙ neutral_left op e m _
      ∙ sym (sum_from_start len n g w lt)

  combine-sum :
      (results : ℕ → A) (a n : ℕ) (c : A)
      → combine op results (range_from a n) c ≡ op c (sum_from op e results a n)
  unfolding combine
  combine-sum results a zero c = sym (m.neutral c)
  combine-sum results a (suc n) c =
      combine-sum results (suc a) n (op c (results a)) ∙ m.assoc c (results a) _

  foldl-sum :
      (g : ℕ → A) (i n : ℕ) (acc : A)
      → foldl op acc (map g (range_from i n)) ≡ op acc (sum_from op e g i n)
  foldl-sum g i zero acc = sym (m.neutral acc)
  foldl-sum g i (suc n) acc = foldl-sum g (suc i) n (op acc (g i)) ∙ m.assoc acc (g i) _

  sum_from-cong :
      (f g : ℕ → A) (i n : ℕ)
      → ((j : ℕ) → i ≤ j → j < i + n → f j ≡ g j)
      → sum_from op e f i n ≡ sum_from op e g i n
  sum_from-cong f g i zero h = refl
  sum_from-cong f g i (suc n) h =
      ap (λ x. op x (sum_from op e f (suc i) n)) (h i (omega arith) (omega arith))
      ∙ ap (op (g i)) (sum_from-cong f g (suc i) n (λ j lo hi. h j (omega arith) (omega arith)))

  total_warps_pos : (n : ℕ) → 0 < total_warps n
  total_warps_pos n = ground arith

  -- All warps together, and the combination of their results.
  warps-sum :
      (len num_warps : ℕ) (g : ℕ → A)
      → combine op
          (partials len (total_warps num_warps) (λ a j. op a (g j)) e)
          (range_from 0 (total_warps num_warps))
          e
        ≡ sum_from op e g 0 len
  warps-sum len num_warps g =
      let n = total_warps num_warps in
      let results = partials len n (λ a j. op a (g j)) e in
      combine-sum results 0 n e
      ∙ neutral_left op e m _
      ∙ sum_from-cong results (λ w. sum_from op e (at_residue op e n w g) 0 len) 0 n
          (λ w lo hi. partials-sum len n g w (omega arith))
      ∙ residues_sum n g len 0 (total_warps_pos num_warps)

  -- For an operation that is associative and commutative, with the identity as neutral element, and
  -- any number of warps: the parallel fold is the fold over the elements from first to last.
  pub default_fold-foldl :
      (num_warps : ℕ) (it : GpuParallelIterator A)
      → default_fold num_warps it e op ≡ foldl op e (elements it)
  unfolding default_fold
  default_fold-foldl num_warps it = elim (Bool-cases (it.len == 0)) [
    | inl empty ↦
        let zero_len : it.len ≡ 0 = (==_iff it.len 0).0 empty in
        rw empty (sym (ap (λ n. foldl op e (map it.get_unchecked (range_from 0 n))) zero_len))
    | inr more ↦ rw more (
        warps-sum it.len num_warps it.get_unchecked
        ∙ sym (foldl-sum it.get_unchecked 0 it.len e ∙ neutral_left op e m _))
  ]

  -- What a filtered element contributes.
  abbrev passed : (A → Bool) → (ℕ → A) → ℕ → A
  passed p g j = if p (g j) then g j else e

  filter-step :
      (p : A → Bool) (g : ℕ → A)
      → ◌≡◌ {A = A → ℕ → A} (λ a j. if p (g j) then op a (g j) else a) (λ a j. op a (passed p g j))
  filter-step p g = fun_ext (λ a. fun_ext (λ j. elim (Bool-cases (p (g j))) [
    | inl pass ↦ rw pass refl
    | inr fail ↦ rw fail (sym (m.neutral a))
  ]))

  foldl_kept-sum :
      (p : A → Bool) (g : ℕ → A) (i n : ℕ) (acc : A)
      → foldl op acc (kept p (map g (range_from i n))) ≡ op acc (sum_from op e (passed p g) i n)
  foldl_kept-sum p g i zero acc = sym (m.neutral acc)
  foldl_kept-sum p g i (suc n) acc = elim (Bool-cases (p (g i))) [
    | inl pass ↦ rw pass (foldl_kept-sum p g (suc i) n (op acc (g i)) ∙ m.assoc acc (g i) _)
    | inr fail ↦
        rw fail (foldl_kept-sum p g (suc i) n acc ∙ ap (op acc) (sym (neutral_left op e m _)))
  ]

  -- For such an operation and any predicate and number of warps, the fold of a filtered iterator is
  -- the fold over the elements that pass.
  pub filter_fold-foldl :
      (num_warps : ℕ) (it : GpuParallelIterator A) (p : A → Bool)
      → filter_fold num_warps it p e op ≡ foldl op e (kept p (elements it))
  unfolding filter_fold
  filter_fold-foldl num_warps it p = elim (Bool-cases (it.len == 0)) [
    | inl empty ↦
        let zero_len : it.len ≡ 0 = (==_iff it.len 0).0 empty in
        rw empty
          (sym (ap (λ n. foldl op e (kept p (map it.get_unchecked (range_from 0 n)))) zero_len))
    | inr more ↦
        let n = total_warps num_warps in
        rw more (
          ap (λ step. combine op (partials it.len n step e) (range_from 0 n) e)
            (filter-step p it.get_unchecked)
          ∙ warps-sum it.len num_warps (passed p it.get_unchecked)
          ∙ sym (foldl_kept-sum p it.get_unchecked 0 it.len e ∙ neutral_left op e m _))
  ]
