-- ===== src/Channel/Entries.antt =====
-- Lemmas on the entries of a list that grows at its end or has one entry replaced.
use async_gpu.Prelude.{
  ℕ, zero, suc, ◌<◌, ◌≤◌, ◌≡◌, ◌≢◌, refl, ap, List, [], ◌∷◌, ◌++◌, none, some, length, get_elem?,
  set, arith,
}

module _ {A : Type 0} where
  -- The cell past the end, where a claim goes.
  pub get_elem?-snoc_ne :
      (xs : List A) (x : A) (j : ℕ) → j ≢ length xs → get_elem? (xs ++ x ∷ []) j ≡ get_elem? xs j
  get_elem?-snoc_ne [] x zero ne = absurd (ne refl)
  get_elem?-snoc_ne [] x (suc j) ne = refl
  get_elem?-snoc_ne (y ∷ xs) x zero ne = refl
  get_elem?-snoc_ne (y ∷ xs) x (suc j) ne = get_elem?-snoc_ne xs x j (λ e. ne (ap suc e))

  pub get_elem?-snoc_self : (xs : List A) (x : A) → get_elem? (xs ++ x ∷ []) (length xs) ≡ some x
  get_elem?-snoc_self [] x = refl
  get_elem?-snoc_self (y ∷ xs) x = get_elem?-snoc_self xs x

  pub get_elem?-length : (xs : List A) → get_elem? xs (length xs) ≡ none
  get_elem?-length [] = refl
  get_elem?-length (y ∷ xs) = get_elem?-length xs

  pub get_elem?-set_ne :
      (xs : List A) (i j : ℕ) (x : A) → j ≢ i → get_elem? (set xs i x) j ≡ get_elem? xs j
  get_elem?-set_ne [] i j x ne = refl
  get_elem?-set_ne (y ∷ xs) zero zero x ne = absurd (ne refl)
  get_elem?-set_ne (y ∷ xs) zero (suc j) x ne = refl
  get_elem?-set_ne (y ∷ xs) (suc i) zero x ne = refl
  get_elem?-set_ne (y ∷ xs) (suc i) (suc j) x ne = get_elem?-set_ne xs i j x (λ e. ne (ap suc e))

  pub get_elem?-set_self :
      (xs : List A) (i : ℕ) (x : A) → i < length xs → get_elem? (set xs i x) i ≡ some x
  get_elem?-set_self [] i x h = absurd (omega (arith, h))
  get_elem?-set_self (y ∷ xs) zero x h = refl
  get_elem?-set_self (y ∷ xs) (suc i) x h = get_elem?-set_self xs i x (omega arith)

  pub get_elem?-some_lt : (xs : List A) (i : ℕ) {x : A} → get_elem? xs i ≡ some x → i < length xs
  get_elem?-some_lt [] i e = absurd (cc)
  get_elem?-some_lt (y ∷ xs) zero e = omega arith
  get_elem?-some_lt (y ∷ xs) (suc i) e = let h = get_elem?-some_lt xs i e in omega arith

  pub get_elem?-none : (xs : List A) (i : ℕ) → length xs ≤ i → get_elem? xs i ≡ none
  get_elem?-none [] i h = refl
  get_elem?-none (y ∷ xs) zero h = absurd (omega (arith, h))
  get_elem?-none (y ∷ xs) (suc i) h = get_elem?-none xs i (omega arith)

  pub set-snoc : (xs : List A) (x y : A) → set (xs ++ x ∷ []) (length xs) y ≡ xs ++ y ∷ []
  set-snoc [] x y = refl
  set-snoc (z ∷ xs) x y = ap (λ l. z ∷ l) (set-snoc xs x y)
