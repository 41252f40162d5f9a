-- ===== src/Prelude/Regions.antt =====
-- Regions of memory as maps from an index: a copy loop writes a list from an index on, and a read
-- loop collects the list back.
use Prim.Native.Nat.{ℕ, zero, suc, ◌+◌, ◌≤◌, ◌<◌}
use mathlib.Core.Path.{◌≡◌, refl, ap, ap₂, ◌∙◌}
use mathlib.Core.Logic.{◌⊎◌, inl}
use mathlib.Core.List.{List, [], ◌∷◌, ◌++◌}
use native.Mathlib.Omega.{arith}
use async_gpu.Prelude.Lists.{length, update, update_self, update_ne}

module _ {ℓ} {A : Type ℓ} where
  -- `for x in xs { region[i] = x; i += 1 }`
  unfoldable pub write_from : (ℕ → A) → ℕ → List A → ℕ → A
  write_from f i [] = f
  write_from f i (x ∷ xs) = write_from (update f i x) (suc i) xs

  -- `region[i..i + n]`
  unfoldable pub read_from : (ℕ → A) → ℕ → ℕ → List A
  read_from f i zero = []
  read_from f i (suc n) = f i ∷ read_from f (suc i) n

  pub write_from_out :
      (f : ℕ → A) (i : ℕ) (xs : List A) (j : ℕ)
      → (j < i) ⊎ (i + length xs ≤ j)
      → write_from f i xs j ≡ f j
  unfolding write_from
  write_from_out f i [] j h = refl
  write_from_out f i (x ∷ xs) j h =
      write_from_out (update f i x) (suc i) xs j (omega arith) ∙ update_ne f i j x (omega arith)

  -- What is read back is what was written.
  pub read_from-write_from :
      (f : ℕ → A) (i : ℕ) (xs : List A) → read_from (write_from f i xs) i (length xs) ≡ xs
  unfolding write_from read_from
  read_from-write_from f i [] = refl
  read_from-write_from f i (x ∷ xs) =
      ap₂ ◌∷◌ (write_from_out (update f i x) (suc i) xs i (inl (omega arith)) ∙ update_self f i x)
        (read_from-write_from (update f i x) (suc i) xs)

  -- A read does not see what is written elsewhere.
  pub read_from-write_from_out :
      (f : ℕ → A) (i n j : ℕ) (xs : List A)
      → (i + n ≤ j) ⊎ (j + length xs ≤ i)
      → read_from (write_from f j xs) i n ≡ read_from f i n
  unfolding read_from
  read_from-write_from_out f i zero j xs h = refl
  read_from-write_from_out f i (suc n) j xs h =
      ap₂ ◌∷◌ (write_from_out f j xs i (omega arith))
        (read_from-write_from_out f (suc i) n j xs (omega arith))

  pub length-read_from : (f : ℕ → A) (i n : ℕ) → length (read_from f i n) ≡ n
  unfolding read_from
  length-read_from f i zero = refl
  length-read_from f i (suc n) = ap suc (length-read_from f (suc i) n)

  pub read_from-write_from_len :
      (f : ℕ → A) (i n : ℕ) (xs : List A) → n ≡ length xs → read_from (write_from f i xs) i n ≡ xs
  read_from-write_from_len f i n xs e = rw e (read_from-write_from f i xs)

  -- Two writes one behind the other, and a read of two parts.
  pub write_from-append :
      (f : ℕ → A) (i j : ℕ) (xs ys : List A)
      → j ≡ i + length xs
      → write_from (write_from f i xs) j ys ≡ write_from f i (xs ++ ys)
  unfolding write_from
  write_from-append f i j [] ys e = ap (λ k. write_from f k ys) (omega arith)
  write_from-append f i j (x ∷ xs) ys e =
      write_from-append (update f i x) (suc i) j xs ys (omega arith)

  pub read_from-append :
      (f : ℕ → A) (i : ℕ) (xs ys : List A)
      → read_from f i (length (xs ++ ys))
        ≡ read_from f i (length xs) ++ read_from f (i + length xs) (length ys)
  unfolding read_from
  read_from-append f i [] ys = ap (λ k. read_from f k (length ys)) (omega arith)
  read_from-append f i (x ∷ xs) ys =
      ap (λ l. f i ∷ l)
        (read_from-append f (suc i) xs ys
          ∙ ap (λ k. read_from f (suc i) (length xs) ++ read_from f k (length ys)) (omega arith))
