-- ===== src/Tuner/Median.antt =====
-- What the median of the measured times is, without a sort.
use async_gpu.Prelude.{
  ℕ, zero, suc, ◌*◌, ◌/◌, ◌<◌, ◌≤◌, ◌≡◌, refl, ap, ◌∙◌, subst, ltb, leb, if◌then◌else◌, Bool,
  Bool-cases, inl, inr, List, [], ◌∷◌, length, get_or, All, Option, none, some, map, range_from,
  arith,
}
use async_gpu.Tuner.Search.{insert, sort, median, measure, pushed}

abbrev pub count : (ℕ → Bool) → List ℕ → ℕ
count p [] = 0
count p (x ∷ xs) = let rest = count p xs in if p x then suc rest else rest

-- At most half of the times are less, and more than half are no greater.
abbrev pub IsMedian : ℕ → List ℕ → Type 0
IsMedian t times =
    (2 * count (λ x. ltb x t) times ≤ length times)
    × (length times < 2 * count (λ x. leb x t) times)

-- The runs that did not fail.
abbrev pub successes : List (Option ℕ) → List ℕ
successes [] = []
successes (none ∷ runs) = successes runs
successes (some t ∷ runs) = t ∷ successes runs

pub measure-successes :
    (bench : ℕ → Option ℕ) (n k : ℕ) → measure bench n k ≡ successes (map bench (range_from k n))
unfolding measure
measure-successes bench zero k = refl
measure-successes bench (suc n) k =
    ap (pushed (bench k)) (measure-successes bench n (suc k))
    ∙ pushed-successes (bench k) (map bench (range_from (suc k) n))
  where
    pushed-successes :
        (o : Option ℕ) (runs : List (Option ℕ)) → pushed o (successes runs) ≡ successes (o ∷ runs)
    pushed-successes none runs = refl
    pushed-successes (some t) runs = refl

count-insert : (p : ℕ → Bool) (x : ℕ) (xs : List ℕ) → count p (insert x xs) ≡ count p (x ∷ xs)
count-insert p x [] = refl
count-insert p x (y ∷ ys) = ground (arith, count-insert p x ys)

count-sort : (p : ℕ → Bool) (xs : List ℕ) → count p (sort xs) ≡ count p xs
unfolding sort
count-sort p [] = refl
count-sort p (x ∷ xs) = count-insert p x (sort xs) ∙ ground (arith, count-sort p xs)

length-insert : (x : ℕ) (xs : List ℕ) → length (insert x xs) ≡ suc (length xs)
length-insert x [] = refl
length-insert x (y ∷ ys) = ground (arith, length-insert x ys)

length-sort : (xs : List ℕ) → length (sort xs) ≡ length xs
unfolding sort
length-sort [] = refl
length-sort (x ∷ xs) = length-insert x (sort xs) ∙ ap suc (length-sort xs)

abbrev Ordered : List ℕ → Type 0
Ordered [] = Unit
Ordered (x ∷ xs) = All (λ y. x ≤ y) xs × Ordered xs

All-le : (x y : ℕ) (ys : List ℕ) → x ≤ y → All (λ z. y ≤ z) ys → All (λ z. x ≤ z) ys
All-le x y [] h k = tt
All-le x y (z ∷ zs) h k = (omega (arith, k.0), All-le x y zs h k.1)

All-insert : (b x : ℕ) (xs : List ℕ) → b ≤ x → All (λ y. b ≤ y) xs → All (λ y. b ≤ y) (insert x xs)
All-insert b x [] h k = (h, tt)
All-insert b x (y ∷ ys) h k = elim (Bool-cases (leb x y)) [
  | inl le ↦ rw le (h, k)
  | inr gt ↦ rw gt (k.0, All-insert b x ys h k.1)
]

insert-Ordered : (x : ℕ) (xs : List ℕ) → Ordered xs → Ordered (insert x xs)
insert-Ordered x [] h = (tt, tt)
insert-Ordered x (y ∷ ys) h = elim (Bool-cases (leb x y)) [
  | inl le ↦ let small : x ≤ y = ground arith in rw le ((small, All-le x y ys small h.0), h)
  | inr gt ↦
      let small : y ≤ x = ground arith in
      rw gt (All-insert y x ys small h.0, insert-Ordered x ys h.1)
]

sort-Ordered : (xs : List ℕ) → Ordered (sort xs)
unfolding sort
sort-Ordered [] = tt
sort-Ordered (x ∷ xs) = insert-Ordered x (sort xs) (sort-Ordered xs)

All-get_or : (b : ℕ) (xs : List ℕ) (i : ℕ) → All (λ y. b ≤ y) xs → i < length xs → b ≤ get_or xs i 0
All-get_or b [] i h lt = absurd (omega arith)
All-get_or b (x ∷ xs) zero h lt = h.0
All-get_or b (x ∷ xs) (suc i) h lt = All-get_or b xs i h.1 (omega arith)

count_none : (t : ℕ) (xs : List ℕ) → All (λ y. t ≤ y) xs → count (λ x. ltb x t) xs ≡ 0
count_none t [] h = refl
count_none t (x ∷ xs) h = ground (arith, h.0, count_none t xs h.1)

-- In order, the `i`-th has at most `i` less and more than `i` no greater.
rank :
    (xs : List ℕ) (i : ℕ)
    → Ordered xs
    → i < length xs
    → (count (λ x. ltb x (get_or xs i 0)) xs ≤ i) × (suc i ≤ count (λ x. leb x (get_or xs i 0)) xs)
rank [] i h lt = absurd (omega arith)
rank (x ∷ xs) zero h lt = let fewer = count_none x xs h.0 in (ground (arith, fewer), ground arith)
rank (x ∷ xs) (suc i) h lt =
    let (low, high) = rank xs i h.1 (omega arith) in
    let first = All-get_or x xs i h.0 (omega arith) in
    (ground (arith, low), ground (arith, high, first))

pub median-IsMedian : (times : List ℕ) (t : ℕ) → median times ≡ some t → IsMedian t times
unfolding median
median-IsMedian [] t e = absurd cc
median-IsMedian (x ∷ xs) t e =
    let times = x ∷ xs in
    let sorted = sort times in
    let same : get_or sorted (length sorted / 2) 0 ≡ t = cc in
    let size = length-sort times in
    let (low, high) = rank sorted (length sorted / 2) (sort-Ordered times) (omega (arith, size)) in
    subst (λ t. IsMedian t times) same
      (
        omega
            (arith, low, size, count-sort (λ y. ltb y (get_or sorted (length sorted / 2) 0)) times),
        omega (
          arith,
          high,
          size,
          count-sort (λ y. leb y (get_or sorted (length sorted / 2) 0)) times,
        ),
      )
