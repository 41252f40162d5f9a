-- ===== src/Scope/Live.antt =====
-- The blocks that are live in nested scopes.
use async_gpu.Prelude.{
  ℕ, ◌+◌, ◌%◌, ◌^◌, ◌<◌, ◌≤◌, ◌≡◌, refl, List, [], ◌∷◌, ◌++◌, length, Option, none, some, ◌>>=◌,
  update, update_ne, arith,
}
use async_gpu.Scope.Mask.{IsAlign}
use async_gpu.Scope.{SharedMemAllocator, push, pop, alloc_raw}

pub record Block : Type 0 where
  pub offset : ℕ
  pub size : ℕ
  pub align : ℕ

-- What the code of a scope does with the allocator.
pub data Op : Type 0 where
  allocs : (size align : ℕ) → Op
  enters : Op
  leaves : Op

-- The allocator, with the blocks that each open scope has got, the innermost scope and the newest
-- block first. Code reads the offsets that it was given and not this record of them.
abbrev pub Scopes : Type 0
Scopes = SharedMemAllocator × List (List Block)

abbrev pub add_block : Block → List (List Block) → List (List Block)
add_block b [] = []
add_block b (f ∷ fs) = (b ∷ f) ∷ fs

abbrev pub drop_scope : List (List Block) → List (List Block)
drop_scope [] = []
drop_scope (f ∷ fs) = fs

-- The `expect` on the offset panics.
abbrev pub granted : ℕ → ℕ → List (List Block) → Option ℕ × SharedMemAllocator → Option Scopes
granted size align fs (none, a) = none
granted size align fs (some offset, a) =
    some (a, add_block (record { offset = offset; size = size; align = align }) fs)

unfoldable pub perform : Op → Scopes → Option Scopes
perform (allocs size align) (a, fs) = granted size align fs (alloc_raw size align a)
perform enters (a, fs) = do (mark, a') ← push a; some (a', [] ∷ fs)
perform leaves (a, fs) = do a' ← pop a; some (a', drop_scope fs)

unfoldable pub perform_all : List Op → Scopes → Option Scopes
perform_all [] s = some s
perform_all (op ∷ ops) s = do s' ← perform op s; perform_all ops s'

-- Blocks, the newest first, that lie behind each other from `low` to `high` and are aligned.
abbrev pub Apart : ℕ → ℕ → List Block → Type 0
Apart low high [] = low ≤ high
Apart low high (b ∷ bs) =
    (b.offset % b.align ≡ 0) × (b.offset + b.size ≤ high) × Apart low b.offset bs

-- The blocks of each scope lie between the mark of the scope and that of the next, or the watermark.
abbrev pub Nested : ℕ → (ℕ → ℕ) → List (List Block) → Type 0
Nested high stack [] = ⊥
Nested high stack (f ∷ []) = Apart 0 high f
Nested high stack (f ∷ g ∷ fs) =
    Apart (stack (length fs)) high f × Nested (stack (length fs)) stack (g ∷ fs)

pub record Sound (capacity : ℕ) (s : Scopes) : Type 0 where
  pub nested : Nested s.0.watermark s.0.stack s.1
  pub depth : length s.1 ≡ s.0.depth + 1
  pub within : s.0.watermark ≤ capacity
  pub same : s.0.capacity ≡ capacity

-- Sizes and alignments as those of types, with no sum that reaches 2^64.
abbrev pub IsModest : Op → Type 0
IsModest (allocs size align) = IsAlign align × (size < 2 ^ 63)
IsModest enters = Unit
IsModest leaves = Unit

pub Apart-le : {low high : ℕ} (bs : List Block) → Apart low high bs → low ≤ high
Apart-le [] h = h
Apart-le (b ∷ bs) h = omega (arith, Apart-le bs h.2, h.1)

pub Apart-mono :
    (low high high' : ℕ) (bs : List Block) → high ≤ high' → Apart low high bs → Apart low high' bs
Apart-mono low high high' [] le h = omega (arith, h)
Apart-mono low high high' (b ∷ bs) le h = (h.0, omega (arith, h.1), h.2)

pub Apart-append :
    (low mid high : ℕ) (xs ys : List Block)
    → Apart mid high xs
    → Apart low mid ys
    → Apart low high (xs ++ ys)
Apart-append low mid high [] ys h k = Apart-mono low mid high ys h k
Apart-append low mid high (x ∷ xs) ys h k = (h.0, h.1, Apart-append low mid x.offset xs ys h.2 k)

-- A mark above those of the open scopes is not read.
pub Nested-update :
    (high i v : ℕ) (stack : ℕ → ℕ) (fs : List (List Block))
    → length fs ≤ i + 1
    → Nested high stack fs
    → Nested high (update stack i v) fs
Nested-update high i v stack [] le h = h
Nested-update high i v stack (f ∷ []) le h = h
Nested-update high i v stack (f ∷ g ∷ fs) le h =
    rw (update_ne stack i (length fs) v (omega arith))
      (h.0, Nested-update (stack (length fs)) i v stack (g ∷ fs) (omega arith) h.1)

-- The newest scope gets a block above the watermark.
pub Nested-add :
    (w high : ℕ) (stack : ℕ → ℕ) (b : Block) (fs : List (List Block))
    → b.offset % b.align ≡ 0
    → w ≤ b.offset
    → b.offset + b.size ≤ high
    → Nested w stack fs
    → Nested high stack (add_block b fs)
Nested-add w high stack b [] m lo hi h = h
Nested-add w high stack b (f ∷ []) m lo hi h = (m, hi, Apart-mono 0 w b.offset f lo h)
Nested-add w high stack b (f ∷ g ∷ fs) m lo hi h =
    ((m, hi, Apart-mono (stack (length fs)) w b.offset f lo h.0), h.1)

pub length-add_block : (b : Block) (fs : List (List Block)) → length (add_block b fs) ≡ length fs
length-add_block b [] = refl
length-add_block b (f ∷ fs) = refl
