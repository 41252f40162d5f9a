-- ===== src/Scope/Fits.antt =====
-- Programs that fit: they do not panic, and their live blocks are apart.
use async_gpu.Prelude.{
  ℕ, ◌+◌, ◌-◌, ◌^◌, ◌<◌, ◌≤◌, ◌≡◌, refl, sym, subst, ltb, lt→ltb, le→ltb, List, [], ◌∷◌, ◌++◌,
  length, append-nil, false, All, some, update, u32, u64, arith,
}
use async_gpu.Scope.{max_scope_depth, align_up, SharedMemAllocator, init, push, pop, alloc_raw}
use async_gpu.Scope.Mask.{IsAlign-lt, align_up-lt}
use async_gpu.Scope.Live.{
  Block, Op, allocs, enters, leaves, Scopes, add_block, perform, perform_all, Apart, Nested, Sound,
  IsModest, Apart-le, Apart-mono, Apart-append,
}
use async_gpu.Scope.Moves.{perform-Sound}

-- The live blocks of all open scopes, the newest first.
abbrev pub live : List (List Block) → List Block
live [] = []
live (f ∷ fs) = f ++ live fs

live-Apart :
    (high : ℕ) (stack : ℕ → ℕ) (fs : List (List Block))
    → Nested high stack fs
    → Apart 0 high (live fs)
live-Apart high stack [] h = absurd h
live-Apart high stack (f ∷ []) h = subst (Apart 0 high) (sym (append-nil f)) h
live-Apart high stack (f ∷ g ∷ fs) h =
    Apart-append 0 (stack (length fs)) high f (live (g ∷ fs)) h.0
      (live-Apart (stack (length fs)) stack (g ∷ fs) h.1)

-- The bytes that a program asks for at most, with the gaps that alignment leaves.
abbrev pub demand : List Op → ℕ
demand [] = 0
demand (allocs size align ∷ ops) = size + align + demand ops
demand (enters ∷ ops) = demand ops
demand (leaves ∷ ops) = demand ops

-- At depth `d`, at most four scopes are open at a time and none is left that was not entered.
abbrev pub IsBalanced : ℕ → List Op → Type 0
IsBalanced d [] = Unit
IsBalanced d (allocs size align ∷ ops) = IsBalanced d ops
IsBalanced d (enters ∷ ops) = (d < max_scope_depth) × IsBalanced (d + 1) ops
IsBalanced d (leaves ∷ ops) = (0 < d) × IsBalanced (d - 1) ops

-- An operation that returns, with room for the rest of the program.
abbrev Returns : Op → List Op → Scopes → Type 0
Returns op ops s =
    (s' : Scopes) × (perform op s ≡ some s')
    × (s'.0.watermark + demand ops ≤ s'.0.capacity)
    × IsBalanced s'.0.depth ops

module _ (ops : List Op) where
  allocs-Returns :
      (size align : ℕ) (a : SharedMemAllocator) (fs : List (List Block))
      → IsModest (allocs size align)
      → a.capacity < 2 ^ 32
      → a.watermark + (size + align + demand ops) ≤ a.capacity
      → IsBalanced a.depth ops
      → Returns (allocs size align) ops (a, fs)
  unfolding perform alloc_raw
  allocs-Returns size align a fs ok small room balanced =
      let up = align_up a.watermark align in
      let low : a.watermark < 2 ^ 32 = omega arith in
      let aligned = IsAlign-lt align ok.0 in
      let below = align_up-lt a.watermark align ok.0 low in
      let whole : u64 (up + size) ≡ up + size = omega arith in
      let fits : ltb a.capacity (u64 (up + size)) ≡ false =
        le→ltb a.capacity (u64 (up + size)) (omega arith) in
      (
        (
          record a { watermark = u32 (u64 (up + size)) },
          add_block (record { offset = u32 up; size = size; align = align }) fs,
        ),
        rw fits refl,
        omega (arith, whole),
        balanced,
      )

  enters-Returns :
      (a : SharedMemAllocator) (fs : List (List Block))
      → a.watermark + demand ops ≤ a.capacity
      → a.depth < max_scope_depth
      → IsBalanced (a.depth + 1) ops
      → Returns enters ops (a, fs)
  unfolding perform push
  enters-Returns a fs room deep balanced = (
    (record a { stack = update a.stack a.depth a.watermark; depth = a.depth + 1 }, [] ∷ fs),
    rw (lt→ltb _ _ deep) refl,
    room,
    balanced,
  )

  -- The mark of the scope that is left is not above the watermark.
  leaves-Returns :
      (capacity : ℕ) (a : SharedMemAllocator) (fs : List (List Block))
      → Sound capacity (a, fs)
      → a.watermark + demand ops ≤ a.capacity
      → 0 < a.depth
      → IsBalanced (a.depth - 1) ops
      → Returns leaves ops (a, fs)
  unfolding perform pop
  leaves-Returns capacity a [] h room open_scope balanced = absurd h.nested
  leaves-Returns capacity a (f ∷ []) h room open_scope balanced = absurd (omega (arith, h.depth))
  leaves-Returns capacity a (f ∷ g ∷ fs) h room open_scope balanced =
      let at : length fs ≡ a.depth - 1 = omega (arith, h.depth) in
      let low : a.stack (a.depth - 1) ≤ a.watermark =
        subst (λ n. a.stack n ≤ a.watermark) at (Apart-le f h.nested.0) in
      (
        (record a { depth = a.depth - 1; watermark = a.stack (a.depth - 1) }, g ∷ fs),
        rw (lt→ltb _ _ open_scope) refl,
        omega (arith, low),
        balanced,
      )

perform-Returns :
    (op : Op) (ops : List Op) (capacity : ℕ) (s : Scopes)
    → IsModest op
    → Sound capacity s
    → capacity < 2 ^ 32
    → s.0.watermark + demand (op ∷ ops) ≤ s.0.capacity
    → IsBalanced s.0.depth (op ∷ ops)
    → Returns op ops s
perform-Returns (allocs size align) ops capacity (a, fs) ok h small room balanced =
    allocs-Returns ops size align a fs ok (omega (arith, h.same)) room balanced
perform-Returns enters ops capacity (a, fs) ok h small room balanced =
    enters-Returns ops a fs room balanced.0 balanced.1
perform-Returns leaves ops capacity (a, fs) ok h small room balanced =
    leaves-Returns ops capacity a fs h room balanced.0 balanced.1

perform_all_returns :
    (ops : List Op) (capacity : ℕ) (s : Scopes)
    → All IsModest ops
    → Sound capacity s
    → capacity < 2 ^ 32
    → s.0.watermark + demand ops ≤ s.0.capacity
    → IsBalanced s.0.depth ops
    → (s' : Scopes) × (perform_all ops s ≡ some s') × Sound capacity s'
unfolding perform_all
perform_all_returns [] capacity s ok h small room balanced = (s, refl, h)
perform_all_returns (op ∷ ops) capacity s ok h small room balanced =
    let (t, first, room', balanced') =
      perform-Returns op ops capacity s ok.0 h small room balanced in
    let h' = perform-Sound capacity small op s t ok.0 h first in
    let (s', rest, sound) = perform_all_returns ops capacity t ok.1 h' small room' balanced' in
    (s', rw (first, rest) refl, sound)

-- After init with a capacity below 2^32, allocations and entries and exits of scopes, with alignments
-- that are powers of two below 2^32 and sizes below 2^63, that together ask for at most the capacity
-- and open at most four scopes at a time: none of them panics, and the live blocks, those of the
-- scopes that are still open, are aligned, lie behind each other in the order in which they were
-- granted, and end inside the capacity, so no two overlap.
pub live_blocks-Apart :
    (capacity : ℕ) (a : SharedMemAllocator) (ops : List Op)
    → capacity < 2 ^ 32
    → All IsModest ops
    → demand ops ≤ capacity
    → IsBalanced 0 ops
    → (s : Scopes) × (perform_all ops (init capacity a, [] ∷ []) ≡ some s)
      × Apart 0 capacity (live s.1)
unfolding init
live_blocks-Apart capacity a ops small ok room balanced =
    let start : Scopes = (init capacity a, [] ∷ []) in
    let first : Sound capacity start = record {
      nested = omega arith;
      depth = refl;
      within = omega arith;
      same = refl;
    } in
    let (s, ran, h) =
      perform_all_returns ops capacity start ok first small (omega arith) balanced in
    (
      s,
      ran,
      Apart-mono 0 s.0.watermark capacity (live s.1) h.within
          (live-Apart s.0.watermark s.0.stack s.1 h.nested),
    )
