-- ===== src/Scope/Moves.antt =====
-- Each operation keeps the live blocks in order.
use async_gpu.Prelude.{
  ℕ, ◌+◌, ◌-◌, ◌%◌, ◌^◌, ◌<◌, ◌≤◌, ◌≡◌, sym, ap, ◌∙◌, subst, inl, inr, ltb, lt→ltb, le→ltb, ltb→le,
  Bool-cases, List, [], ◌∷◌, length, true, false, Option, none, some, update, update_self, u32, u64,
  arith,
}
use async_gpu.Scope.{max_scope_depth, align_up, SharedMemAllocator, push, pop, alloc_raw}
use async_gpu.Scope.Mask.{IsAlign-lt, le-align_up, align_up-lt, align_up-mod}
use async_gpu.Scope.Live.{
  Block, Op, allocs, enters, leaves, Scopes, perform, Nested, Sound, IsModest, Apart-le,
  Nested-update, Nested-add, length-add_block,
}

some_inj : {s s' : Scopes} → some s ≡ some s' → s ≡ s'
some_inj h = cc

none-ne-some : {A : Type 0} {s : Scopes} → ◌≡◌ {A = Option Scopes} none (some s) → A
none-ne-some h = cc

module _ (capacity : ℕ) (small : capacity < 2 ^ 32) where
  allocs-Sound :
      (size align : ℕ) (a : SharedMemAllocator) (fs : List (List Block)) (s' : Scopes)
      → IsModest (allocs size align)
      → Sound capacity (a, fs)
      → perform (allocs size align) (a, fs) ≡ some s'
      → Sound capacity s'
  unfolding perform alloc_raw
  allocs-Sound size align a fs s' ok h e =
      let up = align_up a.watermark align in
      let low : a.watermark < 2 ^ 32 = omega (arith, h.within) in
      let aligned = IsAlign-lt align ok.0 in
      let lo = le-align_up a.watermark align ok.0 low in
      let below = align_up-lt a.watermark align ok.0 low in
      elim (Bool-cases (ltb a.capacity (u64 (up + size)))) [
        | inl full ↦ none-ne-some (rw full at e)
        | inr room ↦
            let fits = ltb→le _ _ room in
            let whole : u64 (up + size) ≡ up + size = omega (arith, h.within) in
            let high : u32 (u64 (up + size)) ≡ up + size = omega (arith, h.same) in
            let place : u32 up ≡ up = omega (arith, h.same) in
            let b : Block = record { offset = u32 up; size = size; align = align } in
            subst (Sound capacity) (some_inj (rw room at e)) (record {
              nested =
                  Nested-add a.watermark (u32 (u64 (up + size))) a.stack b fs
                    (ap (λ n. n % align) place ∙ align_up-mod a.watermark align ok.0 low)
                    (omega arith) (omega arith) h.nested;
              depth = length-add_block b fs ∙ h.depth;
              within = omega (arith, h.same);
              same = h.same;
            })
      ]

  enters-Sound :
      (a : SharedMemAllocator) (fs : List (List Block)) (s' : Scopes)
      → Sound capacity (a, fs)
      → perform enters (a, fs) ≡ some s'
      → Sound capacity s'
  unfolding perform push
  enters-Sound a [] s' h e = absurd h.nested
  enters-Sound a (f ∷ fs) s' h e = elim (Bool-cases (ltb a.depth max_scope_depth)) [
    | inr deep ↦ none-ne-some (rw deep at e)
    | inl room ↦
        let at : length fs ≡ a.depth = omega (arith, h.depth) in
        let stack = update a.stack a.depth a.watermark in
        let mark : stack (length fs) ≡ a.watermark =
          rw at (update_self a.stack a.depth a.watermark) in
        let old =
          Nested-update a.watermark a.depth a.watermark a.stack (f ∷ fs) (omega arith) h.nested in
        subst (Sound capacity) (some_inj (rw room at e)) (record {
          nested = (omega (arith, mark), subst (λ m. Nested m stack (f ∷ fs)) (sym mark) old);
          depth = omega (arith, at);
          within = h.within;
          same = h.same;
        })
  ]

  leaves-Sound :
      (a : SharedMemAllocator) (fs : List (List Block)) (s' : Scopes)
      → Sound capacity (a, fs)
      → perform leaves (a, fs) ≡ some s'
      → Sound capacity s'
  unfolding perform pop
  leaves-Sound a [] s' h e = absurd h.nested
  leaves-Sound a (f ∷ []) s' h e =
      let flat : ltb 0 a.depth ≡ false = le→ltb 0 a.depth (omega (arith, h.depth)) in
      none-ne-some (rw flat at e)
  leaves-Sound a (f ∷ g ∷ fs) s' h e =
      let deep : ltb 0 a.depth ≡ true = lt→ltb 0 a.depth (omega (arith, h.depth)) in
      let at : length fs ≡ a.depth - 1 = omega (arith, h.depth) in
      let low = Apart-le f h.nested.0 in
      subst (Sound capacity) (some_inj (rw deep at e)) (record {
        nested = subst (λ n. Nested (a.stack n) a.stack (g ∷ fs)) at h.nested.1;
        depth = omega (arith, h.depth);
        within = subst (λ n. a.stack n ≤ capacity) at (omega (arith, low, h.within));
        same = h.same;
      })

  pub perform-Sound :
      (op : Op) (s s' : Scopes)
      → IsModest op
      → Sound capacity s
      → perform op s ≡ some s'
      → Sound capacity s'
  perform-Sound (allocs size align) (a, fs) s' ok h e = allocs-Sound size align a fs s' ok h e
  perform-Sound enters (a, fs) s' ok h e = enters-Sound a fs s' h e
  perform-Sound leaves (a, fs) s' ok h e = leaves-Sound a fs s' h e
