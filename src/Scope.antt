-- ===== src/Scope.antt =====
-- crates/core/gpu-runtime/src/scope.rs: the bump allocators of the scopes. A panic is `none`. Sums
-- wrap, as they do in a release build.
pub mod Mask
pub mod Live
pub mod Moves
pub mod Fits
use async_gpu.Prelude.{
  ℕ, zero, suc, ◌+◌, ◌-◌, ◌*◌, ◌/◌, ◌%◌, ◌^◌, ◌==◌, ltb, if◌then◌else◌, Option, none, some, update,
  u32, u64,
}

abbrev pub max_scope_depth : ℕ
max_scope_depth = 4

-- `x & !m` on so many bits.
unfoldable pub and_not : ℕ → ℕ → ℕ → ℕ
and_not zero x m = 0
and_not (suc w) x m = 2 * and_not w (x / 2) (m / 2) + (if m % 2 == 0 then x % 2 else 0)

-- `(offset + align - 1) & !(align - 1)`
unfoldable pub align_up : ℕ → ℕ → ℕ
align_up offset align =
    and_not 64 (u64 (u64 (offset + align) + (2 ^ 64 - 1))) (u64 (align + (2 ^ 64 - 1)))

pub record SharedMemAllocator : Type 0 where
  pub watermark : ℕ
  pub stack : ℕ → ℕ
  pub depth : ℕ
  pub capacity : ℕ

unfoldable pub uninit : SharedMemAllocator
uninit = record { watermark = 0; stack = λ i. 0; depth = 0; capacity = 0 }

unfoldable pub init : ℕ → SharedMemAllocator → SharedMemAllocator
init capacity a = record a { watermark = 0; depth = 0; capacity = capacity }

unfoldable pub push : SharedMemAllocator → Option (ℕ × SharedMemAllocator)
push a =
    if ltb a.depth max_scope_depth
    then some
        (a.watermark, record a { stack = update a.stack a.depth a.watermark; depth = a.depth + 1 })
    else none

unfoldable pub pop : SharedMemAllocator → Option SharedMemAllocator
pop a =
    if ltb 0 a.depth
    then some (record a { depth = a.depth - 1; watermark = a.stack (a.depth - 1) })
    else none

unfoldable pub alloc_raw : ℕ → ℕ → SharedMemAllocator → Option ℕ × SharedMemAllocator
unfolding align_up
alloc_raw size align a =
    let aligned : ℕ = align_up a.watermark align in
    let new_watermark : ℕ = u64 (aligned + size) in
    if ltb a.capacity new_watermark
    then (none, a)
    else (some (u32 aligned), record a { watermark = u32 new_watermark })

unfoldable pub available : SharedMemAllocator → ℕ
available a = a.capacity - a.watermark
