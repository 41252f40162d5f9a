-- ===== src/Tuner.antt =====
-- The occupancy report and the tuner of block sizes: occupancy and register targets here, from
-- crates/core/gpu-host/src/resource_report.rs, and the search and its cache in Search.
pub mod Search
pub mod Target
pub mod Median
pub mod Best
pub mod Cached
use async_gpu.Prelude.{
  ℕ, zero, suc, ◌+◌, ◌*◌, ◌/◌, ◌==◌, ltb, leb, if◌then◌else◌, Bool, ◌||◌, Option, none, some, min,
  u32, div_ceil,
}

-- The fields of `SmConfig` that the calculation reads.
pub record SmConfig : Type 0 where
  pub regs_per_sm : ℕ
  pub max_threads_per_sm : ℕ
  pub max_blocks_per_sm : ℕ
  pub warp_size : ℕ
  pub reg_alloc_granularity : ℕ

unfoldable pub sm_75 : SmConfig
sm_75 = record {
  regs_per_sm = 65536;
  max_threads_per_sm = 1024;
  max_blocks_per_sm = 16;
  warp_size = 32;
  reg_alloc_granularity = 256;
}

pub data OccupancyLevel : Type 0 where
  ok warn critical : OccupancyLevel

unfoldable pub from_percentage : ℕ → OccupancyLevel
from_percentage pct =
    if ltb pct 25
    then OccupancyLevel.critical
    else if ltb pct 50
    then OccupancyLevel.warn
    else OccupancyLevel.ok

-- The counts of `KernelResources` that are used.
pub record KernelResources : Type 0 where
  pub registers : ℕ
  pub spill_stores : ℕ
  pub spill_loads : ℕ

unfoldable pub has_spills : KernelResources → Bool
has_spills k = ltb 0 k.spill_stores || ltb 0 k.spill_loads

-- The products are of u32 numbers and wrap. A division by zero panics, which is `none`.
unfoldable pub occupancy : KernelResources → SmConfig → ℕ → Option ℕ
occupancy k sm block_size =
    let regs_per_warp : ℕ = u32 (k.registers * sm.warp_size) in
    let regs_per_warp_alloc : ℕ =
      u32 (div_ceil regs_per_warp sm.reg_alloc_granularity * sm.reg_alloc_granularity) in
    let warps_per_block : ℕ = div_ceil block_size sm.warp_size in
    let max_warps_by_regs : ℕ = sm.regs_per_sm / regs_per_warp_alloc in
    let max_blocks : ℕ = min (max_warps_by_regs / warps_per_block) sm.max_blocks_per_sm in
    let active_threads : ℕ = min (u32 (max_blocks * block_size)) sm.max_threads_per_sm in
    if (k.registers == 0) || (block_size == 0)
    then some 100
    else if (sm.reg_alloc_granularity == 0)
        || (sm.warp_size == 0)
        || (regs_per_warp_alloc == 0)
        || (sm.max_threads_per_sm == 0)
    then none
    else some (u32 (active_threads * 100) / sm.max_threads_per_sm)

abbrev pub with_registers : ℕ → KernelResources
with_registers regs = record { registers = regs; spill_stores = 0; spill_loads = 0 }

-- A round of the loop: the search is over, or goes on.
abbrev pub target_step : ℕ → ℕ → Option ℕ → Option (Option (ℕ × ℕ)) → Option (Option (ℕ × ℕ))
target_step target_occ regs none rest = none
target_step target_occ regs (some occ) rest =
    if leb target_occ occ then some (some (regs, occ)) else rest

-- `for regs in (1..=regs).rev()`; the outer `none` is a panic.
unfoldable pub target_loop : SmConfig → ℕ → ℕ → ℕ → Option (Option (ℕ × ℕ))
unfolding occupancy
target_loop sm block_size target_occ zero = some none
target_loop sm block_size target_occ (suc regs) =
    target_step target_occ (suc regs) (occupancy (with_registers (suc regs)) sm block_size)
      (target_loop sm block_size target_occ regs)

unfoldable pub next_occupancy_target_regs : SmConfig → ℕ → ℕ → Option (Option (ℕ × ℕ))
next_occupancy_target_regs sm block_size current_occ =
    let target_occ : ℕ = u32 ((current_occ / 25 + 1) * 25) in
    if ltb 100 target_occ then some none else target_loop sm block_size target_occ 255
