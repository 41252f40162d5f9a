-- ===== src/Collections.antt =====
-- crates/core/gpu-runtime/src/collections.rs: GpuHashMap, open addressing with linear probing in two
-- arrays of N slots. Key 0 marks a free slot, and nothing is ever removed.
pub mod Probe
pub mod Laws
pub mod Hash
pub mod Map
pub mod Full
pub mod Race
use async_gpu.Prelude.{
  ℕ, zero, suc, ◌+◌, ◌-◌, ◌*◌, ◌/◌, ◌%◌, ◌^◌, Bool, true, false, ◌==◌, ltb, if◌then◌else◌, Option,
  none, some, update, u32, wrapping_add,
}

abbrev pub empty_key : ℕ
empty_key = 0

-- The arrays are maps from the index.
pub record GpuHashMap : Type 0 where
  pub keys : ℕ → ℕ
  pub values : ℕ → ℕ
  pub len : ℕ

-- The loop over the slots.
unfoldable pub init_slots : ℕ → GpuHashMap → GpuHashMap
init_slots zero m = m
init_slots (suc i) m =
    let m' = init_slots i m in
    record m' { keys = update m'.keys i empty_key; values = update m'.values i 0 }

unfoldable pub init : ℕ → GpuHashMap → GpuHashMap
unfolding init_slots
init capacity m = record (init_slots capacity m) { len = 0 }

-- The loop of `log2_n`, on fuel.
unfoldable pub log2_loop : ℕ → ℕ → ℕ → ℕ
log2_loop zero n log = log
log2_loop (suc fuel) n log =
    let rest = log2_loop fuel (n / 2) (log + 1) in if ltb 1 n then rest else log

unfoldable pub log2_n : ℕ → ℕ
unfolding log2_loop
log2_n capacity = log2_loop capacity capacity 0

-- The shift by 32 of a map with one slot, which Rust refuses, is not told apart.
unfoldable pub hash : ℕ → ℕ → ℕ
unfolding log2_n
hash capacity key = u32 (key * 0x9E3779B9) / 2 ^ (32 - log2_n capacity)

abbrev pub set_value : ℕ → ℕ → GpuHashMap → GpuHashMap
set_value idx value m = record m { values = update m.values idx value }

-- The slot that the compare-and-swap won: its key, its value, and the count.
abbrev pub fill_slot : ℕ → ℕ → ℕ → GpuHashMap → GpuHashMap
fill_slot idx key value m = record m {
  keys = update m.keys idx key;
  values = update m.values idx value;
  len = wrapping_add m.len 1;
}

-- The loop of `insert` with `left` rounds to go. `others left` is what other threads do between the
-- read of a free slot's key and the compare-and-swap of that round.
unfoldable pub insert_loop :
    (ℕ → GpuHashMap → GpuHashMap) → ℕ → ℕ → ℕ → ℕ → ℕ → GpuHashMap → Bool × GpuHashMap
insert_loop others capacity zero idx key value m = (false, m)
insert_loop others capacity (suc left) idx key value m =
    let slot_key = m.keys idx in
    let m' = if slot_key == empty_key then others left m else m in
    let old = m'.keys idx in
    let rest = insert_loop others capacity left ((idx + 1) % capacity) key value m' in
    if slot_key == key
    then (true, set_value idx value m)
    else if slot_key == empty_key
    then if old == empty_key
      then (true, fill_slot idx key value m')
      else if old == key
      then (true, set_value idx value m')
      else rest
    else rest

unfoldable pub insert : (ℕ → GpuHashMap → GpuHashMap) → ℕ → ℕ → ℕ → GpuHashMap → Bool × GpuHashMap
unfolding insert_loop hash
insert others capacity key value m =
    if key == empty_key
    then (false, m)
    else insert_loop others capacity capacity (hash capacity key) key value m

unfoldable pub get_loop : ℕ → ℕ → ℕ → ℕ → GpuHashMap → Option ℕ
get_loop capacity zero idx key m = none
get_loop capacity (suc left) idx key m =
    let slot_key = m.keys idx in
    let rest = get_loop capacity left ((idx + 1) % capacity) key m in
    if slot_key == key then some (m.values idx) else if slot_key == empty_key then none else rest

unfoldable pub get : ℕ → ℕ → GpuHashMap → Option ℕ
unfolding get_loop hash
get capacity key m =
    if key == empty_key then none else get_loop capacity capacity (hash capacity key) key m

unfoldable pub contains_key : ℕ → ℕ → GpuHashMap → Bool
unfolding get
contains_key capacity key m = elim (get capacity key m) [ some v ↦ true | none ↦ false ]
