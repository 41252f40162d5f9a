-- ===== src/Protocol/Tagged.antt =====
-- crates/core/gpu-protocol/src/lib.rs: tagged pointers, the heads and links of the packet stacks.
-- A tagged pointer is a u64: `tag << 32 | index` joins disjoint bits, so it is a sum here.
use async_gpu.Prelude.{ℕ, ◌+◌, ◌*◌, ◌/◌, ◌^◌, ◌<◌, ◌≡◌, arith, u16, u32}

abbrev pub null_index : ℕ
null_index = 0xFFFF

unfoldable pub tagged_index : ℕ → ℕ
tagged_index tagged = u16 tagged

unfoldable pub tagged_tag : ℕ → ℕ
tagged_tag tagged = u32 (tagged / 2 ^ 32)

unfoldable pub make_tagged : ℕ → ℕ → ℕ
make_tagged tag index = tag * 2 ^ 32 + index

unfoldable pub null_tagged : ℕ
unfolding make_tagged
null_tagged = make_tagged 0 null_index

-- A tagged pointer made of a u32 tag and a u16 index fits a u64 and gives both back.
pub make_tagged_fields :
    (tag index : ℕ)
    → tag < 2 ^ 32
    → index < 2 ^ 16
    → (tagged_index (make_tagged tag index) ≡ index)
      × (tagged_tag (make_tagged tag index) ≡ tag)
      × (make_tagged tag index < 2 ^ 64)
unfolding tagged_index tagged_tag make_tagged
make_tagged_fields tag index h k = omega arith

-- The index alone needs no bound on the tag.
pub tagged_index-make_tagged :
    (tag index : ℕ) → index < 2 ^ 16 → tagged_index (make_tagged tag index) ≡ index
unfolding tagged_index make_tagged
tagged_index-make_tagged tag index h = omega arith

pub tagged_tag-make_tagged :
    (tag index : ℕ) → tag < 2 ^ 32 → index < 2 ^ 16 → tagged_tag (make_tagged tag index) ≡ tag
unfolding tagged_tag make_tagged
tagged_tag-make_tagged tag index h k = omega arith

pub tagged_index-null_tagged : tagged_index null_tagged ≡ null_index
unfolding tagged_index null_tagged
tagged_index-null_tagged = omega arith

pub tagged_tag-lt : (tagged : ℕ) → tagged_tag tagged < 2 ^ 32
unfolding tagged_tag
tagged_tag-lt tagged = omega arith
