-- ===== src/Prelude.antt =====
-- The names that the other modules share: those of the libraries, passed on, and the tests, lists
-- and maps of the children. Rust's fixed-width integers are native numbers throughout.
mod Tests
mod Lists
mod Words
mod Regions
mod Bytes
mod Monad
pub use Tests.*
pub use Lists.*
pub use Words.*
unfoldable pub use Regions.{write_from, read_from}
pub use Regions.{
  write_from-append, read_from-append, write_from_out, read_from-write_from_out,
  read_from-write_from, read_from-write_from_len, length-read_from,
}
unfoldable pub use Bytes.{write_u64, write_u32, write_u16, read_u64, read_u32}
pub use Bytes.{
  read_u64-write_u64, read_u64_cong, read_u64-write_from_out, read_u32-write_u32,
  read_u32-write_from_out, read_from-write_u32, read_u32-write_u32_out, read_u64-write_u64_out,
  read_u64-write_u32_out,
}
pub use Monad.*
pub use Prim.Native.Nat.{ℕ, zero, suc, ◌+◌, ◌-◌, ◌*◌, ◌/◌, ◌%◌, ◌^◌, ◌≤◌, ◌<◌, min}
pub use mathlib.Core.Path.{◌≡◌, refl, sym, ap, ap₂, ◌∙◌, fun_ext, subst}
pub use mathlib.Core.Logic.{◌≢◌, ◌↔◌, ◌⊎◌, inl, inr}
pub use mathlib.Core.Bool.{Bool, true, false, not, ◌&&◌, ◌||◌}
pub use mathlib.Core.Option.{Option, none, some}
pub use mathlib.Core.List.{List, [], ◌∷◌, ◌++◌, map, append-nil, append_assoc}
pub use native.Mathlib.Omega.{arith}
unfoldable pub use native.Mathlib.Decide.{dec_lt, ℕ_discrete}
