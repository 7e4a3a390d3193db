-- ===== src/Base.antt =====
-- Names that the other modules share: the libraries', passed on, and the shared helpers of the
-- children (tests and conditionals, lists, dictionaries, text).
mod Tests
mod Lists
mod Dicts
mod Results
mod Bytes
mod Sorts
mod Members
mod Texts
pub mod Utf8
pub mod Xor
pub use Tests.*
pub use Lists.*
pub use Sorts.*
pub use Members.*
pub use Dicts.*
unfoldable pub use Texts.*
pub use Results.*
unfoldable pub use Bytes.*
pub use Prim.Native.Nat.{
  ℕ, zero, suc, ◌+◌, ◌-◌, ◌*◌, ◌/◌, ◌%◌, ◌^◌, ◌≤◌, ◌<◌, min, max, bit_and, bit_or, bit_xor,
}
pub use Prim.Native.String.{String, ◌++◌ as join}
pub use mathlib.Core.Path.{◌≡◌, refl, sym, ap, ap₂, ◌∙◌, subst}
pub use mathlib.Core.Logic.{◌≢◌, ◌↔◌, ◌⊎◌, inl, inr}
pub use mathlib.Core.Bool.{Bool, true, false, not, ◌&&◌, ◌||◌}
pub use mathlib.Core.Option.{Option, none, some}
pub use mathlib.Core.List.{List, [], ◌∷◌, ◌++◌, map, append-nil, append_assoc}
pub use native.Mathlib.Omega.{arith}
pub use text.Mathlib.Text.{◌==◌ as str_eq}
pub use text.Mathlib.TextEquality.{eq_iff}
pub use text.Mathlib.TextPositions.{eq_refl}
