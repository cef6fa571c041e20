-- ===== src/Base.antt =====
-- What the models of all packages share: names of the libraries, passed on, and the children's.
-- The children model what the Go code uses of its language and standard library.
pub mod Compare
pub mod Lists
pub mod Text
pub mod Assoc
pub mod Errors
pub mod Strings
pub mod Decimal
pub mod Slices
pub use Compare.*
pub use Lists.*
unfoldable pub use Text.*
pub use Prim.Native.Nat.{ℕ, zero, suc, ◌+◌, ◌-◌, ◌*◌, ◌/◌, ◌%◌, ◌^◌, ◌≤◌, ◌<◌}
pub use mathlib.Core.Path.{◌≡◌, refl, sym, ap, subst, ap₂, ◌∙◌, fun_ext}
pub use mathlib.Core.Logic.{◌≢◌, ◌↔◌, ◌⊎◌, inl, inr}
pub use mathlib.Core.Bool.{Bool, true, false, not, ◌&&◌, ◌||◌}
pub use mathlib.Core.Option.{Option, none, some}
pub use mathlib.Core.List.{List, [], ◌∷◌, ◌++◌, append-nil, append_assoc}
pub use native.Mathlib.Omega.{arith}
unfoldable pub use Assoc.*
pub use Errors.*
unfoldable pub use Strings.*
unfoldable pub use Decimal.*
pub use Slices.*
