-- ===== src/Common.antt =====
-- Names that the other modules share: the library's, passed on, and those of the children.
-- `Text` reads std::string as its list of bytes; `Lists` holds lists over the native numbers.
mod Tests
mod Text
mod Lists
mod Keys
pub use Tests.*
unfoldable pub use Text.{◌==◌}
pub use Text.{Bytes, codes, text, ==_iff, ==_refl, ==_false, ==_apart, IsText-set, text_discrete}
unfoldable pub use Lists.*
pub use Keys.*
pub use Prim.Native.Nat.{ℕ, zero, suc, ◌+◌, ◌-◌, ◌*◌, ◌%◌, ◌^◌, ◌≤◌, ◌<◌}
pub use Prim.Native.String.{String}
pub use mathlib.Core.Path.{◌≡◌, refl, sym, ap, ◌∙◌, subst}
pub use mathlib.Core.Logic.{◌≢◌, ◌↔◌, ◌⊎◌, inl, inr}
pub use mathlib.Core.Bool.{Bool, true, false, not, ◌&&◌, ◌||◌}
pub use mathlib.Core.Option.{Option, none, some}
pub use mathlib.Core.List.{List, [], ◌∷◌, ◌++◌, map, append_assoc, append-nil}
pub use native.Mathlib.Omega.{arith}
