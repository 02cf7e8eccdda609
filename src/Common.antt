-- ===== src/Common.antt =====
-- The names that the other modules share: the libraries', passed on, and those of the children.
mod Tests
mod Texts
mod Lists
mod Substrings
pub mod Outcome
pub mod Grpc
pub use Tests.*
unfoldable pub use Texts.{Text, codes, text_eq, is_truthy, is_space, lstrip, strip, is_blank}
pub use Texts.{text_eq_iff, text_eq_refl}
unfoldable pub use Lists.{length, take, filter, any, all, All, contains, get_elem?}
pub use Lists.{get_elem?-append, length-append, length-take-le}
pub use Lists.{All-imply, All-filter, All-append, All-map}
unfoldable pub use Substrings.{starts_with, ends_with, is_substring, join}
pub use Substrings.{starts_with-append, is_substring-append}
pub use Prim.Native.Nat.{ℕ, zero, suc, ◌+◌, ◌-◌, ◌*◌, ◌/◌, ◌%◌, ◌≤◌, ◌<◌, min, max}
pub use mathlib.Core.Path.{◌≡◌, refl, sym, ap, ◌∙◌}
pub use mathlib.Core.Logic.{◌≢◌, ◌↔◌, ◌⊎◌, inl, inr}
pub use mathlib.Core.Bool.{Bool, true, false, not, ◌&&◌, ◌||◌}
pub use mathlib.Core.Option.{Option, none, some}
pub use mathlib.Core.List.{List, [], ◌∷◌, ◌++◌, map, reverse, append-nil, append_assoc}
pub use native.Mathlib.Omega.{arith}
