-- ===== src/Common.antt =====
-- The names that the other modules share: the libraries', passed on, and those of the children.
mod Tests
mod Lists
mod Texts
pub mod Bits
pub mod Assoc
pub mod Sort
pub mod Decimal
pub use Tests.*
pub use Lists.*
pub use Texts.{Text, text, is_empty, has_prefix, drop_prefix, join_with, is_space, Lacks}
unfoldable pub use Texts.{text_eq, split_at_byte, fields_func, trim_right_by, trim_left_by}
unfoldable pub use Texts.{trim_space}
pub use Texts.{text_eq_iff, text_eq_refl, text_eq-of_ne}
pub use Texts.{split_at_byte-append, split_at_byte-Lacks}
pub use Prim.Native.Nat.{ℕ, zero, suc, ◌+◌, ◌-◌, ◌*◌, ◌/◌, ◌%◌, ◌^◌, ◌≤◌, ◌<◌, bit_and, bit_or}
pub use mathlib.Core.Path.{◌≡◌, refl, sym, ap, ap₂, subst, ◌∙◌}
pub use mathlib.Core.Logic.{◌≢◌, ◌↔◌, ◌⊎◌, inl, inr}
pub use mathlib.Core.Bool.{Bool, true, false, ◌&&◌, ◌||◌, not}
pub use mathlib.Core.Option.{Option, none, some}
pub use mathlib.Core.List.{List, [], ◌∷◌, ◌++◌, map, append-nil, append_assoc}
pub use native.Mathlib.Omega.{arith}
