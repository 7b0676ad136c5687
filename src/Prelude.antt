-- ===== src/Prelude.antt =====
-- The names that the other modules share: the libraries' and those of the children.
mod Tests
mod Lists
mod Strings
mod Maps
pub use Tests.*
pub use Lists.*
unfoldable pub use Lists.{keep}
pub use Strings.{Text, text_eq_refl, text_eq_iff, is_empty, trim_prefix-append, contains-sort_texts}
unfoldable pub use Strings.{text, text_eq, has_prefix, trim_prefix, join, sort_texts, contains}
pub use Maps.{
  Dict, NodupKeys, insert-NodupKeys, lookup-insert, lookup-insert_self, lookup-delete,
  delete_absent, delete-insert_absent, delete-insert_ne,
}
unfoldable pub use Maps.{lookup, insert, delete, copy, has_key}
pub use Prim.Native.Nat.{ℕ, zero, suc, ◌+◌, ◌-◌, ◌*◌, ◌/◌, ◌%◌, ◌≤◌, ◌<◌, min, compare, Ordering}
pub use mathlib.Core.Path.{◌≡◌, refl, sym, ap, ◌∙◌}
pub use mathlib.Core.Logic.{◌≢◌, ◌↔◌, ◌⊎◌, inl, inr}
pub use mathlib.Core.Bool.{Bool, true, false, not, ◌&&◌, ◌||◌}
pub use mathlib.Core.Option.{Option, none, some}
pub use mathlib.Core.List.{List, [], ◌∷◌, ◌++◌, map, append_assoc, append-nil}
pub use native.Mathlib.Omega.{arith}
