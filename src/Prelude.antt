-- ===== src/Prelude.antt =====
-- The names that the other modules share: the libraries', passed on, and those of the children:
-- Boolean tests and equality, lists, insertion-ordered maps, stable sorting, counts, and results.
mod Tests
mod Lists
mod Sets
mod Sort
mod Count
pub mod Map
pub mod Result
pub mod Text
pub use Tests.*
pub use Lists.*
pub use Sets.*
pub use Count.*
unfoldable pub use Sort.{sort}
pub use Sort.{sort-Memᴰ, length-sort, head?-sort, Memᴰ-sort}
pub use Prim.Native.Nat.{ℕ, zero, suc, ◌+◌, ◌-◌, ◌*◌, ◌/◌, ◌%◌, ◌≤◌, ◌<◌, min, max}
pub use Prim.Native.String.{String}
pub use mathlib.Core.Path.{◌≡◌, refl, sym, ap, ◌∙◌, subst, subst₂}
pub use mathlib.Core.Logic.{◌≢◌, ◌↔◌, ◌⊎◌, inl, inr}
pub use mathlib.Core.Bool.{Bool, true, false, ◌&&◌, ◌||◌, not}
pub use mathlib.Core.Option.{Option, none, some, some-injective}
pub use mathlib.Core.List.{List, [], ◌∷◌, ◌++◌, map, Memᴰ}
pub use mathlib.Core.List.Memᴰ.{
  append_left as Memᴰ-append_left, append_right as Memᴰ-append_right, append_cases as Memᴰ-append,
}
pub use native.Mathlib.Omega.{arith}
