-- ===== src/Common.antt =====
-- The vocabulary that the components share: the libraries' names passed on, Boolean tests on
-- numbers, lists measured by native numbers, equality as an interface, and maps in the order of
-- insertion, as JavaScript's `Map` keeps them.
mod Tests
mod Lists
mod Keys
mod Maps
mod Results
mod Words
pub use Tests.*
pub use Lists.*
pub use Keys.*
pub use Maps.{
  lookup, lookup-insert, lookup-erase, insert_new, beq_refl, IsDistinct, insert-IsDistinct,
  erase-IsDistinct,
}
unfoldable pub use Maps.{insert, erase}
pub use Results.*
pub use Words.*
pub use Prim.Native.Nat.{ℕ, zero, suc, ◌+◌, ◌-◌, ◌*◌, ◌/◌, ◌%◌, ◌^◌, ◌≤◌, ◌<◌, min, max}
pub use Prim.Native.String.{String}
pub use mathlib.Core.Path.{◌≡◌, refl, sym, ap, ◌∙◌}
pub use mathlib.Core.Logic.{◌≢◌, ◌↔◌, ◌⊎◌, inl, inr}
pub use mathlib.Core.Bool.{Bool, true, false, not, ◌&&◌, ◌||◌}
pub use mathlib.Core.Option.{Option, none, some}
pub use mathlib.Core.List.{List, [], ◌∷◌, ◌++◌, map, append-nil, append_assoc}
pub use native.Mathlib.Omega.{arith}
