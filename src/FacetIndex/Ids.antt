-- ===== src/FacetIndex/Ids.antt =====
-- `getId`: what it keeps, how its ids stay put, and that no two facets share one.
mod Steps
mod Stable
pub use Steps.*
pub use Stable.{
  HasId, get_id-HasId, use_once-HasId, use_once-IsWellFormed, use_all-IsWellFormed, get_id_stable,
  get_id_injective,
}
pub use Stable.Indexed.{Use, ask, restart, IsWellFormed-IsIndexed}
unfoldable pub use Stable.{use_once, use_all}
