-- ===== src/FacetIndex/Load.antt =====
-- The constructor: what it reads back from a file, and what it makes of a torn or foreign one.
mod Rounds
mod Open
pub use Rounds.*
pub use Open.*
