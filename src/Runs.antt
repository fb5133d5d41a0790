-- ===== src/Runs.antt =====
-- Runs (include/frsr/roaring/run.hpp): closed intervals of low values, and what a list of them means.
mod Defs
mod Member
mod Cardinality
pub use Defs.*
pub use Member.*
pub use Cardinality.*
