-- ===== src/Effects/Triples.antt =====
-- What an action leaves behind, apart for a value and for an error, with one rule for each way to
-- build an action.
pub mod Core
pub mod Invariants
pub mod Sequences
pub use Core.*
pub use Invariants.*
pub use Sequences.*
