-- ===== src/Aew.antt =====
-- src/jamp/aew: the contracts of the autonomous evidence worker.
pub mod State
pub mod Budget
pub mod Evidence
mod Tests
