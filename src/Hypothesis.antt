-- ===== src/Hypothesis.antt =====
-- src/jamp/research/hypothesis.py: a hypothesis, its hash, and its transitions.
pub mod Freeze
pub mod Record
pub mod Lifecycle
pub mod Normal
pub mod Frozen
pub mod Accepted
pub mod Constructed
pub mod Made
pub mod Moves
pub mod Moved
pub mod Reason
pub mod Allowed
pub mod Succeeds
mod Tests
