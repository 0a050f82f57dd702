-- ===== src/Runtime.antt =====
-- src/jamp/runtime: claim-level verdicts, the evidence gate, and the choice of a model.
pub mod Claims
pub mod Aggregate
pub mod Signed
pub mod Signature
pub mod Parse
pub mod Gate
pub mod Selector
pub mod Eligible
pub mod Closed
pub mod Router
pub mod Route
mod Tests
