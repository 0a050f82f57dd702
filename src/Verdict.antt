-- ===== src/Verdict.antt =====
-- src/jamp/research/verdict_v0: from a gate result, a criterion set and evidence to a verdict.
pub mod Aggregation
pub mod Rule
pub mod Stages
pub mod Criterion
pub mod Schema
pub mod Checks
pub mod Evaluate
pub mod Verified
mod Tests
