-- ===== src/Causal.antt =====
-- src/jamp/domain: causal order and vector clocks.
pub mod Clock
pub mod Merge
pub mod Laws
pub mod Order
pub mod Total
pub mod Count
pub mod Nodes
pub mod Invariant
pub mod Topological
pub mod Sorted
pub mod Extension
pub mod Acyclic
pub mod Complete
pub mod Members
pub mod Clocks
pub mod Ancestors
pub mod Relation
mod Tests
