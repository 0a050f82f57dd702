-- ===== src/Ledger.antt =====
-- src/jamp/research/causal_ledger.py: the append-only causal ledger.
mod Payload
mod Event
mod Validate
mod Append
pub mod Accepted
pub mod Chain
pub mod Order
pub mod Progress
pub mod Methods
mod Tests
pub use Payload.*
pub use Event.*
pub use Validate.*
pub use Append.*
