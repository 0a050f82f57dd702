-- ===== src/History.antt =====
-- src/jamp/domain and src/jamp/events: the event graph, its consistency and its replay.
pub mod Ids
pub mod Event
pub mod Dag
pub mod Check
pub mod Grown
pub mod Growth
pub mod Valid
pub mod Traversed
pub mod Accepted
pub mod Replay
pub mod Until
pub mod Ancestry
pub mod Sortable
pub mod Sorting
pub mod Rebuilt
pub mod Results
pub mod Ends
pub mod Reached
pub mod Replays
mod Tests
