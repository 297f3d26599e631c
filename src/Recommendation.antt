-- ===== src/Recommendation.antt =====
-- The feed recommendation of apps/api/src/issue/recommendation.
pub mod Types
pub mod Runs
pub mod Score
pub mod Greedy
pub mod Batch
pub mod Better
pub mod Targets
pub mod Search
pub mod Pool
pub mod Materialize
pub mod Alternatives
pub mod Version2
pub mod Ordering
pub mod Swaps
pub mod Version1
pub mod Continuation
pub mod Feed
mod Tests
