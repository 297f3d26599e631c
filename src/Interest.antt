-- ===== src/Interest.antt =====
-- libs/core/src/interest: what a reader's actions and reading time contribute to the recommendation.
pub mod Policy
pub mod Laws
mod Tests
