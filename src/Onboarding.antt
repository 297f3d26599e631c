-- ===== src/Onboarding.antt =====
-- libs/core/src/onboarding: what a reader chooses before the first feed, kept in memory.
pub mod Model
pub mod Repository
pub mod Selection
pub mod States
mod Tests
