-- ===== src/Pipeline.antt =====
-- The content pipeline (libs/core/src/pipeline): its data, and the modules of its parts.
pub mod Types
pub mod Uuid
pub mod Validator
pub mod Limits
pub mod Store
pub mod Lifecycle
pub mod Jobs
pub mod Articles
pub mod Embedding
pub mod Cases
pub mod Evolution
pub mod Steps
pub mod Invariant
pub mod Idempotency
pub mod Outcomes
pub mod Retries
pub mod Publication
pub mod Service
mod Tests
