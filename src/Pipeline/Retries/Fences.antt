-- ===== src/Pipeline/Retries/Fences.antt =====
-- The run that a retry has put back into the queue, and the calls of workers on it, in
-- libs/core/src/pipeline/repository/inMemoryPipeline.repository.ts. `registerIssue` and `recordUsage`
-- name no execution id; they have no such fence.
use newtine_backend.Prelude.{string_eq, nat_eq, option_eq}
use newtine_backend.Pipeline.Store.{Store}
