-- ===== src/Pipeline/Embedding/Claims.antt =====
-- The fence of embedding claims, inMemoryPipeline.repository.ts: `claimToken`.
use newtine_backend.Prelude.{
  String, true, false, ◌&&◌, Option, some, ◌≡◌, ◌≢◌, ◌⊎◌, arith, ==_iff, ◌==◌, string_eq, option_eq,
  nat_eq,
}
use newtine_backend.Prelude.Map.{get}
use newtine_backend.Prelude.Result.{ok}
use newtine_backend.Pipeline.Types.{EmbeddingTask, TaskStatus}
use newtine_backend.Pipeline.Store.{Platform, Store, find_issue}
use newtine_backend.Pipeline.Embedding.{
  Vector, SaveResult, save_embedding, fits, fail_embedding_task, release_embedding_claim,
  task_by_id, task_is_running,
}

not_held :
    (task : EmbeddingTask) (token : String)
    → (task.claim_token ≢ some token) ⊎ (task.status ≢ TaskStatus.running)
    → (task_is_running task.status && task.claim_token == some token) ≡ false
not_held task token why = ground (arith, why, ==_iff task.claim_token (some token))

fits-not_held :
    (p : Platform) (title summary model task_id token : String) (expected : Option String)
    (s : Store)
    → (task : EmbeddingTask)
    → (task_is_running task.status && task.claim_token == some token) ≡ false
    → fits p title summary model
        (some task_id)
        (some token)
        expected
        (find_issue task.issue_id s.issues)
        task
      ≡ false
unfolding fits
fits-not_held p title summary model task_id token expected s task h = ground (arith, h)

-- A worker whose token is not that of the task, or whose task is not `RUNNING`, cannot end the claim:
-- failing and releasing answer `false`, saving a vector of the right shape answers `STALE`, and
-- nothing changes. The task is the first with its id, and is stored under its issue.
pub not_held-no_change :
    (p : Platform) (task : EmbeddingTask) (token title summary model message : String) (v : Vector)
    (expected : Option String) (s : Store)
    → task_by_id task.id s ≡ some task
    → get task.issue_id s.embedding_tasks ≡ some task
    → v.dimension ≡ 1536
    → v.all_finite ≡ true
    → (task.claim_token ≢ some token) ⊎ (task.status ≢ TaskStatus.running)
    → (fail_embedding_task task.id token message s ≡ (false, s))
      × (release_embedding_claim task.id token s ≡ (false, s))
      × (save_embedding p task.issue_id title summary v model (some task.id) (some token) expected s
          ≡ ok (SaveResult.stale, s))
unfolding fail_embedding_task release_embedding_claim save_embedding
not_held-no_change p task token title summary model message v expected s by_id stored size shape
      why =
    let shut = not_held task token why in
    let unfit = fits-not_held p title summary model task.id token expected s task shut in
    (
      rw (by_id, fail_embedding_task) (ground (arith, shut)),
      rw (by_id, release_embedding_claim) (ground (arith, shut)),
      ground (arith, stored, size, shape, unfit),
    )
