-- ===== src/Pipeline/Steps.antt =====
-- The repository as a transition system: each constructor is a call of one operation with the values
-- that its caller and its environment choose. A drawn id is not in the map that it is stored in.
use newtine_backend.Prelude.{ℕ, String, Bool, Option, none, List, ◌≡◌}
use newtine_backend.Prelude.Map.{get}
use newtine_backend.Prelude.Result.{ok}
use newtine_backend.Pipeline.Types.{
  Run, Stage, FailureKind, Article, FetchedArticle, EnqueueInput, RetryInput, InterruptInput,
  RegisterInput, CandidateCounts, Usage,
}
use newtine_backend.Pipeline.Validator.{Content, Semantic}
use newtine_backend.Pipeline.Store.{Platform, Store, empty_store}
use newtine_backend.Pipeline.Lifecycle.{
  enqueue, retry, interrupt, claim_next, complete_discovery, fail_run, update_run_stage,
  complete_run, record_usage,
}
use newtine_backend.Pipeline.Jobs.{
  RegisterResult, register_issue, claim_job, update_job_stage, save_job_failure, save_job_success,
}
use newtine_backend.Pipeline.Articles.{save_discovered_articles}
use newtine_backend.Pipeline.Embedding.{
  Vector, SaveResult, save_embedding, mark_embedding_pending, claim_pending_embedding_tasks,
  fail_embedding_task, release_embedding_claim, release_embedding_claims, requeue_embedding_claims,
}

module _ (p : Platform) where
  pub data Step (s : Store) : Store → Type 0 where
    enqueues :
        (id now : String) (input : EnqueueInput) (out : Run) (s' : Store)
        → get id s.runs ≡ none
        → enqueue id now input s ≡ ok (out, s')
        → Step s s'
    retries :
        (now : String) (input : RetryInput) (out : Run) (s' : Store)
        → retry now input s ≡ ok (out, s')
        → Step s s'
    interrupts :
        (now : String) (input : InterruptInput) (out : Run) (s' : Store)
        → interrupt now input s ≡ ok (out, s')
        → Step s s'
    claims : (now x : String) → Step s (claim_next p now x s).1
    completes_discovery :
        (now run_id : String) (attempt : ℕ) (x : String) (outcome : CandidateCounts) (s' : Store)
        → complete_discovery now run_id attempt x outcome s ≡ ok (tt, s')
        → Step s s'
    fails :
        (now run_id : String) (attempt : ℕ) (x message : String) (s' : Store)
        → fail_run now run_id attempt x message s ≡ ok (tt, s')
        → Step s s'
    stages :
        (run_id : String) (attempt : ℕ) (x : String) (stage : Stage) (s' : Store)
        → update_run_stage run_id attempt x stage s ≡ ok (tt, s')
        → Step s s'
    completes :
        (now run_id : String) (attempt : ℕ) (x : String) (s' : Store)
        → complete_run now run_id attempt x s ≡ ok (tt, s')
        → Step s s'
    records : (now : String) (input : Usage) → Step s (record_usage now input s)
    registers :
        (now issue_id job_id : String) (input : RegisterInput) (out : RegisterResult) (s' : Store)
        → register_issue p now issue_id job_id input s ≡ ok (out, s')
        → Step s s'
    claims_job :
        (job_id : String) (attempt : ℕ) (x : String) → Step s (claim_job job_id attempt x s).1
    stages_job :
        (job_id : String) (attempt : ℕ) (x : String) (stage : Stage)
        → Step s (update_job_stage job_id attempt x stage s)
    fails_job :
        (now job_id : String) (attempt : ℕ) (x : String) (kind : Option FailureKind)
        (message : String)
        → Step s (save_job_failure now job_id attempt x kind message s)
    succeeds_job :
        (now fresh job_id : String) (attempt : ℕ) (x : String) (content : Content)
        (validation : Semantic) (evidence : List FetchedArticle) (model : String) (done : Bool)
        (s' : Store)
        → save_job_success p now fresh job_id attempt x content validation evidence model s
          ≡ ok (done, s')
        → Step s s'
    embeds :
        (issue_id title summary : String) (v : Vector) (model : String)
        (task_id token expected : Option String) (out : SaveResult) (s' : Store)
        → save_embedding p issue_id title summary v model task_id token expected s ≡ ok (out, s')
        → Step s s'
    marks :
        (now run_id : String) (attempt : ℕ) (x job_id : String) (message : Option String)
        → Step s (mark_embedding_pending now run_id attempt x job_id message s)
    claims_tasks :
        (now : String) (limit : ℕ) (process token : String)
        → Step s (claim_pending_embedding_tasks now limit process token s).1
    fails_task :
        (task_id token message : String) → Step s (fail_embedding_task task_id token message s).1
    releases_task : (task_id token : String) → Step s (release_embedding_claim task_id token s).1
    releases_tasks : (process : String) → Step s (release_embedding_claims process s).1
    saves_articles :
        (found : List (String × Article)) → Step s (save_discovered_articles p found s).1
    requeues_tasks : (dead : String) → Step s (requeue_embedding_claims dead s).1

  -- The states after any history of calls on a new repository.
  pub data Reachable : Store → Type 0 where
    starts : Reachable empty_store
    continues : {s s' : Store} → Reachable s → Step s s' → Reachable s'
