-- ===== src/Pipeline/Retries.antt =====
-- What a manual retry does to the jobs of its run (`retry` of inMemoryPipeline.repository.ts), and the
-- calls of a worker that does not hold the run.
pub mod Fences
use newtine_backend.Prelude.{
  ℕ, ◌+◌, String, true, false, none, some, List, ◌≡◌, ◌≢◌, ◌⊎◌, arith, not, ◌||◌, length, Memᴰ, All,
  string_eq, nat_eq, option_eq, ==_iff, Distinct, ◌≤◌,
}
use newtine_backend.Prelude.Map.{get, get-set_self}
use newtine_backend.Prelude.Result.{ok, err}
use newtine_backend.Pipeline.Types.{
  Run, RunStatus, Job, JobStatus, Stage, RetryScope, RetryInput, Issue, is_failed, CandidateCounts,
  FailureKind, FetchedArticle, ExceptionCode,
}
use newtine_backend.Pipeline.Store.{
  Platform, Store, require_run, put_run, owns, owns_run, find_job_owner,
}
use newtine_backend.Pipeline.Lifecycle.{
  requeue_job, bad_selection, complete_discovery, fail_run, update_run_stage, complete_run,
}
use newtine_backend.Pipeline.Validator.{
  Content, Semantic, validate_generated_content, validate_semantic_result, is_ok,
}
use newtine_backend.Pipeline.Jobs.{
  claim_job, update_job_stage, save_job_failure, save_job_success, owns_job,
}
use newtine_backend.Pipeline.Embedding.{mark_embedding_pending, may_mark_run}

-- The job as the new attempt starts with it.
abbrev pub restarted : ℕ → Job → Job
restarted attempt job = record job {
  status = JobStatus.queued;
  stage = Stage.search;
  failure_kind = none;
  last_error = none;
  attempt = attempt;
}

-- The run has a failed job of this id, which stands in the other run as the new attempt starts with it.
abbrev pub RestartedIn : Run → Run → String → Type 0
RestartedIn run out id =
    (j : Job) × Memᴰ j run.jobs
    × (j.id ≡ id)
    × (is_failed j.status ≡ true)
    × Memᴰ (restarted (run.attempt + 1) j) out.jobs

-- What becomes of the jobs of a run where some of them are named.
pub record RestartsNamed (ids : List String) (run out : Run) : Type 0 where
  pub some_named : 1 ≤ length ids
  pub none_twice : Distinct ids
  pub recorded : out.retry_job_ids ≡ ids
  pub named : All (RestartedIn run out) ids
  pub others : All (λ j. Memᴰ j.id ids ⊎ Memᴰ j out.jobs) run.jobs
  pub none_added : length out.jobs ≡ length run.jobs

module _ (now : String) (input : RetryInput) (issues : List Issue) (run : Run) (ids : List String)
    (scope : input.scope ≡ RetryScope.content) (given : input.failed_job_ids ≡ some ids)
    (chosen : bad_selection issues run.jobs (some ids) ≡ false) where
  again : Job → Job
  again = requeue_job RetryScope.content ids (run.attempt + 1) issues

not_owner-owns :
    (run : Run) (attempt : ℕ) (x : String)
    → (run.attempt ≢ attempt) ⊎ (run.execution_id ≢ some x) ⊎ (run.status ≢ RunStatus.running)
    → owns run attempt x ≡ false
unfolding owns
not_owner-owns run attempt x why =
    ground (arith, why, ==_iff run.attempt attempt, ==_iff run.execution_id (some x))

-- Calls of a worker that does not hold the stored run (another attempt, another owner, or a run that
-- is not `RUNNING`) are accepted and change nothing, whichever of the four they are.
pub not_owner-no_change :
    (now run_id : String) (attempt : ℕ) (x message : String) (outcome : CandidateCounts)
    (stage : Stage) (s : Store) (run : Run)
    → get run_id s.runs ≡ some run
    → (run.attempt ≢ attempt) ⊎ (run.execution_id ≢ some x) ⊎ (run.status ≢ RunStatus.running)
    → (complete_discovery now run_id attempt x outcome s ≡ ok (tt, s))
      × (fail_run now run_id attempt x message s ≡ ok (tt, s))
      × (update_run_stage run_id attempt x stage s ≡ ok (tt, s))
      × (complete_run now run_id attempt x s ≡ ok (tt, s))
unfolding complete_discovery fail_run update_run_stage complete_run require_run
not_owner-no_change now run_id attempt x message outcome stage s run found why =
    let shut : owns run attempt x ≡ false = not_owner-owns run attempt x why in
    ground (arith, found, shut)
