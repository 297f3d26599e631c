-- ===== src/Pipeline/Lifecycle.antt =====
-- The operations on runs of InMemoryPipelineRepository
-- (libs/core/src/pipeline/repository/inMemoryPipeline.repository.ts): enqueue, findById, retry,
-- interrupt, claimNext, completeDiscovery, failRun, updateRunStage, completeRun, recordUsage.
-- A new id and the time are arguments: `now` is `new Date().toISOString()`, read once in a call.
mod Retry
mod Interrupt
mod Worker
unfoldable pub use Retry.{
  issue_withdrawn, not_retryable_job, bad_selection, bad_content, requeues, requeue_job,
  retried_run, other_active, retry,
}
pub use Retry.{max_failed_job_ids, selected_of}
unfoldable pub use Interrupt.{interrupt_job, interrupted_status, interrupted_run, interrupt}
pub use Interrupt.{interrupt_message, success_count, failed_count}
unfoldable pub use Worker.{
  claimed_run, next_queued, claim_next, complete_discovery, fail_run, update_run_stage,
  completed_status, complete_run, add_usage, record_usage,
}
use newtine_backend.Prelude.{
  ℕ, ◌+◌, String, Bool, true, false, not, ◌&&◌, ◌||◌, Option, none, some, List, [], ◌∷◌, ◌++◌, map,
  find, any, keep, length, ltb, head?, sort, includes, unique, ◌==◌, string_eq, nat_eq, option_eq,
  if◌then◌else◌,
}
use newtine_backend.Prelude.Map.{get, set, values}
use newtine_backend.Prelude.Result.{ok, err, ◌>>=◌, ◌>>◌}
use newtine_backend.Pipeline.Types.{
  Run, RunStatus, Job, JobStatus, Stage, RetryScope, FailureKind, Issue, CandidateCounts,
  UsageSummary, Usage, UsageStatus, ExceptionCode, EnqueueInput, RetryInput, InterruptInput,
  is_active, is_queued, is_running, is_retryable, is_unfinished, is_succeeded, is_failed,
  is_interrupted, is_discovery,
}
use newtine_backend.Pipeline.Store.{
  Platform, Store, Exec, reject_if, require_run, put_run, find_issue, found_withdrawn, owns,
}

abbrev pub empty_usage_summary : UsageSummary
empty_usage_summary = record {
  calls = 0;
  succeeded_calls = 0;
  failed_calls = 0;
  unknown_calls = 0;
  input_tokens = 0;
  output_tokens = 0;
  actual_cost = none;
}

-- The run that `enqueue` stores.
unfoldable pub new_run : String → String → EnqueueInput → Run
new_run id now input = record {
  id = id;
  idempotency_key = input.idempotency_key;
  request_hash = input.request_hash;
  request = input.request;
  status = RunStatus.queued;
  attempt = 1;
  retry_scope = none;
  retry_job_ids = [];
  execution_id = none;
  current_stage = none;
  candidate_counts = record {
    discovered = 0;
    duplicate = 0;
    uncertain = 0;
    created = 0;
    skipped_by_limit = 0;
  };
  jobs = [];
  last_error = none;
  embedding_pending_count = 0;
  usage_summary = empty_usage_summary;
  started_at = none;
  finished_at = none;
  created_at = now;
  updated_at = now;
}

-- Whether any run is `QUEUED` or `RUNNING`.
abbrev pub any_active : Store → Bool
any_active s = any (λ run. is_active run.status) (values s.runs)

unfoldable pub enqueue : String → String → EnqueueInput → Store → Exec Run
enqueue id now input s =
    elim (find (λ run. run.idempotency_key == input.idempotency_key) (values s.runs)) [
      | some existing ↦
          if not (existing.request_hash == input.request_hash)
          then err ExceptionCode.idempotency_conflict
          else ok (existing, s)
      | none ↦
          if any_active s
          then err ExceptionCode.active_run_conflict
          else ok (new_run id now input, record s { runs = set id (new_run id now input) s.runs })
    ]

unfoldable pub find_by_id : String → Store → Option Run
find_by_id run_id s = get run_id s.runs
