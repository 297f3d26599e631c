-- ===== src/Pipeline/Lifecycle/Retry.antt =====
-- `retry` of libs/core/src/pipeline/repository/inMemoryPipeline.repository.ts.
use newtine_backend.Prelude.{
  ℕ, ◌+◌, String, Bool, true, false, not, ◌&&◌, ◌||◌, Option, none, some, List, [], map, find, any,
  keep, length, ltb, includes, unique, ◌==◌, string_eq, nat_eq, option_eq, if◌then◌else◌,
}
use newtine_backend.Prelude.Map.{values}
use newtine_backend.Prelude.Result.{ok, ◌>>=◌, ◌>>◌}
use newtine_backend.Pipeline.Types.{
  Run, RunStatus, Job, JobStatus, Stage, RetryScope, FailureKind, Issue, ExceptionCode, RetryInput,
  is_active, is_retryable, is_unfinished, is_succeeded, is_failed, is_interrupted, is_discovery,
}
use newtine_backend.Pipeline.Store.{
  Store, Exec, reject_if, require_run, put_run, find_issue, found_withdrawn,
}

-- `MAX_FAILED_JOB_IDS`
abbrev pub max_failed_job_ids : ℕ
max_failed_job_ids = 100

abbrev too_many : Option (List String) → Bool
too_many none = false
too_many (some ids) = ltb max_failed_job_ids (length ids)

abbrev none_given : Option (List String) → Bool
none_given none = true
none_given (some ids) = length ids == 0

-- `new Set(selectedIds ?? [])`
abbrev pub selected_of : Option (List String) → List String
selected_of none = []
selected_of (some ids) = unique ids

unfoldable pub issue_withdrawn : List Issue → Job → Bool
issue_withdrawn issues job = found_withdrawn (find_issue job.issue_id issues)

-- A selected id that is no failed job of the run, or whose issue is withdrawn.
unfoldable pub not_retryable_job : List Issue → List Job → String → Bool
not_retryable_job issues jobs id = elim (find (λ job. job.id == id) jobs) [
  | none ↦ true
  | some job ↦ not (is_failed job.status) || issue_withdrawn issues job
]

-- The check of `failedJobIds`, made where they are given.
unfoldable pub bad_selection : List Issue → List Job → Option (List String) → Bool
bad_selection issues jobs none = false
bad_selection issues jobs (some ids) =
    length ids == 0
    || not (length (unique ids) == length ids)
    || any (not_retryable_job issues jobs) (unique ids)

-- The two checks of a `CONTENT` retry.
unfoldable pub bad_content : List Issue → List Job → List String → Bool
bad_content issues jobs selected =
    any (λ job. is_unfinished job.status) jobs
    || length (keep (λ job. includes selected job.id) jobs) == 0
    || any (issue_withdrawn issues) (keep (λ job. includes selected job.id) jobs)

abbrev failed_by_interrupt : Option FailureKind → Bool
failed_by_interrupt none = false
failed_by_interrupt (some kind) = is_interrupted kind

-- `(scope === 'DISCOVERY' && retryDiscoveryJob) || selected.has(job.id)`
unfoldable pub requeues : RetryScope → List String → Job → Bool
requeues scope selected job =
    (is_discovery scope
      && (is_unfinished job.status
          || (is_failed job.status
              && (failed_by_interrupt job.failure_kind || includes selected job.id))))
    || includes selected job.id

-- One round of the loop over the jobs.
unfoldable pub requeue_job : RetryScope → List String → ℕ → List Issue → Job → Job
requeue_job scope selected attempt issues job =
    if is_succeeded job.status
    then job
    else if issue_withdrawn issues job
    then job
    else if requeues scope selected job
    then record job {
      status = JobStatus.queued;
      stage = Stage.search;
      failure_kind = none;
      last_error = none;
      attempt = attempt;
    }
    else job

unfoldable pub retried_run : String → RetryInput → List Issue → Run → Run
retried_run now input issues run =
    let selected = selected_of input.failed_job_ids in
    record run {
      attempt = run.attempt + 1;
      status = RunStatus.queued;
      retry_scope = some input.scope;
      retry_job_ids = selected;
      execution_id = none;
      current_stage = none;
      finished_at = none;
      last_error = none;
      updated_at = now;
      jobs = map (requeue_job input.scope selected (run.attempt + 1) issues) run.jobs;
    }

-- Some other run is `QUEUED` or `RUNNING`.
unfoldable pub other_active : String → Store → Bool
other_active run_id s =
    any (λ item. not (item.id == run_id) && is_active item.status) (values s.runs)

unfoldable pub retry : String → RetryInput → Store → Exec Run
retry now input s = do
  reject_if (too_many input.failed_job_ids) ExceptionCode.retry_not_allowed
  reject_if (not (is_discovery input.scope) && none_given input.failed_job_ids)
      ExceptionCode.retry_not_allowed
  run ← require_run input.run_id s
  reject_if (not (run.attempt == input.expected_attempt)) ExceptionCode.stale_attempt
  reject_if (not (is_retryable run.status)) ExceptionCode.retry_not_allowed
  reject_if (other_active run.id s) ExceptionCode.active_run_conflict
  reject_if (bad_selection s.issues run.jobs input.failed_job_ids) ExceptionCode.retry_not_allowed
  reject_if
      (not (is_discovery input.scope)
        && bad_content s.issues run.jobs (selected_of input.failed_job_ids))
      ExceptionCode.retry_not_allowed
  let run' = retried_run now input s.issues run
  ok (run', put_run run' s)
