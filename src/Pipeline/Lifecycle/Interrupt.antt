-- ===== src/Pipeline/Lifecycle/Interrupt.antt =====
-- `interrupt` of libs/core/src/pipeline/repository/inMemoryPipeline.repository.ts.
use newtine_backend.Prelude.{
  ℕ, String, Bool, true, false, not, ◌&&◌, none, some, List, map, keep, length, ltb, ◌==◌,
  string_eq, nat_eq, option_eq, if◌then◌else◌,
}
use newtine_backend.Prelude.Result.{ok, ◌>>=◌, ◌>>◌}
use newtine_backend.Pipeline.Types.{
  Run, RunStatus, Job, JobStatus, FailureKind, ExceptionCode, InterruptInput, is_running,
  is_unfinished, is_succeeded, is_failed,
}
use newtine_backend.Pipeline.Store.{Store, Exec, reject_if, require_run, put_run}

abbrev pub interrupt_message : String
interrupt_message = "실행 프로세스 종료가 확인되어 중단 처리되었습니다."

unfoldable pub interrupt_job : Job → Job
interrupt_job job =
    if is_unfinished job.status
    then record job {
      status = JobStatus.failed;
      failure_kind = some FailureKind.interrupted;
      last_error = some interrupt_message;
    }
    else job

-- `jobs.filter((job) => job.status === 'SUCCEEDED').length`, and the same for `FAILED`.
abbrev pub success_count : List Job → ℕ
success_count jobs = length (keep (λ job. is_succeeded job.status) jobs)

abbrev pub failed_count : List Job → ℕ
failed_count jobs = length (keep (λ job. is_failed job.status) jobs)

unfoldable pub interrupted_status : List Job → RunStatus
interrupted_status jobs =
    if ltb 0 (length jobs) && failed_count jobs == 0 && success_count jobs == length jobs
    then RunStatus.succeeded
    else if ltb 0 (length jobs) && ltb 0 (success_count jobs)
    then RunStatus.partially_succeeded
    else RunStatus.failed

abbrev is_run_succeeded : RunStatus → Bool
is_run_succeeded RunStatus.succeeded = true
is_run_succeeded _ = false

unfoldable pub interrupted_run : String → Run → Run
unfolding interrupted_status interrupt_job
interrupted_run now run =
    let jobs' = map interrupt_job run.jobs in
    let status' = interrupted_status jobs' in
    record run {
      jobs = jobs';
      status = status';
      last_error = if is_run_succeeded status' then none else some interrupt_message;
      finished_at = some now;
      updated_at = now;
    }

unfoldable pub interrupt : String → InterruptInput → Store → Exec Run
interrupt now input s = do
  run ← require_run input.run_id s
  reject_if (not (run.attempt == input.expected_attempt)) ExceptionCode.stale_attempt
  reject_if (not (is_running run.status)) ExceptionCode.retry_not_allowed
  reject_if (not (run.execution_id == some input.execution_id)) ExceptionCode.claim_conflict
  let run' = interrupted_run now run
  ok (run', put_run run' s)
