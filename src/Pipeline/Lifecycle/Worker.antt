-- ===== src/Pipeline/Lifecycle/Worker.antt =====
-- What a worker calls on the run that it holds, in
-- libs/core/src/pipeline/repository/inMemoryPipeline.repository.ts: claimNext, completeDiscovery, failRun,
-- updateRunStage, completeRun, recordUsage.
use newtine_backend.Prelude.{
  ℕ, ◌+◌, String, not, ◌&&◌, Option, none, some, List, [], ◌∷◌, ◌++◌, any, keep, head?, sort, ◌==◌,
  string_eq, nat_eq, option_eq, if◌then◌else◌,
}
use newtine_backend.Prelude.Map.{get, values}
use newtine_backend.Prelude.Result.{ok, ◌>>=◌}
use newtine_backend.Pipeline.Types.{
  Run, RunStatus, Job, Stage, CandidateCounts, UsageSummary, Usage, UsageStatus, is_queued,
  is_succeeded, is_failed,
}
use newtine_backend.Pipeline.Lifecycle.Interrupt.{success_count, failed_count}
use newtine_backend.Pipeline.Store.{Platform, Store, Exec, require_run, put_run, owns}

-- `a ??= b`
abbrev or_now : Option String → String → Option String
or_now none now = some now
or_now (some at) now = some at

unfoldable pub claimed_run : String → String → Run → Run
claimed_run now execution_id run = record run {
  status = RunStatus.running;
  execution_id = some execution_id;
  started_at = or_now run.started_at now;
  updated_at = now;
}

-- The queued run that was created first.
unfoldable pub next_queued : Platform → Store → Option Run
next_queued p s = head? (
    sort (λ a b. p.locale_before a.created_at b.created_at)
      (keep (λ run. is_queued run.status) (values s.runs)))

unfoldable pub claim_next : Platform → String → String → Store → Option Run × Store
claim_next p now execution_id s = elim (next_queued p s) [
  | none ↦ (none, s)
  | some run ↦
      (some (claimed_run now execution_id run), put_run (claimed_run now execution_id run) s)
]

-- Calls of the worker that hold no claim any more change nothing.
unfoldable pub complete_discovery :
    String → String → ℕ → String → CandidateCounts → Store → Exec (Unit {0})
complete_discovery now run_id attempt execution_id outcome s = do
  run ← require_run run_id s
  ok (
    tt,
    if owns run attempt execution_id
        then put_run (record run { candidate_counts = outcome; updated_at = now }) s
        else s,
  )

unfoldable pub fail_run : String → String → ℕ → String → String → Store → Exec (Unit {0})
fail_run now run_id attempt execution_id message s = do
  run ← require_run run_id s
  ok (
    tt,
    if owns run attempt execution_id
        then put_run
            (record run {
              status = RunStatus.failed;
              last_error = some message;
              finished_at = some now;
              updated_at = now;
            })
            s
        else s,
  )

unfoldable pub update_run_stage : String → ℕ → String → Stage → Store → Exec (Unit {0})
update_run_stage run_id attempt execution_id stage s = do
  run ← require_run run_id s
  ok (
    tt,
    if owns run attempt execution_id
        then put_run (record run { current_stage = some stage }) s
        else s,
  )

unfoldable pub completed_status : List Job → RunStatus
completed_status jobs =
    if failed_count jobs == 0
    then RunStatus.succeeded
    else if success_count jobs == 0
    then RunStatus.failed
    else RunStatus.partially_succeeded

unfoldable pub complete_run : String → String → ℕ → String → Store → Exec (Unit {0})
complete_run now run_id attempt execution_id s = do
  run ← require_run run_id s
  ok (
    tt,
    if owns run attempt execution_id
          && not (any (λ job. not (is_succeeded job.status) && not (is_failed job.status)) run.jobs)
        then put_run
            (record run {
              status = completed_status run.jobs;
              finished_at = some now;
              updated_at = now;
            })
            s
        else s,
  )

abbrev or_zero : Option ℕ → ℕ
or_zero none = 0
or_zero (some n) = n

abbrev counts_as : UsageStatus → UsageStatus → ℕ
counts_as UsageStatus.succeeded UsageStatus.succeeded = 1
counts_as UsageStatus.failed UsageStatus.failed = 1
counts_as UsageStatus.unknown UsageStatus.unknown = 1
counts_as _ _ = 0

abbrev add_cost : Option ℕ → Option ℕ → Option ℕ
add_cost total none = total
add_cost total (some cost) = some (or_zero total + cost)

unfoldable pub add_usage : Usage → UsageSummary → UsageSummary
add_usage input u = record {
  calls = u.calls + 1;
  succeeded_calls = u.succeeded_calls + counts_as UsageStatus.succeeded input.status;
  failed_calls = u.failed_calls + counts_as UsageStatus.failed input.status;
  unknown_calls = u.unknown_calls + counts_as UsageStatus.unknown input.status;
  input_tokens = u.input_tokens + or_zero input.input_tokens;
  output_tokens = u.output_tokens + or_zero input.output_tokens;
  actual_cost = add_cost u.actual_cost input.actual_cost;
}

unfoldable pub record_usage : String → Usage → Store → Store
record_usage now input s =
    let s' = record s { usages = s.usages ++ (input ∷ []) } in
    elim (get input.run_id s.runs) [
      | none ↦ s'
      | some run ↦
          put_run
            (record run { usage_summary = add_usage input run.usage_summary; updated_at = now }) s'
    ]
