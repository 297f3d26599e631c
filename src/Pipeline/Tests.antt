-- ===== src/Pipeline/Tests.antt =====
-- Runs of the pipeline model on concrete values.
mod Parts
mod Publish
mod Requests
use newtine_backend.Prelude.{
  length, String, true, false, Option, none, some, [], ◌∷◌, ◌≡◌, ◌≢◌, ◌⊎◌, refl, inl, inr, any,
  ◌==◌, ==_iff, string_eq, nat_eq, option_eq,
}
use newtine_backend.Prelude.Map.{get, set, values}
use newtine_backend.Prelude.Result.{ok, err}
use newtine_backend.Pipeline.Articles.{save_article}
use newtine_backend.Pipeline.Articles.Again.{save_article_again}
use newtine_backend.Pipeline.Embedding.{
  SaveResult, task_by_id, fail_embedding_task, release_embedding_claim, save_embedding,
}
use newtine_backend.Pipeline.Embedding.Claims.{not_held-no_change}
use newtine_backend.Pipeline.Types.{
  Article, EmbeddingTask, TaskStatus, Run, RunStatus, Job, JobStatus, Stage, RetryScope,
  EnqueueInput, RetryInput, InterruptInput, CandidateCounts, ExceptionCode, is_unfinished, Limits,
}
use newtine_backend.Pipeline.Limits.{default_limits, PartialLimits, normalize_limits}
use newtine_backend.Pipeline.Limits.Bounds.{InRange, normalize_limits-InRange}
use newtine_backend.Pipeline.Store.{
  Platform, Store, empty_store, put_run, owns, require_run, find_issue,
}
use newtine_backend.Pipeline.Lifecycle.{
  new_run, enqueue, claim_next, retry, retried_run, bad_selection, bad_content, not_retryable_job,
  issue_withdrawn, other_active, interrupt, interrupted_run, complete_run, complete_discovery,
  fail_run, update_run_stage,
}
use newtine_backend.Pipeline.Evolution.{Evolution}
use newtine_backend.Pipeline.Evolution.Writes.{AtMostOneActive}
use newtine_backend.Pipeline.Steps.{Step, Reachable}
use newtine_backend.Pipeline.Invariant.{Reachable-AtMostOneActive, Step-Evolution}
use newtine_backend.Pipeline.Retries.{not_owner-no_change}
use newtine_backend.Pipeline.Outcomes.{EndsAs, all_ended, interrupt-EndsAs, complete_run-EndsAs}
use newtine_backend.Pipeline.Idempotency.{enqueue_again, enqueue_conflict}

abbrev platform : Platform
platform = record {
  to_locale_lower_case = λ t. t;
  to_lower_case = λ t. t;
  sha256 = λ t. t;
  locale_before = λ a b. false;
  parse_url = λ t. none;
  url_to_string = λ u. u.pathname;
  text_includes = λ a b. a == b;
}

abbrev request : EnqueueInput
request = record {
  idempotency_key = "daily";
  request_hash = "h1";
  request = record { query = "housing"; limits = default_limits };
}

abbrev other_request : EnqueueInput
other_request = record {
  idempotency_key = "daily";
  request_hash = "h2";
  request = record { query = "labor"; limits = default_limits };
}

abbrev queued_run : Run
queued_run = new_run "r1" "t0" request

abbrev queued_store : Store
queued_store = put_run queued_run empty_store

enqueued : enqueue "r1" "t0" request empty_store ≡ ok (queued_run, queued_store)
unfolding enqueue put_run new_run set values
enqueued = refl

abbrev queued_Reachable : Reachable platform queued_store
unfolding get
queued_Reachable =
    Reachable.continues Reachable.starts
      (Step.enqueues "r1" "t0" request queued_run queued_store refl enqueued)

Reachable-AtMostOneActive_example : AtMostOneActive queued_store.runs
Reachable-AtMostOneActive_example = Reachable-AtMostOneActive platform queued_store queued_Reachable

Step-Evolution_example :
    Evolution queued_store.runs (claim_next platform "t1" "x" queued_store).1.runs
Step-Evolution_example =
    Step-Evolution platform queued_store _ queued_Reachable (Step.claims "t1" "x")

enqueue_again_example : enqueue "r2" "t5" request queued_store ≡ ok (queued_run, queued_store)
unfolding get
enqueue_again_example =
    enqueue_again "r1" "r2" "t0" "t5" request empty_store queued_run queued_store refl enqueued

hashes_differ : other_request.request_hash ≢ request.request_hash
hashes_differ e = absurd (cc ((==_iff {A = String} "h2" "h1").1 e))

enqueue_conflict_example :
    enqueue "r2" "t5" other_request queued_store ≡ err ExceptionCode.idempotency_conflict
unfolding get
enqueue_conflict_example =
    enqueue_conflict "r1" "r2" "t0" "t5" request other_request empty_store queued_run queued_store
      refl enqueued refl hashes_differ

abbrev job : String → JobStatus → Job
job id status = record {
  id = id;
  run_id = "r1";
  issue_id = id;
  status = status;
  stage = Stage.validate;
  failure_kind = none;
  last_error = none;
  attempt = 1;
}

-- A run with a finished job, a failed one and one in the given state.
abbrev run_with : RunStatus → JobStatus → Run
run_with status last = record (new_run "r1" "t0" request) {
  status = status;
  execution_id = some "x";
  jobs = job "j1" JobStatus.succeeded ∷ job "j2" JobStatus.failed ∷ job "j3" last ∷ [];
}

abbrev store_with : Run → Store
store_with run = put_run run empty_store

abbrev pub failed_run : Run
failed_run = run_with RunStatus.partially_succeeded JobStatus.failed

abbrev pub retry_input : RetryInput
retry_input = record {
  run_id = "r1";
  expected_attempt = 1;
  scope = RetryScope.content;
  failed_job_ids = some ("j2" ∷ []);
}

pub retried :
    retry "t9" retry_input (store_with failed_run)
    ≡ ok (
      retried_run "t9" retry_input [] failed_run,
      put_run (retried_run "t9" retry_input [] failed_run) (store_with failed_run),
    )
unfolding retry require_run put_run new_run get set values other_active bad_selection bad_content
    not_retryable_job issue_withdrawn find_issue
retried = refl

abbrev pub no_counts : CandidateCounts
no_counts = record {
  discovered = 0;
  duplicate = 0;
  uncertain = 0;
  created = 0;
  skipped_by_limit = 0;
}

abbrev pub after_retry : Store
after_retry = put_run (retried_run "t9" retry_input [] failed_run) (store_with failed_run)

abbrev running_run : Run
running_run = run_with RunStatus.running JobStatus.running

running_found : get "r1" (store_with running_run).runs ≡ some running_run
unfolding put_run new_run get set
running_found = refl

executions_differ : running_run.execution_id ≢ some "y"
unfolding new_run
executions_differ e = absurd (cc ((==_iff {A = Option String} (some "x") (some "y")).1 e))

not_owner-no_change_example :
    (complete_discovery "t2" "r1" 1 "y" no_counts (store_with running_run)
      ≡ ok (tt, store_with running_run))
    × (fail_run "t2" "r1" 1 "y" "down" (store_with running_run) ≡ ok (tt, store_with running_run))
    × (update_run_stage "r1" 1 "y" Stage.fetch (store_with running_run)
        ≡ ok (tt, store_with running_run))
    × (complete_run "t2" "r1" 1 "y" (store_with running_run) ≡ ok (tt, store_with running_run))
not_owner-no_change_example =
    not_owner-no_change "t2" "r1" 1 "y" "down" no_counts Stage.fetch (store_with running_run)
      running_run running_found (inr (inl executions_differ))

abbrev interrupt_input : InterruptInput
interrupt_input = record { run_id = "r1"; expected_attempt = 1; execution_id = "x" }

abbrev after_interrupt : Store
after_interrupt = put_run (interrupted_run "t3" running_run) (store_with running_run)

interrupted :
    interrupt "t3" interrupt_input (store_with running_run)
    ≡ ok (interrupted_run "t3" running_run, after_interrupt)
unfolding interrupt require_run put_run new_run get set
interrupted = refl

interrupt-EndsAs_example :
    (get "r1" after_interrupt.runs ≡ some (interrupted_run "t3" running_run))
    × (any (λ j. is_unfinished j.status) (interrupted_run "t3" running_run).jobs ≡ false)
    × EndsAs RunStatus.failed
        (interrupted_run "t3" running_run).jobs
        (interrupted_run "t3" running_run).status
unfolding interrupted_run new_run
interrupt-EndsAs_example =
    interrupt-EndsAs "t3" interrupt_input (store_with running_run)
      (interrupted_run "t3" running_run) after_interrupt interrupted

abbrev done_run : Run
done_run = run_with RunStatus.running JobStatus.succeeded

done_found : get "r1" (store_with done_run).runs ≡ some done_run
unfolding put_run new_run get set
done_found = refl

done_held : owns done_run 1 "x" ≡ true
unfolding owns new_run
done_held = refl

complete_run-EndsAs_example :
    (s' : Store) × (complete_run "t4" "r1" 1 "x" (store_with done_run) ≡ ok (tt, s'))
    × (((all_ended done_run.jobs ≡ false) × (s' ≡ store_with done_run))
        ⊎ ((all_ended done_run.jobs ≡ true)
            × ((run' : Run) × (get "r1" s'.runs ≡ some run')
                × (run'.jobs ≡ done_run.jobs)
                × EndsAs RunStatus.succeeded done_run.jobs run'.status)))
unfolding new_run
complete_run-EndsAs_example =
    complete_run-EndsAs "t4" "r1" 1 "x" (store_with done_run) done_run done_found refl done_held
