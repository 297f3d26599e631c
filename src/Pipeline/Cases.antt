-- ===== src/Pipeline/Cases.antt =====
-- What holds when an operation of the repository has succeeded: the run that it found, the guards
-- that it passed and the state that it left.
use newtine_backend.Prelude.{
  String, true, false, not, ◌&&◌, some, ◌≡◌, inl, inr, arith, Option-cases, string_eq, nat_eq,
  option_eq, ==_iff,
}
use newtine_backend.Prelude.Map.{get}
use newtine_backend.Prelude.Result.{ok}
use newtine_backend.Pipeline.Types.{
  Run, RetryInput, InterruptInput, is_retryable, is_running, is_discovery,
}
use newtine_backend.Pipeline.Store.{Store, require_run, put_run}
use newtine_backend.Pipeline.Lifecycle.{
  retry, retried_run, other_active, bad_selection, bad_content, selected_of, interrupt,
  interrupted_run,
}

-- A retry that succeeds.
pub record Retried (now : String) (input : RetryInput) (s : Store) (out : Run) (s' : Store)
    : Type 0 where
  pub run : Run
  pub found : get input.run_id s.runs ≡ some run
  pub current : run.attempt ≡ input.expected_attempt
  pub ended : is_retryable run.status ≡ true
  pub alone : other_active run.id s ≡ false
  pub chosen : bad_selection s.issues run.jobs input.failed_job_ids ≡ false
  pub contents :
      (not (is_discovery input.scope)
        && bad_content s.issues run.jobs (selected_of input.failed_job_ids))
      ≡ false
  pub result : out ≡ retried_run now input s.issues run
  pub state : s' ≡ put_run (retried_run now input s.issues run) s

pub retry-Retried :
    (now : String) (input : RetryInput) (s : Store) (out : Run) (s' : Store)
    → retry now input s ≡ ok (out, s')
    → Retried now input s out s'
unfolding retry require_run
retry-Retried now input s out s' h = elim (Option-cases (get input.run_id s.runs)) [
  | inl e ↦ absurd (ground (arith, e))
  | inr (run, e) ↦ record {
    run = run;
    found = e;
    current = ground arith;
    ended = ground arith;
    alone = ground arith;
    chosen = ground arith;
    contents = ground arith;
    result = ground arith;
    state = ground arith;
  }
]

-- An interruption that succeeds.
pub record Interrupted (now : String) (input : InterruptInput) (s : Store) (out : Run) (s' : Store)
    : Type 0 where
  pub run : Run
  pub found : get input.run_id s.runs ≡ some run
  pub current : run.attempt ≡ input.expected_attempt
  pub running : is_running run.status ≡ true
  pub owner : run.execution_id ≡ some input.execution_id
  pub result : out ≡ interrupted_run now run
  pub state : s' ≡ put_run (interrupted_run now run) s

pub interrupt-Interrupted :
    (now : String) (input : InterruptInput) (s : Store) (out : Run) (s' : Store)
    → interrupt now input s ≡ ok (out, s')
    → Interrupted now input s out s'
unfolding interrupt require_run
interrupt-Interrupted now input s out s' h = elim (Option-cases (get input.run_id s.runs)) [
  | inl e ↦ absurd (ground (arith, e))
  | inr (run, e) ↦ record {
    run = run;
    found = e;
    current = ground arith;
    running = ground arith;
    owner = ground (arith, ==_iff run.execution_id (some input.execution_id));
    result = ground arith;
    state = ground arith;
  }
]
