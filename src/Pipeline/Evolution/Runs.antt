-- ===== src/Pipeline/Evolution/Runs.antt =====
-- The operations on runs, `Pipeline/Lifecycle.antt`, as steps in the life of a run.
use newtine_backend.Prelude.{
  ℕ, String, true, false, not, ◌&&◌, none, some, List, ◌≡◌, refl, inl, inr, map, arith,
  Option-cases, ◌==◌, string_eq, nat_eq, option_eq, ==_iff, subst, sym, ◌∙◌, find, any-Memᴰ,
}
use newtine_backend.Prelude.Map.{get, set, values, get-IsKeyed, get-Memᴰ}
use newtine_backend.Prelude.Result.{ok}
use newtine_backend.Pipeline.Types.{
  Run, RunStatus, Job, Issue, EnqueueInput, RetryInput, InterruptInput, RetryScope, is_active,
  is_running, is_queued, is_retryable, is_succeeded,
}
use newtine_backend.Pipeline.Store.{Store, put_run}
use newtine_backend.Pipeline.Lifecycle.{
  enqueue, new_run, any_active, retry, retried_run, requeue_job, interrupt, interrupted_run,
  interrupted_status, interrupt_job, other_active,
}
use newtine_backend.Pipeline.Cases.{retry-Retried, interrupt-Interrupted}
use newtine_backend.Pipeline.Evolution.{Evolves, finished, requeued, is_final, map-KeepsJobs}
use newtine_backend.Pipeline.Evolution.Writes.{
  Writes, unchanged, writes, adds, run_key, RunsKeyed, Quiet, OthersInactive, NoneActive,
}

-- A write to the run that is stored under `k`.
pub put_run-Writes :
    (k : String) (s : Store) (r r' : Run)
    → RunsKeyed s
    → get k s.runs ≡ some r
    → Evolves r r'
    → Quiet k s.runs r r'
    → Writes s.runs (put_run r' s).runs
unfolding put_run
put_run-Writes k s r r' w found e q =
    let same : r.id ≡ k = get-IsKeyed run_key k r s.runs w found in
    subst (λ i. Writes s.runs (set i r' s.runs)) (sym (e.id ∙ same)) (writes k r r' found same e q)

any-inactive :
    (s : Store) (j : String) (r : Run)
    → any_active s ≡ false
    → get j s.runs ≡ some r
    → is_active r.status ≡ false
any-inactive s j r h e =
    any-Memᴰ (λ run. is_active run.status) r (values s.runs) (get-Memᴰ j s.runs r e) h

-- Where `enqueue` found no active run, there is none.
NoneActive-of_any : (s : Store) → any_active s ≡ false → NoneActive s.runs
NoneActive-of_any s h j r e = any-inactive s j r h e

pub enqueue-Writes :
    (id now : String) (input : EnqueueInput) (s : Store) {out : Run} {s' : Store}
    → get id s.runs ≡ none
    → enqueue id now input s ≡ ok (out, s')
    → Writes s.runs s'.runs
unfolding enqueue new_run
enqueue-Writes id now input s {s' = s'} fresh h =
    elim (Option-cases
      (find (λ run. run.idempotency_key == input.idempotency_key) (values s.runs))) [
        | inr (old, e) ↦
            let same : s.runs ≡ s'.runs = ground (arith, e) in
            subst (λ m. Writes s.runs m) same unchanged
        | inl e ↦
            let same : set id (new_run id now input) s.runs ≡ s'.runs = ground (arith, e) in
            subst (λ m. Writes s.runs m) same
              (adds id _ fresh refl (NoneActive-of_any s (ground (arith, e))))
      ]

requeue_job-succeeded :
    (scope : RetryScope) (selected : List String) (attempt : ℕ) (issues : List Issue) (j : Job)
    → is_succeeded j.status ≡ true
    → requeue_job scope selected attempt issues j ≡ j
unfolding requeue_job
requeue_job-succeeded scope selected attempt issues j e = ground arith

retried_run-Evolves :
    (now : String) (input : RetryInput) (issues : List Issue) (r : Run)
    → is_retryable r.status ≡ true
    → Evolves r (retried_run now input issues r)
unfolding retried_run
retried_run-Evolves now input issues r ended = record {
  id = refl;
  idempotency_key = refl;
  request_hash = refl;
  request = refl;
  created_at = refl;
  phase = requeued ended refl refl;
  jobs = map-KeepsJobs _ r.jobs (requeue_job-succeeded input.scope _ _ issues);
}

-- Where `retry` found no other active run, there is none.
other_active-OthersInactive :
    (k : String) (s : Store) → RunsKeyed s → other_active k s ≡ false → OthersInactive k s.runs
unfolding other_active
other_active-OthersInactive k s w h j r e active =
    sym (get-IsKeyed run_key j r s.runs w e)
    ∙ (==_iff r.id k).0 (
        ground (
          arith,
          active,
          any-Memᴰ (λ item. not (item.id == k) && is_active item.status) r (values s.runs)
              (get-Memᴰ j s.runs r e) h,
        ))

pub retry-Writes :
    (now : String) (input : RetryInput) (s : Store) {out : Run} {s' : Store}
    → RunsKeyed s
    → retry now input s ≡ ok (out, s')
    → Writes s.runs s'.runs
retry-Writes now input s {out} {s'} w h =
    let c = retry-Retried now input s out s' h in
    subst (λ (q : Store). Writes s.runs q.runs) (sym c.state)
      (put_run-Writes input.run_id s c.run _ w c.found
        (retried_run-Evolves now input s.issues c.run c.ended)
        (inr (
          subst (λ k. OthersInactive k s.runs)
            (get-IsKeyed run_key input.run_id c.run s.runs w c.found)
            (other_active-OthersInactive c.run.id s w c.alone))))

pub running-active : (st : RunStatus) → is_running st ≡ true → is_active st ≡ true
running-active st h = ground arith

pub queued-active : (st : RunStatus) → is_queued st ≡ true → is_active st ≡ true
queued-active st h = ground arith

interrupted_status-is_final : (jobs : List Job) → is_final (interrupted_status jobs) ≡ true
unfolding interrupted_status
interrupted_status-is_final jobs = ground arith

interrupt_job-succeeded : (j : Job) → is_succeeded j.status ≡ true → interrupt_job j ≡ j
unfolding interrupt_job
interrupt_job-succeeded j e = ground arith

interrupted_run-Evolves :
    (now : String) (r : Run) → is_running r.status ≡ true → Evolves r (interrupted_run now r)
unfolding interrupted_run
interrupted_run-Evolves now r running = record {
  id = refl;
  idempotency_key = refl;
  request_hash = refl;
  request = refl;
  created_at = refl;
  phase = finished (ground arith) (interrupted_status-is_final (map interrupt_job r.jobs)) refl;
  jobs = map-KeepsJobs interrupt_job r.jobs interrupt_job-succeeded;
}

pub interrupt-Writes :
    (now : String) (input : InterruptInput) (s : Store) {out : Run} {s' : Store}
    → RunsKeyed s
    → interrupt now input s ≡ ok (out, s')
    → Writes s.runs s'.runs
interrupt-Writes now input s {out} {s'} w h =
    let c = interrupt-Interrupted now input s out s' h in
    subst (λ (q : Store). Writes s.runs q.runs) (sym c.state)
      (put_run-Writes input.run_id s c.run _ w c.found (interrupted_run-Evolves now c.run c.running)
        (inl (λ _. running-active c.run.status c.running)))
