-- ===== src/Pipeline/Evolution/Worker.antt =====
-- The calls of a worker, `Pipeline/Lifecycle/Worker.antt`, as steps in the life of a run.
use newtine_backend.Prelude.{
  ℕ, String, Bool, true, not, ◌&&◌, some, List, ◌≡◌, refl, inl, inr, arith, Option-cases,
  Bool-cases, string_eq, nat_eq, option_eq, Memᴰ, subst, if◌then◌else◌, any, head?-Memᴰ, sort-Memᴰ,
  keep-Memᴰ,
}
use newtine_backend.Prelude.Map.{get, values, get-of_Memᴰ}
use newtine_backend.Prelude.Result.{Result, ok, ◌>>=◌}
use newtine_backend.Pipeline.Types.{
  Run, RunStatus, Job, Stage, Usage, CandidateCounts, ExceptionCode, is_active, is_queued,
  is_succeeded, is_failed,
}
use newtine_backend.Pipeline.Store.{Platform, Store, require_run, put_run, owns}
use newtine_backend.Pipeline.Lifecycle.{
  next_queued, claim_next, claimed_run, complete_discovery, fail_run, update_run_stage,
  complete_run, completed_status, record_usage,
}
use newtine_backend.Pipeline.Evolution.{
  Evolves, Phase, stays, claimed, finished, is_final, KeepsJobs-refl,
}
use newtine_backend.Pipeline.Evolution.Writes.{Writes, unchanged, run_key, RunsKeyed}
use newtine_backend.Pipeline.Evolution.Runs.{put_run-Writes, queued-active}

-- The run that `claimNext` takes is in the map, and queued.
pub next_queued-queued :
    (p : Platform) (s : Store) (run : Run)
    → next_queued p s ≡ some run
    → Memᴰ run (values s.runs) × (is_queued run.status ≡ true)
unfolding next_queued
next_queued-queued p s run e = keep-Memᴰ _ _ run (sort-Memᴰ _ run _ (head?-Memᴰ _ e))

claimed_run-Evolves :
    (now execution_id : String) (r : Run)
    → is_queued r.status ≡ true
    → Evolves r (claimed_run now execution_id r)
unfolding claimed_run
claimed_run-Evolves now execution_id r queued = record {
  id = refl;
  idempotency_key = refl;
  request_hash = refl;
  request = refl;
  created_at = refl;
  phase = claimed (ground arith) refl refl;
  jobs = KeepsJobs-refl r.jobs;
}

pub claim_next-Writes :
    (p : Platform) (now execution_id : String) (s : Store)
    → RunsKeyed s
    → Writes s.runs (claim_next p now execution_id s).1.runs
unfolding claim_next
claim_next-Writes p now execution_id s w = elim (Option-cases (next_queued p s)) [
  | inl e ↦ rw (e, claim_next) unchanged
  | inr (run, e) ↦
      let (m, queued) = next_queued-queued p s run e in
      rw (e, claim_next)
        (put_run-Writes run.id s run _ w (get-of_Memᴰ run_key run s.runs w m)
          (claimed_run-Evolves now execution_id run queued)
          (inl (λ _. queued-active run.status queued)))
]

-- A worker call: it throws, or writes a run that evolves, or changes nothing.
module _ (run_id : String) (test : Run → Bool) (f : Run → Run) (s : Store) (w : RunsKeyed s)
    (evolves : (r : Run) → test r ≡ true → Evolves r (f r))
    (active : (r : Run) → test r ≡ true → is_active r.status ≡ true) where
  guarded_write-Writes :
      {s' : Store}
      → ◌≡◌ {A = Result ExceptionCode (Unit {0} × Store)}
          (require_run run_id s >>= λ run. ok (tt, if test run then put_run (f run) s else s))
          (ok (tt, s'))
      → Writes s.runs s'.runs
  unfolding require_run
  guarded_write-Writes {s'} h = elim (Option-cases (get run_id s.runs)) [
    | inl e ↦ absurd (ground (arith, e))
    | inr (run, e) ↦ elim (Bool-cases (test run)) [
      | inl passed ↦
          let same : put_run (f run) s ≡ s' = ground (arith, e, passed) in
          subst (λ (q : Store). Writes s.runs q.runs) same
            (put_run-Writes run_id s run (f run) w e (evolves run passed)
              (inl (λ _. active run passed)))
      | inr stopped ↦
          let same : s ≡ s' = ground (arith, e, stopped) in
          subst (λ (q : Store). Writes s.runs q.runs) same unchanged
    ]
  ]

owns-active :
    (r : Run) (attempt : ℕ) (x : String) → owns r attempt x ≡ true → is_active r.status ≡ true
unfolding owns
owns-active r attempt x h = ground arith

owns-running :
    (r : Run) (attempt : ℕ) (x : String) → owns r attempt x ≡ true → r.status ≡ RunStatus.running
unfolding owns
owns-running r attempt x h = ground arith

-- A change that leaves identity, phase and jobs.
same-Phase :
    (r r' : Run)
    → r'.id ≡ r.id
    → r'.idempotency_key ≡ r.idempotency_key
    → r'.request_hash ≡ r.request_hash
    → r'.request ≡ r.request
    → r'.created_at ≡ r.created_at
    → Phase r r'
    → r.jobs ≡ r'.jobs
    → Evolves r r'
same-Phase r r' a b c d e f g = record {
  id = a;
  idempotency_key = b;
  request_hash = c;
  request = d;
  created_at = e;
  phase = f;
  jobs = λ j m _. subst (λ js. Memᴰ j js) g m;
}

module _ (now run_id : String) (attempt : ℕ) (x : String) (s : Store) (w : RunsKeyed s) where
  pub complete_discovery-Writes :
      (outcome : CandidateCounts) {s' : Store}
      → complete_discovery now run_id attempt x outcome s ≡ ok (tt, s')
      → Writes s.runs s'.runs
  unfolding complete_discovery
  complete_discovery-Writes outcome h =
      guarded_write-Writes run_id (λ r. owns r attempt x)
        (λ r. record r { candidate_counts = outcome; updated_at = now }) s w
        (λ r _. same-Phase r _ refl refl refl refl refl (stays refl refl) refl)
        (λ r o. owns-active r attempt x o) h

  pub fail_run-Writes :
      (message : String) {s' : Store}
      → fail_run now run_id attempt x message s ≡ ok (tt, s')
      → Writes s.runs s'.runs
  unfolding fail_run
  fail_run-Writes message h =
      guarded_write-Writes run_id (λ r. owns r attempt x)
        (λ r. record r {
          status = RunStatus.failed;
          last_error = some message;
          finished_at = some now;
          updated_at = now;
        })
        s w
        (λ r o.
          same-Phase r _ refl refl refl refl refl (finished (owns-running r attempt x o) refl refl)
            refl)
        (λ r o. owns-active r attempt x o) h

  pub update_run_stage-Writes :
      (stage : Stage) {s' : Store}
      → update_run_stage run_id attempt x stage s ≡ ok (tt, s')
      → Writes s.runs s'.runs
  unfolding update_run_stage
  update_run_stage-Writes stage h =
      guarded_write-Writes run_id (λ r. owns r attempt x)
        (λ r. record r { current_stage = some stage }) s w
        (λ r _. same-Phase r _ refl refl refl refl refl (stays refl refl) refl)
        (λ r o. owns-active r attempt x o) h

  completed_status-is_final : (jobs : List Job) → is_final (completed_status jobs) ≡ true
  unfolding completed_status
  completed_status-is_final jobs = ground arith

  pub complete_run-Writes :
      {s' : Store} → complete_run now run_id attempt x s ≡ ok (tt, s') → Writes s.runs s'.runs
  unfolding complete_run
  complete_run-Writes h =
      guarded_write-Writes run_id
        (λ r.
          owns r attempt x
          && not (any (λ job. not (is_succeeded job.status) && not (is_failed job.status)) r.jobs))
        (λ r. record r {
          status = completed_status r.jobs;
          finished_at = some now;
          updated_at = now;
        })
        s w
        (λ r o.
          same-Phase r _ refl refl refl refl refl
            (finished (owns-running r attempt x (ground arith)) (completed_status-is_final r.jobs)
              refl)
            refl)
        (λ r o. owns-active r attempt x (ground arith)) h

pub record_usage-Writes :
    (now : String) (input : Usage) (s : Store)
    → RunsKeyed s
    → Writes s.runs (record_usage now input s).runs
unfolding record_usage
record_usage-Writes now input s w = elim (Option-cases (get input.run_id s.runs)) [
  | inl e ↦ rw (e, record_usage) unchanged
  | inr (run, e) ↦
      rw (e, record_usage)
        (put_run-Writes input.run_id _ run _ w e
          (same-Phase run _ refl refl refl refl refl (stays refl refl) refl) (inl (λ a. a)))
]
