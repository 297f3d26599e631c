-- ===== src/Pipeline/Outcomes.antt =====
-- How an attempt ends: `interrupt` and `completeRun` of inMemoryPipeline.repository.ts, against a
-- description of the final status that counts nothing.
use newtine_backend.Prelude.{
  ℕ, ◌<◌, String, Bool, true, false, not, ◌&&◌, ◌||◌, some, List, [], ◌∷◌, ◌≡◌, refl, ◌⊎◌, inl, inr,
  arith, map, any, all, length, Bool-cases, subst, subst₂, sym, ap, ◌∙◌, length-keep-le, nat_eq,
}
use newtine_backend.Prelude.Map.{get, set, get-set_self}
use newtine_backend.Prelude.Result.{ok}
use newtine_backend.Pipeline.Types.{
  Run, RunStatus, Job, InterruptInput, is_unfinished, is_succeeded, is_failed,
}
use newtine_backend.Pipeline.Store.{Store, require_run, put_run, owns}
use newtine_backend.Pipeline.Lifecycle.{
  interrupt, interrupted_run, interrupt_job, interrupted_status, success_count, failed_count,
  complete_run, completed_status,
}
use newtine_backend.Pipeline.Cases.{interrupt-Interrupted}

-- The final status of an attempt: all jobs succeeded, some did, none did. A run without jobs gets
-- `on_empty`.
abbrev pub EndsAs : RunStatus → List Job → RunStatus → Type 0
EndsAs on_empty [] st = st ≡ on_empty
EndsAs on_empty (job ∷ jobs) st =
    ((st ≡ RunStatus.succeeded) × (all (λ j. is_succeeded j.status) (job ∷ jobs) ≡ true))
    ⊎ ((st ≡ RunStatus.partially_succeeded)
        × (any (λ j. is_succeeded j.status) (job ∷ jobs) ≡ true)
        × (all (λ j. is_succeeded j.status) (job ∷ jobs) ≡ false))
    ⊎ ((st ≡ RunStatus.failed) × (any (λ j. is_succeeded j.status) (job ∷ jobs) ≡ false))

-- Every job has succeeded or failed.
abbrev pub all_ended : List Job → Bool
all_ended jobs = all (λ j. is_succeeded j.status || is_failed j.status) jobs

all-of_success_count :
    (jobs : List Job)
    → (all (λ j. is_succeeded j.status) jobs ≡ true → success_count jobs ≡ length jobs)
      × (all (λ j. is_succeeded j.status) jobs ≡ false → success_count jobs < length jobs)
all-of_success_count [] = (λ _. refl, λ h. absurd (cc))
all-of_success_count (j ∷ jobs) =
    let (a, b) = all-of_success_count jobs in
    let le = length-keep-le (λ (x : Job). is_succeeded x.status) jobs in
    (ground (arith, a, b, le), ground (arith, a, b, le))

any-of_success_count :
    (jobs : List Job)
    → (any (λ j. is_succeeded j.status) jobs ≡ true → 0 < success_count jobs)
      × (any (λ j. is_succeeded j.status) jobs ≡ false → success_count jobs ≡ 0)
any-of_success_count [] = (λ h. absurd (cc), λ _. refl)
any-of_success_count (j ∷ jobs) =
    let (a, b) = any-of_success_count jobs in (ground (arith, a, b), ground (arith, a, b))

-- With every job ended, none failed exactly when all succeeded.
failed_count-of_all :
    (jobs : List Job)
    → all_ended jobs ≡ true
    → (all (λ j. is_succeeded j.status) jobs ≡ true → failed_count jobs ≡ 0)
      × (all (λ j. is_succeeded j.status) jobs ≡ false → 0 < failed_count jobs)
failed_count-of_all [] h = (λ _. refl, λ e. absurd (cc))
failed_count-of_all (j ∷ jobs) h =
    let (a, b) = failed_count-of_all jobs (ground arith) in
    (ground (arith, a, b), ground (arith, a, b))

completed_status-EndsAs :
    (jobs : List Job)
    → all_ended jobs ≡ true
    → EndsAs RunStatus.succeeded jobs (completed_status jobs)
unfolding completed_status
completed_status-EndsAs [] h = refl
completed_status-EndsAs (j ∷ jobs) h = ground (
  arith,
  failed_count-of_all (j ∷ jobs) h,
  any-of_success_count (j ∷ jobs),
  Bool-cases (all (λ x. is_succeeded x.status) (j ∷ jobs)),
  Bool-cases (any (λ x. is_succeeded x.status) (j ∷ jobs)),
)

failed_count-of_succeeded :
    (jobs : List Job) → all (λ j. is_succeeded j.status) jobs ≡ true → failed_count jobs ≡ 0
failed_count-of_succeeded [] h = refl
failed_count-of_succeeded (j ∷ jobs) h = ground (arith, failed_count-of_succeeded jobs)

interrupted_status-EndsAs :
    (jobs : List Job) → EndsAs RunStatus.failed jobs (interrupted_status jobs)
unfolding interrupted_status
interrupted_status-EndsAs [] = refl
interrupted_status-EndsAs (j ∷ jobs) = ground (
  arith,
  failed_count-of_succeeded (j ∷ jobs),
  all-of_success_count (j ∷ jobs),
  any-of_success_count (j ∷ jobs),
  Bool-cases (all (λ x. is_succeeded x.status) (j ∷ jobs)),
  Bool-cases (any (λ x. is_succeeded x.status) (j ∷ jobs)),
)

interrupt_job-finished :
    (jobs : List Job) → any (λ j. is_unfinished j.status) (map interrupt_job jobs) ≡ false
unfolding interrupt_job
interrupt_job-finished [] = refl
interrupt_job-finished (j ∷ jobs) = ground (arith, interrupt_job-finished jobs)

-- An interruption that succeeds stores the run it returns, and nothing of it is left `QUEUED` or
-- `RUNNING`: its status is `SUCCEEDED` if it has jobs and all succeeded, `PARTIALLY_SUCCEEDED` if some
-- did and some did not, and `FAILED` if none did.
pub interrupt-EndsAs :
    (now : String) (input : InterruptInput) (s : Store) (out : Run) (s' : Store)
    → interrupt now input s ≡ ok (out, s')
    → (get out.id s'.runs ≡ some out)
      × (any (λ j. is_unfinished j.status) out.jobs ≡ false)
      × EndsAs RunStatus.failed out.jobs out.status
unfolding interrupted_run put_run
interrupt-EndsAs now input s out s' h =
    let c = interrupt-Interrupted now input s out s' h in
    let state : s' ≡ put_run out s = c.state ∙ ap (λ r. put_run r s) (sym c.result) in
    let jobs : out.jobs ≡ map interrupt_job c.run.jobs = ap (λ (r : Run). r.jobs) c.result in
    let status : out.status ≡ interrupted_status (map interrupt_job c.run.jobs) =
      ap (λ (r : Run). r.status) c.result in
    (
      subst (λ (q : Store). get out.id q.runs ≡ some out) (sym state)
          (get-set_self out.id out s.runs),
      subst (λ js. any (λ j. is_unfinished j.status) js ≡ false) (sym jobs)
          (interrupt_job-finished c.run.jobs),
      subst₂ (λ js st. EndsAs RunStatus.failed js st) (sym jobs) (sym status)
          (interrupted_status-EndsAs (map interrupt_job c.run.jobs)),
    )

not_ended-any :
    (jobs : List Job)
    → any (λ j. not (is_succeeded j.status) && not (is_failed j.status)) jobs ≡ not (all_ended jobs)
not_ended-any [] = refl
not_ended-any (j ∷ jobs) = ground (arith, not_ended-any jobs)

-- For a run that is stored under its id and that the caller holds, `completeRun` ends the run exactly
-- when every job has succeeded or failed: then it stores the run with the same jobs and the status
-- that they determine (`SUCCEEDED` where there are none); else it changes nothing.
pub complete_run-EndsAs :
    (now run_id : String) (attempt : ℕ) (x : String) (s : Store) (run : Run)
    → get run_id s.runs ≡ some run
    → run.id ≡ run_id
    → owns run attempt x ≡ true
    → (s' : Store) × (complete_run now run_id attempt x s ≡ ok (tt, s'))
      × (((all_ended run.jobs ≡ false) × (s' ≡ s))
          ⊎ ((all_ended run.jobs ≡ true)
              × ((run' : Run) × (get run_id s'.runs ≡ some run')
                  × (run'.jobs ≡ run.jobs)
                  × EndsAs RunStatus.succeeded run.jobs run'.status)))
unfolding complete_run require_run put_run
complete_run-EndsAs now run_id attempt x s run found at held =
    elim (Bool-cases (all_ended run.jobs)) [
      | inr e ↦ (s, ground (arith, found, not_ended-any run.jobs, e), inl (e, refl))
      | inl e ↦
          let run' : Run = record run {
            status = completed_status run.jobs;
            finished_at = some now;
            updated_at = now;
          } in
          (
            put_run run' s,
            ground (arith, found, not_ended-any run.jobs, e),
            inr (
              e,
              (
                run',
                subst (λ k. get k (set run.id run' s.runs) ≡ some run') at
                    (get-set_self run.id run' s.runs),
                refl,
                completed_status-EndsAs run.jobs e,
              ),
            ),
          )
    ]
