-- ===== src/Pipeline/Evolution/Jobs.antt =====
-- The operations on jobs, `Pipeline/Jobs.antt`, and on embedding tasks, `Pipeline/Embedding.antt`,
-- as steps in the life of a run.
use newtine_backend.Prelude.{
  ℕ, String, Bool, true, false, ◌&&◌, Option, none, some, List, [], ◌∷◌, ◌≡◌, refl, inl, inr, arith,
  Option-cases, Bool-cases, ◌==◌, string_eq, nat_eq, option_eq, Memᴰ, subst, sym, ap, ◌∙◌, find,
}
use newtine_backend.Prelude.Map.{get, values, get-of_Memᴰ}
use newtine_backend.Prelude.Result.{ok}
use newtine_backend.Pipeline.Types.{
  Run, Job, JobStatus, Stage, Issue, FailureKind, FetchedArticle, RegisterInput, is_succeeded,
  job_is_queued, job_is_running,
}
use newtine_backend.Pipeline.Validator.{Content, Semantic}
use newtine_backend.Pipeline.Store.{
  Platform, Store, require_run, put_run, put_job, owns_run, owner_among, find_job_owner, find_issue,
  normalize_title, recompute_embedding_pending_counts,
}
use newtine_backend.Pipeline.Jobs.{
  register_issue, RegisterResult, add_issue, claim_job, update_job_stage, save_job_failure,
  save_job_success, owns_job, publish, succeeded_job, has_title,
}
use newtine_backend.Pipeline.Evolution.{Evolves, stays, append-KeepsJobs, update_first-KeepsJobs}
use newtine_backend.Pipeline.Evolution.Writes.{Writes, unchanged, recounts, run_key, RunsKeyed}
use newtine_backend.Pipeline.Evolution.Runs.{put_run-Writes}

owner_among-Memᴰ :
    (job_id : String) (runs : List Run) (run : Run) (job : Job)
    → owner_among job_id runs ≡ some (run, job)
    → Memᴰ run runs × (find (λ j. j.id == job_id) run.jobs ≡ some job)
unfolding owner_among
owner_among-Memᴰ job_id [] run job h = absurd (cc)
owner_among-Memᴰ job_id (x ∷ runs) run job h =
    elim (Option-cases (find (λ j. j.id == job_id) x.jobs)) [
      | inl e ↦
          let (m, f) = owner_among-Memᴰ job_id runs run job (ground (arith, e)) in (Memᴰ.tail m, f)
      | inr (y, e) ↦
          let same_run : run ≡ x = ground (arith, e) in
          let same_job : y ≡ job = ground (arith, e) in
          (
            Memᴰ.head same_run,
            subst (λ r. find (λ j. j.id == job_id) r.jobs ≡ some job) (sym same_run)
                (e ∙ ap some same_job),
          )
    ]

-- The run that `findJobOwner` returns is the one stored under its id, and has the job.
pub find_job_owner-found :
    (job_id : String) (s : Store) (run : Run) (job : Job)
    → RunsKeyed s
    → find_job_owner job_id s ≡ some (run, job)
    → (get run.id s.runs ≡ some run) × (find (λ j. j.id == job_id) run.jobs ≡ some job)
unfolding find_job_owner
find_job_owner-found job_id s run job w h =
    let (m, f) = owner_among-Memᴰ job_id (values s.runs) run job h in
    (get-of_Memᴰ run_key run s.runs w m, f)

-- A write to a job that has not succeeded.
put_job-Evolves :
    (job_id now : String) (f : Job → Job) (run : Run) (job : Job)
    → find (λ j. j.id == job_id) run.jobs ≡ some job
    → is_succeeded job.status ≡ false
    → Evolves run (record (put_job job_id f run) { updated_at = now })
unfolding put_job
put_job-Evolves job_id now f run job found h = record {
  id = refl;
  idempotency_key = refl;
  request_hash = refl;
  request = refl;
  created_at = refl;
  phase = stays refl refl;
  jobs = update_first-KeepsJobs _ f run.jobs job found h;
}

-- Publishing writes no run but its count of open tasks.
publish-Writes :
    (p : Platform) (fresh job_id : String) (attempt : ℕ) (model : String) (run : Run)
    (issue : Option Issue) (summary : String) (before s : Store)
    → Writes before.runs s.runs
    → Writes before.runs (publish p fresh job_id attempt model run issue summary s).runs
unfolding publish recompute_embedding_pending_counts
publish-Writes p fresh job_id attempt model run none summary before s h = h
publish-Writes p fresh job_id attempt model run (some issue) summary before s h = recounts _ _ h

module _ (job_id : String) (s : Store) (w : RunsKeyed s) where
  -- The write of a worker call on the job that it found.
  job_write-Writes :
      (now : String) (f : Job → Job) (run : Run) (job : Job)
      → find_job_owner job_id s ≡ some (run, job)
      → is_succeeded job.status ≡ false
      → Writes s.runs (put_run (record (put_job job_id f run) { updated_at = now }) s).runs
  unfolding put_job
  job_write-Writes now f run job e h =
      let (at, found) = find_job_owner-found job_id s run job w e in
      put_run-Writes run.id s run _ w at (put_job-Evolves job_id now f run job found h)
        (inl (λ a. a))

  queued-not_succeeded : (st : JobStatus) → job_is_queued st ≡ true → is_succeeded st ≡ false
  queued-not_succeeded st h = ground arith

  running-not_succeeded : (st : JobStatus) → job_is_running st ≡ true → is_succeeded st ≡ false
  running-not_succeeded st h = ground arith

  owns_job-running :
      (run : Run) (job : Job) (attempt : ℕ) (x : String)
      → owns_job run job attempt x ≡ true
      → is_succeeded job.status ≡ false
  unfolding owns_job
  owns_job-running run job attempt x h = running-not_succeeded job.status (ground arith)

  pub claim_job-Writes :
      (attempt : ℕ) (x : String) → Writes s.runs (claim_job job_id attempt x s).1.runs
  unfolding claim_job put_job
  claim_job-Writes attempt x = elim (Option-cases (find_job_owner job_id s)) [
    | inl e ↦ rw (e, claim_job) unchanged
    | inr ((run, job), e) ↦
        elim (Bool-cases (owns_run run x && job_is_queued job.status && job.attempt == attempt)) [
          | inl passed ↦
              rw (e, claim_job)
                (rw passed (
                  job_write-Writes run.updated_at _ run job e
                    (queued-not_succeeded job.status (ground arith))))
          | inr stopped ↦ rw (e, claim_job) (rw stopped unchanged)
        ]
  ]

  pub update_job_stage-Writes :
      (attempt : ℕ) (x : String) (stage : Stage)
      → Writes s.runs (update_job_stage job_id attempt x stage s).runs
  unfolding update_job_stage put_job
  update_job_stage-Writes attempt x stage = elim (Option-cases (find_job_owner job_id s)) [
    | inl e ↦ rw (e, update_job_stage) unchanged
    | inr ((run, job), e) ↦ elim (Bool-cases (owns_job run job attempt x)) [
      | inl passed ↦
          rw (e, update_job_stage)
            (rw passed (
              job_write-Writes run.updated_at _ run job e
                (owns_job-running run job attempt x passed)))
      | inr stopped ↦ rw (e, update_job_stage) (rw stopped unchanged)
    ]
  ]

  pub save_job_failure-Writes :
      (now : String) (attempt : ℕ) (x : String) (kind : Option FailureKind) (message : String)
      → Writes s.runs (save_job_failure now job_id attempt x kind message s).runs
  unfolding save_job_failure
  save_job_failure-Writes now attempt x kind message =
      elim (Option-cases (find_job_owner job_id s)) [
        | inl e ↦ rw (e, save_job_failure) unchanged
        | inr ((run, job), e) ↦ elim (Bool-cases (owns_job run job attempt x)) [
          | inl passed ↦
              rw (e, save_job_failure)
                (rw passed
                  (job_write-Writes now _ run job e (owns_job-running run job attempt x passed)))
          | inr stopped ↦ rw (e, save_job_failure) (rw stopped unchanged)
        ]
      ]

  pub save_job_success-Writes :
      (p : Platform) (now fresh : String) (attempt : ℕ) (x : String) (content : Content)
      (validation : Semantic) (evidence : List FetchedArticle) (model : String) {done : Bool}
      {s' : Store}
      → save_job_success p now fresh job_id attempt x content validation evidence model s
        ≡ ok (done, s')
      → Writes s.runs s'.runs
  unfolding save_job_success
  save_job_success-Writes p now fresh attempt x content validation evidence model {s' = s'} h =
      elim (Option-cases (find_job_owner job_id s)) [
        | inl e ↦
            let same : s ≡ s' = ground (arith, e) in
            subst (λ (q : Store). Writes s.runs q.runs) same unchanged
        | inr ((run, job), e) ↦ elim (Bool-cases (owns_job run job attempt x)) [
          | inr stopped ↦
              let same : s ≡ s' = ground (arith, e, stopped) in
              subst (λ (q : Store). Writes s.runs q.runs) same unchanged
          | inl passed ↦
              let written : Store =
                put_run (record (put_job job_id succeeded_job run) { updated_at = now }) s in
              let same : publish p fresh job_id attempt model run (find_issue job.issue_id s.issues)
                    content.integrated_summary written
                  ≡ s' =
                ground (arith, e, passed) in
              subst (λ (q : Store). Writes s.runs q.runs) same
                (publish-Writes p fresh job_id attempt model run (find_issue job.issue_id s.issues)
                  content.integrated_summary s written
                  (job_write-Writes now succeeded_job run job e
                    (owns_job-running run job attempt x passed)))
        ]
      ]

add_issue-Writes :
    (p : Platform) (now issue_id job_id : String) (input : RegisterInput) (run : Run) (s : Store)
    → RunsKeyed s
    → get input.run_id s.runs ≡ some run
    → Writes s.runs (add_issue p now issue_id job_id input run s).runs
unfolding add_issue
add_issue-Writes p now issue_id job_id input run s w e =
    put_run-Writes input.run_id _ run _ w e
      (record {
        id = refl;
        idempotency_key = refl;
        request_hash = refl;
        request = refl;
        created_at = refl;
        phase = stays refl refl;
        jobs = append-KeepsJobs run.jobs _;
      })
      (inl (λ a. a))

pub register_issue-Writes :
    (p : Platform) (now issue_id job_id : String) (input : RegisterInput) (s : Store)
    {out : RegisterResult} {s' : Store}
    → RunsKeyed s
    → register_issue p now issue_id job_id input s ≡ ok (out, s')
    → Writes s.runs s'.runs
unfolding register_issue require_run
register_issue-Writes p now issue_id job_id input s {s' = s'} w h =
    elim (Option-cases (get input.run_id s.runs)) [
      | inl e ↦ absurd (ground (arith, e))
      | inr (run, e) ↦
          elim (Bool-cases (has_title p (normalize_title p input.candidate.title) s.issues)) [
            | inl known ↦
                let same : s ≡ s' = ground (arith, e, known) in
                subst (λ (q : Store). Writes s.runs q.runs) same unchanged
            | inr new ↦
                let same : add_issue p now issue_id job_id input run s ≡ s' =
                  ground (arith, e, new) in
                subst (λ (q : Store). Writes s.runs q.runs) same
                  (add_issue-Writes p now issue_id job_id input run s w e)
          ]
    ]
