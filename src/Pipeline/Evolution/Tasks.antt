-- ===== src/Pipeline/Evolution/Tasks.antt =====
-- The operations on embedding tasks, `Pipeline/Embedding.antt`, as steps in the life of a run.
use newtine_backend.Prelude.{
  ℕ, String, Bool, Option, some, List, [], ◌∷◌, ◌≡◌, refl, inl, inr, arith, Option-cases,
  Bool-cases, subst, sym, ◌&&◌, keep, length, ltb, ◌==◌, string_eq, option_eq,
}
use newtine_backend.Prelude.Map.{get, set, values}
use newtine_backend.Prelude.Result.{ok}
use newtine_backend.Pipeline.Types.{Run, Job, EmbeddingTask}
use newtine_backend.Pipeline.Store.{
  Platform, Store, find_issue, found_published, find_job_owner, recompute_embedding_pending_counts,
}
use newtine_backend.Pipeline.Embedding.{
  Vector, SaveResult, save_embedding, saved_task, fits, mark_embedding_pending, mark_task,
  may_mark_run, task_is_pending, task_is_running, task_by_id, claim_pending_embedding_tasks,
  put_tasks, put_task, fail_embedding_task, release_embedding_claim, put_back_all,
}
use newtine_backend.Pipeline.Evolution.{stays, KeepsJobs-refl}
use newtine_backend.Pipeline.Evolution.Writes.{Writes, unchanged, recounts, RunsKeyed}
use newtine_backend.Pipeline.Evolution.Runs.{put_run-Writes}

-- Counting again a store with the runs of `s`.
recompute-Writes :
    (s s' : Store)
    → Writes s.runs s'.runs
    → Writes s.runs (recompute_embedding_pending_counts s').runs
unfolding recompute_embedding_pending_counts
recompute-Writes s s' h = recounts _ _ h

put_tasks-runs : (tasks : List EmbeddingTask) (s : Store) → (put_tasks tasks s).runs ≡ s.runs
unfolding put_tasks put_task
put_tasks-runs [] s = refl
put_tasks-runs (task ∷ tasks) s = put_tasks-runs tasks (put_task task s)

module _ (s : Store) where
  pub save_embedding-Writes :
      (p : Platform) (issue_id title summary : String) (v : Vector) (model : String)
      (task_id token expected : Option String) {out : SaveResult} {s' : Store}
      → save_embedding p issue_id title summary v model task_id token expected s ≡ ok (out, s')
      → Writes s.runs s'.runs
  unfolding save_embedding
  save_embedding-Writes p issue_id title summary v model task_id token expected {s' = s'} h =
      elim (Option-cases (get issue_id s.embedding_tasks)) [
        | inl e ↦
            let same : s ≡ s' = ground (arith, e) in
            subst (λ (q : Store). Writes s.runs q.runs) same unchanged
        | inr (task, e) ↦
            elim (Bool-cases (
              fits p title summary model task_id token expected (find_issue issue_id s.issues)
                task)) [
                  | inl passed ↦
                      let same : recompute_embedding_pending_counts (record s {
                        embedding_tasks =
                            set issue_id (saved_task p task_id task) s.embedding_tasks;
                      })
                          ≡ s' =
                        ground (arith, e, passed) in
                      subst (λ (q : Store). Writes s.runs q.runs) same
                        (recompute-Writes s _ unchanged)
                  | inr stopped ↦
                      let same : s ≡ s' = ground (arith, e, stopped) in
                      subst (λ (q : Store). Writes s.runs q.runs) same unchanged
                ]
      ]

  pub claim_pending_embedding_tasks-Writes :
      (now : String) (limit : ℕ) (process token : String)
      → Writes s.runs (claim_pending_embedding_tasks now limit process token s).1.runs
  unfolding claim_pending_embedding_tasks
  claim_pending_embedding_tasks-Writes now limit process token =
      recompute-Writes s _ (subst (λ m. Writes s.runs m) (sym (put_tasks-runs _ s)) unchanged)

  pub fail_embedding_task-Writes :
      (task_id token message : String)
      → Writes s.runs (fail_embedding_task task_id token message s).1.runs
  unfolding fail_embedding_task put_task
  fail_embedding_task-Writes task_id token message = elim (Option-cases (task_by_id task_id s)) [
    | inl e ↦ rw (e, fail_embedding_task) unchanged
    | inr (task, e) ↦
        elim (Bool-cases (
          found_published (find_issue task.issue_id s.issues)
          && task_is_running task.status
          && task.claim_token == some token)) [
            | inl passed ↦ rw (e, fail_embedding_task) (rw passed (recompute-Writes s _ unchanged))
            | inr stopped ↦ rw (e, fail_embedding_task) (rw stopped unchanged)
          ]
  ]

  pub release_embedding_claim-Writes :
      (task_id token : String) → Writes s.runs (release_embedding_claim task_id token s).1.runs
  unfolding release_embedding_claim put_task
  release_embedding_claim-Writes task_id token = elim (Option-cases (task_by_id task_id s)) [
    | inl e ↦ rw (e, release_embedding_claim) unchanged
    | inr (task, e) ↦
        elim (Bool-cases (task_is_running task.status && task.claim_token == some token)) [
          | inl passed ↦
              rw (e, release_embedding_claim) (rw passed (recompute-Writes s _ unchanged))
          | inr stopped ↦ rw (e, release_embedding_claim) (rw stopped unchanged)
        ]
  ]

  pub put_back_all-Writes : (q : EmbeddingTask → Bool) → Writes s.runs (put_back_all q s).1.runs
  unfolding put_back_all
  put_back_all-Writes q = elim (Bool-cases (ltb 0 (length (keep q (values s.embedding_tasks))))) [
    | inl e ↦ rw e (recompute-Writes s _ unchanged)
    | inr e ↦ rw e unchanged
  ]

mark_task-Writes :
    (now : String) (message : Option String) (k : String) (run : Run) (job : Job) (s : Store)
    → RunsKeyed s
    → get k s.runs ≡ some run
    → Writes s.runs (mark_task now message run job s).runs
unfolding mark_task
mark_task-Writes now message k run job s w at =
    elim (Option-cases (get job.issue_id s.embedding_tasks)) [
      | inl e ↦ rw (e, mark_task) unchanged
      | inr (task, e) ↦
          elim (Bool-cases
            (found_published (find_issue job.issue_id s.issues) && task_is_pending task.status)) [
              | inl passed ↦
                  rw (e, mark_task)
                    (rw passed (
                      recompute-Writes s _ (
                        put_run-Writes k _ run _ w at
                          (record {
                            id = refl;
                            idempotency_key = refl;
                            request_hash = refl;
                            request = refl;
                            created_at = refl;
                            phase = stays refl refl;
                            jobs = KeepsJobs-refl run.jobs;
                          })
                          (inl (λ a. a)))))
              | inr stopped ↦ rw (e, mark_task) (rw stopped unchanged)
            ]
    ]

pub mark_embedding_pending-Writes :
    (now run_id : String) (attempt : ℕ) (x job_id : String) (message : Option String) (s : Store)
    → RunsKeyed s
    → Writes s.runs (mark_embedding_pending now run_id attempt x job_id message s).runs
unfolding mark_embedding_pending
mark_embedding_pending-Writes now run_id attempt x job_id message s w =
    elim (Option-cases (get run_id s.runs)) [
      | inl e ↦ rw (e, mark_embedding_pending) unchanged
      | inr (run, e) ↦ elim (Option-cases (find_job_owner job_id s)) [
        | inl n ↦ rw (e, mark_embedding_pending) (rw n unchanged)
        | inr ((owner, job), n) ↦ elim (Bool-cases (may_mark_run run owner job attempt x)) [
          | inl passed ↦
              rw (e, mark_embedding_pending)
                (rw n (rw passed (mark_task-Writes now message run_id run job s w e)))
          | inr stopped ↦ rw (e, mark_embedding_pending) (rw n (rw stopped unchanged))
        ]
      ]
    ]
