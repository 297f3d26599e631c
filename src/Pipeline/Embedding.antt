-- ===== src/Pipeline/Embedding.antt =====
-- The operations on embedding tasks of InMemoryPipelineRepository
-- (libs/core/src/pipeline/repository/inMemoryPipeline.repository.ts): saveEmbedding,
-- markEmbeddingPending, claimPendingEmbeddingTasks, listPendingEmbeddingTasks, failEmbeddingTask,
-- releaseEmbeddingClaim, releaseEmbeddingClaims, requeueEmbeddingClaims.
-- The vector of an embedding is its length and whether all of its numbers are finite.
pub mod Claims
use newtine_backend.Prelude.{
  ℕ, ◌+◌, min, String, Bool, true, false, not, ◌&&◌, ◌||◌, Option, none, some, List, [], ◌∷◌, map,
  find, keep, length, take, leb, ltb, ◌==◌, string_eq, nat_eq, option_eq, if◌then◌else◌,
}
use newtine_backend.Prelude.Map.{Map, get, set, values}
use newtine_backend.Prelude.Result.{ok, ◌>>◌}
use newtine_backend.Pipeline.Types.{
  Run, RunStatus, Job, Issue, EmbeddingTask, TaskStatus, ExceptionCode, is_succeeded,
}
use newtine_backend.Pipeline.Store.{
  Platform, Store, Exec, reject_if, put_run, find_issue, found_published, find_job_owner,
  task_is_open, task_is_published, recompute_embedding_pending_counts, safe_error,
}
use newtine_backend.Pipeline.Jobs.{embedding_input_hash}

pub record Vector : Type 0 where
  pub dimension : ℕ
  pub all_finite : Bool

pub data SaveResult : Type 0 where
  saved stale : SaveResult

abbrev pub task_is_pending : TaskStatus → Bool
task_is_pending TaskStatus.pending = true
task_is_pending _ = false

abbrev pub task_is_running : TaskStatus → Bool
task_is_running TaskStatus.running = true
task_is_running _ = false

-- A task put back or finished holds no claim.
abbrev pub unclaimed : EmbeddingTask → EmbeddingTask
unclaimed task = record task { claim_token = none; claimed_by = none; claimed_at = none }

-- A write to a task of the map, under the key of its issue.
unfoldable pub put_task : EmbeddingTask → Store → Store
put_task task s = record s { embedding_tasks = set task.issue_id task s.embedding_tasks }

abbrev or_else {ℓ} : {A : Type ℓ} → Option A → A → A
or_else none a = a
or_else (some b) a = b

-- An absent id or the task's.
abbrev no_other_id : Option String → EmbeddingTask → Bool
no_other_id none task = true
no_other_id (some id) task = task.id == id

-- Without a task id the save is the primary one of a pending task and brings no claim; with one it
-- is a repair of a running task and brings the claim that the task holds.
abbrev claim_fits : Option String → Option String → EmbeddingTask → Bool
claim_fits none none task = task_is_pending task.status
claim_fits none (some token) task = false
claim_fits (some id) none task = false
claim_fits (some id) (some token) task =
    task_is_running task.status && task.claim_token == some token

module _ (p : Platform) where
  -- The negation of the condition under which `saveEmbedding` answers `STALE`.
  unfoldable pub fits :
      String
      → String
      → String
      → Option String
      → Option String
      → Option String
      → Option Issue
      → EmbeddingTask
      → Bool
  fits title summary model task_id token expected issue task =
      let target = or_else expected task.model in
      found_published issue
      && task.input_hash == embedding_input_hash p title summary
      && no_other_id task_id task
      && task.model == target
      && model == target
      && claim_fits task_id token task

  unfoldable pub saved_task : Option String → EmbeddingTask → EmbeddingTask
  saved_task task_id task = record (unclaimed task) {
    status = TaskStatus.succeeded;
    attempts = elim task_id [ none ↦ task.attempts + 1 | some id ↦ task.attempts ];
    last_error = none;
  }

  unfoldable pub save_embedding :
      String
      → String
      → String
      → Vector
      → String
      → Option String
      → Option String
      → Option String
      → Store
      → Exec SaveResult
  save_embedding issue_id title summary vector model task_id token expected s = do
    reject_if (not (vector.dimension == 1536) || not vector.all_finite) ExceptionCode.invalid_output
    elim (get issue_id s.embedding_tasks) [
      | none ↦ ok (stale, s)
      | some task ↦
          if fits title summary model task_id token expected (find_issue issue_id s.issues) task
          then ok (
            saved,
            recompute_embedding_pending_counts (record s {
              embedding_tasks = set issue_id (saved_task task_id task) s.embedding_tasks;
            }),
          )
          else ok (stale, s)
    ]

-- `RUNNING`, `SUCCEEDED` or `PARTIALLY_SUCCEEDED`
abbrev may_mark : RunStatus → Bool
may_mark RunStatus.running = true
may_mark RunStatus.succeeded = true
may_mark RunStatus.partially_succeeded = true
may_mark _ = false

unfoldable pub marked_task : Option String → EmbeddingTask → EmbeddingTask
marked_task message task = record (unclaimed task) {
  status = TaskStatus.pending;
  attempts = task.attempts + 1;
  last_error = elim message [ none ↦ none | some m ↦ some (safe_error m) ];
}

-- The fence of `markEmbeddingPending`: the run, found by its id, owns the job (the ids stand for
-- the references that the source compares).
unfoldable pub may_mark_run : Run → Run → Job → ℕ → String → Bool
may_mark_run run owner job attempt execution_id =
    owner.id == run.id
    && run.attempt == attempt
    && run.execution_id == some execution_id
    && may_mark run.status
    && is_succeeded job.status

unfoldable pub mark_task : String → Option String → Run → Job → Store → Store
mark_task now message run job s = elim (get job.issue_id s.embedding_tasks) [
  | none ↦ s
  | some task ↦
      if found_published (find_issue job.issue_id s.issues) && task_is_pending task.status
      then recompute_embedding_pending_counts (
          put_run (record run { updated_at = now })
            (record s {
              embedding_tasks = set job.issue_id (marked_task message task) s.embedding_tasks;
            }))
      else s
]

unfoldable pub mark_embedding_pending :
    String → String → ℕ → String → String → Option String → Store → Store
mark_embedding_pending now run_id attempt execution_id job_id message s = elim (get run_id s.runs) [
  | none ↦ s
  | some run ↦ elim (find_job_owner job_id s) [
    | none ↦ s
    | some (owner, job) ↦
        if may_mark_run run owner job attempt execution_id
        then mark_task now message run job s
        else s
  ]
]

-- `Number.isSafeInteger(limit) && limit > 0 ? Math.min(limit, 100) : 100`, for a natural number.
abbrev pub safe_limit : ℕ → ℕ
safe_limit limit = if ltb 0 limit && leb limit 9007199254740991 then min limit 100 else 100

abbrev pub claimed_task : String → String → String → EmbeddingTask → EmbeddingTask
claimed_task now process token task = record task {
  status = TaskStatus.running;
  claim_token = some token;
  claimed_by = some process;
  claimed_at = some now;
  attempts = task.attempts + 1;
}

-- Pending tasks of published issues, the first ones up to the limit.
unfoldable pub claimable : ℕ → Store → List EmbeddingTask
claimable limit s = take (safe_limit limit) (
    keep (λ task. task_is_pending task.status && task_is_published s.issues task)
      (values s.embedding_tasks))

-- The loop of writes.
unfoldable pub put_tasks : List EmbeddingTask → Store → Store
put_tasks [] s = s
put_tasks (task ∷ tasks) s = put_tasks tasks (put_task task s)

unfoldable pub claim_pending_embedding_tasks :
    String → ℕ → String → String → Store → List EmbeddingTask × Store
claim_pending_embedding_tasks now limit process token s =
    let claimed = map (claimed_task now process token) (claimable limit s) in
    (claimed, recompute_embedding_pending_counts (put_tasks claimed s))

unfoldable pub list_pending_embedding_tasks : ℕ → Store → List EmbeddingTask
list_pending_embedding_tasks limit s = take (safe_limit limit) (
    keep (λ task. task_is_open task.status && task_is_published s.issues task)
      (values s.embedding_tasks))

abbrev pub task_by_id : String → Store → Option EmbeddingTask
task_by_id task_id s = find (λ task. task.id == task_id) (values s.embedding_tasks)

unfoldable pub fail_embedding_task : String → String → String → Store → Bool × Store
fail_embedding_task task_id token message s = elim (task_by_id task_id s) [
  | none ↦ (false, s)
  | some task ↦
      if found_published (find_issue task.issue_id s.issues)
        && task_is_running task.status
        && task.claim_token == some token
      then (
        true,
        recompute_embedding_pending_counts (
            put_task
              (record (unclaimed task) {
                status = TaskStatus.pending;
                last_error = some (safe_error message);
              })
              s),
      )
      else (false, s)
]

unfoldable pub release_embedding_claim : String → String → Store → Bool × Store
release_embedding_claim task_id token s = elim (task_by_id task_id s) [
  | none ↦ (false, s)
  | some task ↦
      if task_is_running task.status && task.claim_token == some token
      then (
        true,
        recompute_embedding_pending_counts
            (put_task (record (unclaimed task) { status = TaskStatus.pending }) s),
      )
      else (false, s)
]

-- A loop over all tasks that puts back those that pass, with their number.
unfoldable pub put_back : (EmbeddingTask → Bool) → Map EmbeddingTask → Map EmbeddingTask
put_back p [] = []
put_back p ((key, task) ∷ rest) =
    (key, if p task then record (unclaimed task) { status = TaskStatus.pending } else task)
    ∷ put_back p rest

unfoldable pub put_back_all : (EmbeddingTask → Bool) → Store → ℕ × Store
put_back_all p s =
    let count = length (keep p (values s.embedding_tasks)) in
    let s' = record s { embedding_tasks = put_back p s.embedding_tasks } in
    (count, if ltb 0 count then recompute_embedding_pending_counts s' else s')

abbrev pub held_by : String → EmbeddingTask → Bool
held_by process task = task_is_running task.status && task.claimed_by == some process

unfoldable pub release_embedding_claims : String → Store → ℕ × Store
release_embedding_claims process s = put_back_all (held_by process) s

unfoldable pub requeue_embedding_claims : String → Store → ℕ × Store
requeue_embedding_claims dead s =
    put_back_all (λ task. held_by dead task && task_is_published s.issues task) s
