-- ===== src/Pipeline/Store.antt =====
-- The state of InMemoryPipelineRepository
-- (libs/core/src/pipeline/repository/inMemoryPipeline.repository.ts), its private helpers, and what
-- it takes from the platform. An operation that throws has not changed the state.
-- The methods write through references to the objects in their maps: `put_run` stores the changed
-- run under its id. Copies that a method hands out are values here.
use newtine_backend.Prelude.{
  ℕ, String, Bool, true, false, ◌&&◌, Option, none, some, List, [], ◌∷◌, find, any, keep, length,
  ltb, ◌==◌, string_eq, nat_eq, option_eq, if◌then◌else◌,
}
use newtine_backend.Prelude.Map.{Map, get, set, values}
use newtine_backend.Prelude.Result.{Result, ok, err}
use newtine_backend.Prelude.Text.{trim, collapse_spaces, text_length, text_take, append}
use newtine_backend.Pipeline.Types.{
  Run, Job, Issue, Article, Usage, EmbeddingTask, TaskStatus, ExceptionCode, is_running,
  is_published, is_withdrawn,
}

-- A parsed URL, of the WHATWG class that the runtime provides.
pub record Url : Type 0 where
  pub protocol : String
  pub hostname : String
  pub port : String
  pub pathname : String
  pub hash : String
  -- user information and query, which are kept
  pub other : String

-- What the code calls in its runtime and in node:crypto.
pub record Platform : Type 0 where
  pub to_locale_lower_case : String → String
  pub to_lower_case : String → String
  pub sha256 : String → String
  -- `a.localeCompare(b) < 0`
  pub locale_before : String → String → Bool
  pub parse_url : String → Option Url
  pub url_to_string : Url → String
  -- `a.includes(b)` on texts
  pub text_includes : String → String → Bool

pub record Store : Type 0 where
  pub runs : Map Run
  pub articles : Map Article
  pub issues : List Issue
  pub seed_article_ids : Map (List String)
  pub usages : List Usage
  pub embedding_tasks : Map EmbeddingTask

abbrev pub empty_store : Store
empty_store = record {
  runs = [];
  articles = [];
  issues = [];
  seed_article_ids = [];
  usages = [];
  embedding_tasks = [];
}

-- An operation that returns a value and the new state, or throws.
abbrev pub Exec : Type 0 → Type 0
Exec A = Result ExceptionCode (A × Store)

abbrev pub reject_if : Bool → ExceptionCode → Result ExceptionCode (Unit {0})
reject_if true code = err code
reject_if false code = ok tt

unfoldable pub require_run : String → Store → Result ExceptionCode Run
require_run run_id s = elim (get run_id s.runs) [
  | none ↦ err ExceptionCode.run_not_found
  | some run ↦ ok run
]

unfoldable pub put_run : Run → Store → Store
put_run run s = record s { runs = set run.id run s.runs }

-- The loop of `findJobOwner`.
unfoldable pub owner_among : String → List Run → Option (Run × Job)
owner_among job_id [] = none
owner_among job_id (run ∷ runs) =
    let rest = owner_among job_id runs in
    elim (find (λ job. job.id == job_id) run.jobs) [ none ↦ rest | some job ↦ some (run, job) ]

unfoldable pub find_job_owner : String → Store → Option (Run × Job)
find_job_owner job_id s = owner_among job_id (values s.runs)

-- `this.issues.find((item) => item.id === id)`
unfoldable pub find_issue : String → List Issue → Option Issue
find_issue id issues = find (λ issue. issue.id == id) issues

-- A write through the reference that `find` returned: the first item that passes changes.
unfoldable pub update_first {ℓ} : {A : Type ℓ} → (A → Bool) → (A → A) → List A → List A
update_first p f [] = []
update_first p f (x ∷ xs) = if p x then f x ∷ xs else x ∷ update_first p f xs

unfoldable pub put_job : String → (Job → Job) → Run → Run
put_job job_id f run = record run { jobs = update_first (λ job. job.id == job_id) f run.jobs }

-- `issue?.publicationStatus === 'WITHDRAWN'`
abbrev pub found_withdrawn : Option Issue → Bool
found_withdrawn none = false
found_withdrawn (some issue) = is_withdrawn issue.publication

abbrev pub found_published : Option Issue → Bool
found_published none = false
found_published (some issue) = is_published issue.publication

-- The fence of every worker call on a run: attempt, owner and status.
unfoldable pub owns : Run → ℕ → String → Bool
owns run attempt execution_id =
    run.attempt == attempt && run.execution_id == some execution_id && is_running run.status

-- The fence of a worker call on a job: the run's owner and status.
unfoldable pub owns_run : Run → String → Bool
owns_run run execution_id = run.execution_id == some execution_id && is_running run.status

-- `status === 'PENDING' || status === 'RUNNING'`
abbrev pub task_is_open : TaskStatus → Bool
task_is_open TaskStatus.pending = true
task_is_open TaskStatus.running = true
task_is_open TaskStatus.succeeded = false

-- The task's issue is published.
unfoldable pub task_is_published : List Issue → EmbeddingTask → Bool
task_is_published issues task =
    any (λ issue. issue.id == task.issue_id && is_published issue.publication) issues

unfoldable pub pending_count : String → Map EmbeddingTask → List Issue → ℕ
pending_count run_id tasks issues = length (
    keep
      (λ task. task.run_id == run_id && task_is_open task.status && task_is_published issues task)
      (values tasks))

-- `recomputeEmbeddingPendingCounts`: every run of the map.
unfoldable pub recount : Map EmbeddingTask → List Issue → Map Run → Map Run
recount tasks issues [] = []
recount tasks issues ((key, run) ∷ rest) =
    (key, record run { embedding_pending_count = pending_count run.id tasks issues })
    ∷ recount tasks issues rest

unfoldable pub recompute_embedding_pending_counts : Store → Store
recompute_embedding_pending_counts s = record s { runs = recount s.embedding_tasks s.issues s.runs }

unfoldable pub safe_error : String → String
safe_error message =
    if ltb 500 (text_length message) then append (text_take 500 message) "…" else message

module _ (p : Platform) where
  unfoldable pub normalize_title : String → String
  normalize_title value = collapse_spaces (p.to_locale_lower_case (trim value))
