-- ===== src/Pipeline/Jobs.antt =====
-- The operations on jobs and issues of InMemoryPipelineRepository
-- (libs/core/src/pipeline/repository/inMemoryPipeline.repository.ts): registerIssue, claimJob,
-- updateJobStage, saveJobSuccess, saveJobFailure, loadExistingIssues, loadIssue, listJobs.
use newtine_backend.Prelude.{
  ℕ, String, Bool, true, false, not, ◌&&◌, ◌||◌, Option, none, some, List, [], ◌∷◌, ◌++◌, any, keep,
  length, includes, unique, ◌==◌, string_eq, nat_eq, if◌then◌else◌,
}
use newtine_backend.Prelude.Map.{get, set}
use newtine_backend.Prelude.Result.{Result, ok, err, ◌>>=◌, ◌>>◌}
use newtine_backend.Prelude.Text.{append}
use newtine_backend.Pipeline.Uuid.{is_uuid_v7}
use newtine_backend.Pipeline.Types.{
  Run, Job, JobStatus, Stage, FailureKind, Issue, Publication, Article, FetchedArticle,
  EmbeddingTask, TaskStatus, ExceptionCode, RegisterInput, is_active, job_is_queued, job_is_running,
  is_category_code,
}
use newtine_backend.Pipeline.Validator.{
  Content, Semantic, validate_generated_content, validate_semantic_result, is_ok,
}
use newtine_backend.Pipeline.Store.{
  Platform, Store, Exec, reject_if, require_run, put_run, find_issue, found_withdrawn, owns_run,
  find_job_owner, update_first, put_job, normalize_title, recompute_embedding_pending_counts,
}

pub data RegisterResult : Type 0 where
  created : Job → RegisterResult
  duplicate : RegisterResult

-- `articles.flatMap((a) => (a.id === undefined ? [] : [a.id]))`
abbrev pub ids_of : List Article → List String
ids_of [] = []
ids_of (a ∷ articles) = elim a.id [ none ↦ ids_of articles | some id ↦ id ∷ ids_of articles ]

-- The second test of `validateSeedLineage`; the first, of shape, is met by the types.
unfoldable pub bad_lineage : List String → List String → Bool
bad_lineage seed_ids source_ids =
    length seed_ids == 0
    || length source_ids == 0
    || any (λ id. not (is_uuid_v7 id)) seed_ids
    || any (λ id. not (is_uuid_v7 id)) source_ids
    || not (length (unique seed_ids) == length seed_ids)
    || not (length (unique source_ids) == length source_ids)
    || any (λ id. not (includes seed_ids id)) source_ids

unfoldable pub new_job : String → String → ℕ → String → Job
new_job id run_id attempt issue_id = record {
  id = id;
  run_id = run_id;
  issue_id = issue_id;
  status = JobStatus.queued;
  stage = Stage.search;
  failure_kind = none;
  last_error = none;
  attempt = attempt;
}

abbrev new_issue : String → String → Issue
new_issue id title = record {
  id = id;
  title = title;
  integrated_summary = none;
  publication = Publication.unpublished;
}

module _ (p : Platform) where
  -- An issue with this normalized title is there already.
  abbrev pub has_title : String → List Issue → Bool
  has_title title issues = any (λ issue. normalize_title p issue.title == title) issues

  -- The writes at the end of `registerIssue`.
  unfoldable pub add_issue : String → String → String → RegisterInput → Run → Store → Store
  add_issue now issue_id job_id input run s =
      put_run
        (record run {
          jobs = run.jobs ++ (new_job job_id input.run_id run.attempt issue_id ∷ []);
          updated_at = now;
        })
        (record s {
          issues = s.issues ++ (new_issue issue_id input.candidate.title ∷ []);
          seed_article_ids = set issue_id (unique (ids_of input.seed_articles)) s.seed_article_ids;
        })

  unfoldable pub register_issue :
      String → String → String → RegisterInput → Store → Exec RegisterResult
  register_issue now issue_id job_id input s = do
    reject_if (not (is_category_code input.candidate.category_code)) ExceptionCode.invalid_input
    run ← require_run input.run_id s
    reject_if (not (run.attempt == input.attempt) || not (is_active run.status))
        ExceptionCode.claim_conflict
    reject_if (bad_lineage (ids_of input.seed_articles) input.candidate.source_article_ids)
        ExceptionCode.invalid_input
    let title = normalize_title p input.candidate.title
    reject_if (title == "") ExceptionCode.invalid_input
    if has_title title s.issues
        then ok (duplicate, s)
        else ok (
          created (new_job job_id input.run_id run.attempt issue_id),
          add_issue now issue_id job_id input run s,
        )

  -- `issue.title` in lower case contains the query in lower case.
  unfoldable pub load_existing_issues : String → Store → List Issue
  load_existing_issues query s =
      keep
        (λ issue.
          p.text_includes (p.to_locale_lower_case issue.title) (p.to_locale_lower_case query))
        s.issues

unfoldable pub load_issue : String → Store → Option Issue
load_issue issue_id s = find_issue issue_id s.issues

unfoldable pub list_jobs : String → Store → Result ExceptionCode (List Job)
list_jobs run_id s = do run ← require_run run_id s; ok run.jobs

unfoldable pub claim_job : String → ℕ → String → Store → Option Job × Store
claim_job job_id attempt execution_id s = elim (find_job_owner job_id s) [
  | none ↦ (none, s)
  | some (run, job) ↦
      if owns_run run execution_id && job_is_queued job.status && job.attempt == attempt
      then (
        some (record job { status = JobStatus.running }),
        put_run (put_job job_id (λ j. record j { status = JobStatus.running }) run) s,
      )
      else (none, s)
]

-- The fence of a worker call on a claimed job.
unfoldable pub owns_job : Run → Job → ℕ → String → Bool
owns_job run job attempt execution_id =
    owns_run run execution_id && job.attempt == attempt && job_is_running job.status

unfoldable pub update_job_stage : String → ℕ → String → Stage → Store → Store
update_job_stage job_id attempt execution_id stage s = elim (find_job_owner job_id s) [
  | none ↦ s
  | some (run, job) ↦
      if owns_job run job attempt execution_id
      then put_run (put_job job_id (λ j. record j { stage = stage }) run) s
      else s
]

unfoldable pub save_job_failure :
    String → String → ℕ → String → Option FailureKind → String → Store → Store
save_job_failure now job_id attempt execution_id kind message s = elim (find_job_owner job_id s) [
  | none ↦ s
  | some (run, job) ↦
      if owns_job run job attempt execution_id
      then put_run
          (record (put_job job_id
            (λ j. record j {
              status = JobStatus.failed;
              failure_kind = kind;
              last_error = some message;
            })
            run) { updated_at = now })
          s
      else s
]

abbrev text_and_summary : String → String → String
text_and_summary title summary = append title (append "\n" summary)

-- `embeddingInputHash`
unfoldable pub embedding_input_hash : Platform → String → String → String
embedding_input_hash p title summary = p.sha256 (text_and_summary title summary)

abbrev task_is_succeeded : TaskStatus → Bool
task_is_succeeded TaskStatus.succeeded = true
task_is_succeeded _ = false

-- The task of this input has been completed already.
abbrev already_done : Option EmbeddingTask → String → String → Bool
already_done none hash model = false
already_done (some task) hash model =
    task_is_succeeded task.status && task.input_hash == hash && task.model == model

abbrev kept_id : Option EmbeddingTask → String → String
kept_id none fresh = fresh
kept_id (some task) fresh = task.id

abbrev kept_attempts : Option EmbeddingTask → ℕ
kept_attempts none = 0
kept_attempts (some task) = task.attempts

-- The task that `saveJobSuccess` stores for a published issue.
unfoldable pub published_task :
    Platform
    → String
    → String
    → ℕ
    → String
    → Run
    → Issue
    → String
    → Option EmbeddingTask
    → EmbeddingTask
published_task p fresh job_id attempt model run issue summary existing =
    let hash = embedding_input_hash p issue.title summary in
    record {
      id = kept_id existing fresh;
      issue_id = issue.id;
      run_id = run.id;
      job_id = job_id;
      run_attempt = attempt;
      run_execution_id = run.execution_id;
      claim_token = none;
      claimed_by = none;
      claimed_at = none;
      input_hash = hash;
      model = model;
      status =
          if already_done existing hash model then TaskStatus.succeeded else TaskStatus.pending;
      attempts = kept_attempts existing;
      title = issue.title;
      integrated_summary = summary;
      last_error = none;
    }

-- The part of `saveJobSuccess` for an issue that is there: it is published, and its embedding is
-- put on the list.
unfoldable pub publish :
    Platform → String → String → ℕ → String → Run → Option Issue → String → Store → Store
publish p fresh job_id attempt model run none summary s = s
publish p fresh job_id attempt model run (some issue) summary s =
    recompute_embedding_pending_counts (record s {
      issues =
          update_first (λ item. item.id == issue.id)
            (λ item. record item {
              publication = Publication.published;
              integrated_summary = some summary;
            })
            s.issues;
      embedding_tasks =
          set issue.id
            (published_task p fresh job_id attempt model run issue summary
              (get issue.id s.embedding_tasks))
            s.embedding_tasks;
    })

abbrev pub succeeded_job : Job → Job
succeeded_job job = record job {
  status = JobStatus.succeeded;
  stage = Stage.validate;
  failure_kind = none;
}

unfoldable pub save_job_success :
    Platform
    → String
    → String
    → String
    → ℕ
    → String
    → Content
    → Semantic
    → List FetchedArticle
    → String
    → Store
    → Exec Bool
save_job_success p now fresh job_id attempt execution_id content validation evidence model s = do
  reject_if
      (not (is_ok (validate_generated_content content evidence))
        || not (is_ok (validate_semantic_result validation evidence)))
      ExceptionCode.invalid_input
  elim (find_job_owner job_id s) [
    | none ↦ ok (false, s)
    | some (run, job) ↦
        if not (owns_job run job attempt execution_id)
        then ok (false, s)
        else if found_withdrawn (find_issue job.issue_id s.issues)
        then err ExceptionCode.retry_not_allowed
        else ok (
          true,
          publish p fresh job_id attempt model run (find_issue job.issue_id s.issues)
              content.integrated_summary
              (put_run (record (put_job job_id succeeded_job run) { updated_at = now }) s),
        )
  ]
