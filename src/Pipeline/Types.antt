-- ===== src/Pipeline/Types.antt =====
-- libs/core/src/pipeline/domain/pipeline.types.ts and pipeline.exception.ts, the inputs of
-- repository/pipeline.repository.ts, and common/category/category.catalog.ts.
-- Costs are counted in a fixed unit: the rounding of `number` additions is not modelled.
use newtine_backend.Prelude.{
  ℕ, String, Bool, true, false, Option, List, [], ◌∷◌, includes, string_eq,
}

pub data RunStatus : Type 0 where
  queued running succeeded partially_succeeded failed cancelled : RunStatus

pub data JobStatus : Type 0 where
  queued running succeeded failed cancelled : JobStatus

pub data Stage : Type 0 where
  search fetch generate validate : Stage

pub data RetryScope : Type 0 where
  discovery content : RetryScope

pub data FailureKind : Type 0 where
  interrupted insufficient_evidence invalid_output source_unavailable upstream_error : FailureKind

pub data Publication : Type 0 where
  unpublished published withdrawn : Publication

pub data ExceptionCode : Type 0 where
  invalid_input run_not_found idempotency_conflict active_run_conflict stale_attempt
        retry_not_allowed claim_conflict source_unavailable insufficient_evidence upstream_error
        invalid_output :
      ExceptionCode

pub record Limits : Type 0 where
  pub discovery_queries : ℕ
  pub discovery_news : ℕ
  pub max_candidates : ℕ
  pub max_new_issues : ℕ
  pub issue_search_queries : ℕ
  pub related_articles_per_query : ℕ
  pub max_body_attempts : ℕ
  pub valid_bodies_target : ℕ
  pub transient_retries : ℕ

pub record RunRequest : Type 0 where
  pub query : String
  pub limits : Limits

pub record Article : Type 0 where
  pub id : Option String
  pub title : String
  pub description : String
  pub source_url : String
  pub naver_url : Option String
  pub publisher_name : String
  pub published_at : Option String

pub record FetchedArticle : Type 0 where
  pub article_id : String
  pub title : String
  pub source_url : String
  pub publisher_name : String
  pub published_at : Option String
  pub body : String

pub record Issue : Type 0 where
  pub id : String
  pub title : String
  pub integrated_summary : Option String
  pub publication : Publication

pub record IssueCandidate : Type 0 where
  pub title : String
  pub scope : String
  pub confirmed_facts : List String
  pub source_article_ids : List String
  pub category_code : String
  pub main_topic : Option String
  pub representative_entity_id : Option String
  pub search_queries : Option (List String)

pub record Job : Type 0 where
  pub id : String
  pub run_id : String
  pub issue_id : String
  pub status : JobStatus
  pub stage : Stage
  pub failure_kind : Option FailureKind
  pub last_error : Option String
  pub attempt : ℕ

pub data TaskStatus : Type 0 where
  pending running succeeded : TaskStatus

pub record EmbeddingTask : Type 0 where
  pub id : String
  pub issue_id : String
  pub run_id : String
  pub job_id : String
  pub run_attempt : ℕ
  pub run_execution_id : Option String
  pub claim_token : Option String
  pub claimed_by : Option String
  pub claimed_at : Option String
  pub input_hash : String
  pub model : String
  pub status : TaskStatus
  pub attempts : ℕ
  pub title : String
  pub integrated_summary : String
  pub last_error : Option String

pub record CandidateCounts : Type 0 where
  pub discovered : ℕ
  pub duplicate : ℕ
  pub uncertain : ℕ
  pub created : ℕ
  pub skipped_by_limit : ℕ

pub record UsageSummary : Type 0 where
  pub calls : ℕ
  pub succeeded_calls : ℕ
  pub failed_calls : ℕ
  pub unknown_calls : ℕ
  pub input_tokens : ℕ
  pub output_tokens : ℕ
  pub actual_cost : Option ℕ

pub record Run : Type 0 where
  pub id : String
  pub idempotency_key : String
  pub request_hash : String
  pub request : RunRequest
  pub status : RunStatus
  pub attempt : ℕ
  pub retry_scope : Option RetryScope
  pub retry_job_ids : List String
  pub execution_id : Option String
  pub current_stage : Option Stage
  pub candidate_counts : CandidateCounts
  pub jobs : List Job
  pub last_error : Option String
  pub embedding_pending_count : ℕ
  pub usage_summary : UsageSummary
  pub started_at : Option String
  pub finished_at : Option String
  pub created_at : String
  pub updated_at : String

pub data UsageStatus : Type 0 where
  running succeeded failed unknown : UsageStatus

pub data Operation : Type 0 where
  search fetch embed llm : Operation

pub record Usage : Type 0 where
  pub run_id : String
  pub run_attempt : ℕ
  pub job_id : Option String
  pub operation : Operation
  pub purpose : String
  pub prompt_version : Option String
  pub prompt_hash : Option String
  pub provider : String
  pub model : Option String
  pub status : UsageStatus
  pub request_id : Option String
  pub input_tokens : Option ℕ
  pub output_tokens : Option ℕ
  pub actual_cost : Option ℕ
  pub error_code : Option String
  pub started_at : String
  pub finished_at : Option String

pub record EnqueueInput : Type 0 where
  pub idempotency_key : String
  pub request_hash : String
  pub request : RunRequest

pub record RetryInput : Type 0 where
  pub run_id : String
  pub expected_attempt : ℕ
  pub scope : RetryScope
  pub failed_job_ids : Option (List String)

pub record InterruptInput : Type 0 where
  pub run_id : String
  pub expected_attempt : ℕ
  pub execution_id : String

pub record RegisterInput : Type 0 where
  pub run_id : String
  pub attempt : ℕ
  pub candidate : IssueCandidate
  pub seed_articles : List Article

-- `status === 'QUEUED' || status === 'RUNNING'`
abbrev pub is_active : RunStatus → Bool
is_active queued = true
is_active running = true
is_active _ = false

abbrev pub is_running : RunStatus → Bool
is_running running = true
is_running _ = false

abbrev pub is_queued : RunStatus → Bool
is_queued queued = true
is_queued _ = false

-- `status === 'FAILED' || status === 'PARTIALLY_SUCCEEDED'`
abbrev pub is_retryable : RunStatus → Bool
is_retryable failed = true
is_retryable partially_succeeded = true
is_retryable _ = false

abbrev pub job_is_queued : JobStatus → Bool
job_is_queued queued = true
job_is_queued _ = false

abbrev pub job_is_running : JobStatus → Bool
job_is_running running = true
job_is_running _ = false

-- A job that is `QUEUED` or `RUNNING`.
abbrev pub is_unfinished : JobStatus → Bool
is_unfinished queued = true
is_unfinished running = true
is_unfinished _ = false

abbrev pub is_succeeded : JobStatus → Bool
is_succeeded succeeded = true
is_succeeded _ = false

abbrev pub is_failed : JobStatus → Bool
is_failed failed = true
is_failed _ = false

abbrev pub is_published : Publication → Bool
is_published published = true
is_published _ = false

abbrev pub is_withdrawn : Publication → Bool
is_withdrawn withdrawn = true
is_withdrawn _ = false

abbrev pub is_interrupted : FailureKind → Bool
is_interrupted interrupted = true
is_interrupted _ = false

abbrev pub is_discovery : RetryScope → Bool
is_discovery discovery = true
is_discovery content = false

abbrev pub category_codes : List String
category_codes =
    "housing" ∷ "labor" ∷ "finance" ∷ "welfare" ∷ "education" ∷ "health" ∷ "climate" ∷ "security"
    ∷ "local" ∷ "politics" ∷ []

-- `isPipelineCategoryCode`
unfoldable pub is_category_code : String → Bool
is_category_code = includes category_codes
