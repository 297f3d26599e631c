-- ===== src/Pipeline/Service.antt =====
-- libs/core/src/pipeline/application/pipeline.run.service.ts, the checks of a request before the
-- repository is called. `JSON.stringify` of a request is a parameter.
pub mod Again
use newtine_backend.Prelude.{
  ℕ, String, Bool, true, false, not, ◌&&◌, ◌||◌, Option, none, some, List, [], ◌∷◌, length, ltb,
  leb, ◌==◌, string_eq, nat_eq, if◌then◌else◌,
}
use newtine_backend.Prelude.Result.{Result, ok, err, ◌>>=◌, ◌>>◌}
use newtine_backend.Prelude.Text.{trim, text_length}
use newtine_backend.Pipeline.Types.{
  Run, RunRequest, RetryInput, InterruptInput, ExceptionCode, is_discovery,
}
use newtine_backend.Pipeline.Uuid.{is_uuid_v7}
use newtine_backend.Pipeline.Limits.{normalize_limits, PartialLimits, max_safe}
use newtine_backend.Pipeline.Store.{Platform, Store, Exec, reject_if}
use newtine_backend.Pipeline.Lifecycle.{enqueue, find_by_id, retry, interrupt, max_failed_job_ids}

-- `normalizeRequired`
unfoldable pub normalize_required : String → Result ExceptionCode String
normalize_required value =
    let normalized = trim value in
    if text_length normalized == 0 || ltb 200 (text_length normalized)
    then err ExceptionCode.invalid_input
    else ok normalized

unfoldable pub require_id : String → Result ExceptionCode String
require_id value = if not (is_uuid_v7 value) then err ExceptionCode.invalid_input else ok value

-- `ids.map((id) => this.requireId(id))`: the first bad id throws.
unfoldable pub require_ids : List String → Result ExceptionCode (List String)
require_ids [] = ok []
require_ids (id ∷ ids) = do first ← require_id id; rest ← require_ids ids; ok (first ∷ rest)

require_optional_ids : Option (List String) → Result ExceptionCode (Option (List String))
require_optional_ids none = ok none
require_optional_ids (some ids) = do checked ← require_ids ids; ok (some checked)

abbrev pub no_limits : PartialLimits
no_limits = record {
  discovery_queries = none;
  discovery_news = none;
  max_candidates = none;
  max_new_issues = none;
  issue_search_queries = none;
  related_articles_per_query = none;
  max_body_attempts = none;
  valid_bodies_target = none;
  transient_retries = none;
}

unfoldable pub service_enqueue :
    Platform → (RunRequest → String) → String → String → String → String → Store → Exec Run
service_enqueue p stringify id now idempotency_key query s = do
  key ← normalize_required idempotency_key
  text ← normalize_required query
  limits ← normalize_limits no_limits
  let request : RunRequest = record { query = text; limits = limits }
  enqueue id now
      (record {
        idempotency_key = key;
        request_hash = p.sha256 (stringify request);
        request = request;
      })
      s

unfoldable pub service_get : String → Store → Result ExceptionCode Run
service_get run_id s = do
  id ← require_id run_id
  elim (find_by_id id s) [ none ↦ err ExceptionCode.run_not_found | some run ↦ ok run ]

abbrev list_too_long : Option (List String) → Bool
list_too_long none = false
list_too_long (some ids) = ltb max_failed_job_ids (length ids)

abbrev missing_or_empty : Option (List String) → Bool
missing_or_empty none = true
missing_or_empty (some ids) = length ids == 0

abbrev given_empty : Option (List String) → Bool
given_empty none = false
given_empty (some ids) = length ids == 0

-- `!Number.isSafeInteger(n) || n < 1`
abbrev bad_attempt : ℕ → Bool
bad_attempt n = not (leb n max_safe) || ltb n 1

unfoldable pub service_retry : String → RetryInput → Store → Exec Run
unfolding require_optional_ids
service_retry now input s = do
  run_id ← require_id input.run_id
  reject_if (list_too_long input.failed_job_ids) ExceptionCode.invalid_input
  reject_if (bad_attempt input.expected_attempt) ExceptionCode.invalid_input
  reject_if (not (is_discovery input.scope) && missing_or_empty input.failed_job_ids)
      ExceptionCode.invalid_input
  reject_if (given_empty input.failed_job_ids) ExceptionCode.invalid_input
  ids ← require_optional_ids input.failed_job_ids
  retry now (record input { run_id = run_id; failed_job_ids = ids }) s

unfoldable pub service_interrupt : String → InterruptInput → Store → Exec Run
service_interrupt now input s = do
  run_id ← require_id input.run_id
  execution_id ← require_id input.execution_id
  reject_if (bad_attempt input.expected_attempt) ExceptionCode.invalid_input
  interrupt now (record input { run_id = run_id; execution_id = execution_id }) s
