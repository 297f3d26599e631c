-- ===== src/Pipeline/Limits.antt =====
-- libs/core/src/pipeline/domain/pipeline.limits.ts. A limit that a caller gives is a natural number;
-- negative and fractional ones, which the code refuses too, are left out.
pub mod Bounds
use newtine_backend.Prelude.{
  ℕ, Bool, true, false, not, ◌||◌, Option, none, some, ltb, leb, if◌then◌else◌,
}
use newtine_backend.Prelude.Result.{Result, ok, err, ◌>>=◌, ◌>>◌}
use newtine_backend.Pipeline.Types.{Limits, ExceptionCode}

-- `Partial<PipelineLimits>`
pub record PartialLimits : Type 0 where
  pub discovery_queries : Option ℕ
  pub discovery_news : Option ℕ
  pub max_candidates : Option ℕ
  pub max_new_issues : Option ℕ
  pub issue_search_queries : Option ℕ
  pub related_articles_per_query : Option ℕ
  pub max_body_attempts : Option ℕ
  pub valid_bodies_target : Option ℕ
  pub transient_retries : Option ℕ

abbrev pub default_limits : Limits
default_limits = record {
  discovery_queries = 1;
  discovery_news = 20;
  max_candidates = 5;
  max_new_issues = 3;
  issue_search_queries = 2;
  related_articles_per_query = 10;
  max_body_attempts = 5;
  valid_bodies_target = 3;
  transient_retries = 1;
}

-- `MAX_LIMITS`
abbrev pub max_limits : Limits
max_limits = record {
  discovery_queries = 1;
  discovery_news = 20;
  max_candidates = 5;
  max_new_issues = 3;
  issue_search_queries = 2;
  related_articles_per_query = 10;
  max_body_attempts = 5;
  valid_bodies_target = 3;
  transient_retries = 1;
}

-- `Number.MAX_SAFE_INTEGER`
abbrev pub max_safe : ℕ
max_safe = 9007199254740991

-- One round of the loop over the keys.
unfoldable pub limit_of : Option ℕ → ℕ → ℕ → Result ExceptionCode ℕ
limit_of none fallback most = ok fallback
limit_of (some value) fallback most =
    if not (leb value max_safe) || ltb value 1 || ltb most value
    then err ExceptionCode.invalid_input
    else ok value

check_bodies : Limits → Result ExceptionCode Limits
check_bodies r =
    if ltb r.valid_bodies_target 2
    then err ExceptionCode.invalid_input
    else if ltb r.max_body_attempts r.valid_bodies_target
    then err ExceptionCode.invalid_input
    else ok r

unfoldable pub normalize_limits : PartialLimits → Result ExceptionCode Limits
unfolding check_bodies limit_of
normalize_limits i = do
  a ← limit_of i.discovery_queries default_limits.discovery_queries max_limits.discovery_queries
  b ← limit_of i.discovery_news default_limits.discovery_news max_limits.discovery_news
  c ← limit_of i.max_candidates default_limits.max_candidates max_limits.max_candidates
  d ← limit_of i.max_new_issues default_limits.max_new_issues max_limits.max_new_issues
  e ←
      limit_of i.issue_search_queries default_limits.issue_search_queries
        max_limits.issue_search_queries
  f ←
      limit_of i.related_articles_per_query default_limits.related_articles_per_query
        max_limits.related_articles_per_query
  g ← limit_of i.max_body_attempts default_limits.max_body_attempts max_limits.max_body_attempts
  h ←
      limit_of i.valid_bodies_target default_limits.valid_bodies_target
        max_limits.valid_bodies_target
  k ← limit_of i.transient_retries default_limits.transient_retries max_limits.transient_retries
  check_bodies (record {
    discovery_queries = a;
    discovery_news = b;
    max_candidates = c;
    max_new_issues = d;
    issue_search_queries = e;
    related_articles_per_query = f;
    max_body_attempts = g;
    valid_bodies_target = h;
    transient_retries = k;
  })
