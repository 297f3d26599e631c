-- ===== src/Pipeline/Limits/Bounds.antt =====
-- The limits of a run, as pipeline.limits.ts promises them.
use newtine_backend.Prelude.{ℕ, ◌≤◌, Option, ◌≡◌, subst, arith}
use newtine_backend.Prelude.Result.{first_of_chain, ok}
use newtine_backend.Pipeline.Types.{Limits}
use newtine_backend.Pipeline.Limits.{PartialLimits, normalize_limits, limit_of, check_bodies}

-- Each limit is at least 1 and at most its maximum, two or three bodies are wanted, and as many
-- attempts are allowed.
pub record InRange (r : Limits) : Type 0 where
  pub discovery_queries : (1 ≤ r.discovery_queries) × (r.discovery_queries ≤ 1)
  pub discovery_news : (1 ≤ r.discovery_news) × (r.discovery_news ≤ 20)
  pub max_candidates : (1 ≤ r.max_candidates) × (r.max_candidates ≤ 5)
  pub max_new_issues : (1 ≤ r.max_new_issues) × (r.max_new_issues ≤ 3)
  pub issue_search_queries : (1 ≤ r.issue_search_queries) × (r.issue_search_queries ≤ 2)
  pub related_articles : (1 ≤ r.related_articles_per_query) × (r.related_articles_per_query ≤ 10)
  pub valid_bodies_target : (2 ≤ r.valid_bodies_target) × (r.valid_bodies_target ≤ 3)
  pub max_body_attempts : (r.valid_bodies_target ≤ r.max_body_attempts) × (r.max_body_attempts ≤ 5)
  pub transient_retries : (1 ≤ r.transient_retries) × (r.transient_retries ≤ 1)

-- A round of the loop that passes.
limit_of-bounds :
    (given : Option ℕ) (fallback most : ℕ) {n : ℕ}
    → 1 ≤ fallback
    → fallback ≤ most
    → limit_of given fallback most ≡ ok n
    → (1 ≤ n) × (n ≤ most)
unfolding limit_of
limit_of-bounds given fallback most a b h = ground arith

-- The last test returns the limits it is given.
check_bodies-eq-ok :
    (q r : Limits)
    → check_bodies q ≡ ok r
    → (q ≡ r) × (2 ≤ q.valid_bodies_target) × (q.valid_bodies_target ≤ q.max_body_attempts)
unfolding check_bodies
check_bodies-eq-ok q r h = (ground arith, ground arith, ground arith)

Within : Limits → Type 0
Within q =
    ((1 ≤ q.discovery_queries) × (q.discovery_queries ≤ 1))
    × ((1 ≤ q.discovery_news) × (q.discovery_news ≤ 20))
    × ((1 ≤ q.max_candidates) × (q.max_candidates ≤ 5))
    × ((1 ≤ q.max_new_issues) × (q.max_new_issues ≤ 3))
    × ((1 ≤ q.issue_search_queries) × (q.issue_search_queries ≤ 2))
    × ((1 ≤ q.related_articles_per_query) × (q.related_articles_per_query ≤ 10))
    × ((1 ≤ q.max_body_attempts) × (q.max_body_attempts ≤ 5))
    × ((1 ≤ q.valid_bodies_target) × (q.valid_bodies_target ≤ 3))
    × ((1 ≤ q.transient_retries) × (q.transient_retries ≤ 1))

check_bodies-InRange : (q r : Limits) → Within q → check_bodies q ≡ ok r → InRange r
unfolding Within
check_bodies-InRange q r (a, b, c, d, e, f, (_, g), (_, k), l) h =
    let (same, low, enough) = check_bodies-eq-ok q r h in
    subst InRange same (record {
      discovery_queries = a;
      discovery_news = b;
      max_candidates = c;
      max_new_issues = d;
      issue_search_queries = e;
      related_articles = f;
      valid_bodies_target = (low, k);
      max_body_attempts = (enough, g);
      transient_retries = l;
    })

-- The limits that `normalizePipelineLimits` returns are in range.
pub normalize_limits-InRange :
    (i : PartialLimits) (r : Limits) → normalize_limits i ≡ ok r → InRange r
unfolding normalize_limits Within
normalize_limits-InRange i r h =
    let (a, h1, ea) = first_of_chain (limit_of i.discovery_queries 1 1) _ _ h in
    let (b, h2, eb) = first_of_chain (limit_of i.discovery_news 20 20) _ _ h1 in
    let (c, h3, ec) = first_of_chain (limit_of i.max_candidates 5 5) _ _ h2 in
    let (d, h4, ed) = first_of_chain (limit_of i.max_new_issues 3 3) _ _ h3 in
    let (e, h5, ee) = first_of_chain (limit_of i.issue_search_queries 2 2) _ _ h4 in
    let (f, h6, ef) = first_of_chain (limit_of i.related_articles_per_query 10 10) _ _ h5 in
    let (g, h7, eg) = first_of_chain (limit_of i.max_body_attempts 5 5) _ _ h6 in
    let (k, h8, ek) = first_of_chain (limit_of i.valid_bodies_target 3 3) _ _ h7 in
    let (l, h9, el) = first_of_chain (limit_of i.transient_retries 1 1) _ _ h8 in
    check_bodies-InRange _ r
      (
        limit_of-bounds i.discovery_queries 1 1 (omega arith) (omega arith) ea,
        limit_of-bounds i.discovery_news 20 20 (omega arith) (omega arith) eb,
        limit_of-bounds i.max_candidates 5 5 (omega arith) (omega arith) ec,
        limit_of-bounds i.max_new_issues 3 3 (omega arith) (omega arith) ed,
        limit_of-bounds i.issue_search_queries 2 2 (omega arith) (omega arith) ee,
        limit_of-bounds i.related_articles_per_query 10 10 (omega arith) (omega arith) ef,
        limit_of-bounds i.max_body_attempts 5 5 (omega arith) (omega arith) eg,
        limit_of-bounds i.valid_bodies_target 3 3 (omega arith) (omega arith) ek,
        limit_of-bounds i.transient_retries 1 1 (omega arith) (omega arith) el,
      )
      h9
