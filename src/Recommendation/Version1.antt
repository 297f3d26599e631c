-- ===== src/Recommendation/Version1.antt =====
-- `recommendFeedV1`, `resolveContinuation`, `recommendFeed` and
-- `isSupportedRecommendationAlgorithm` of
-- apps/api/src/issue/recommendation/issueRecommendation.ts.
pub mod Laws
use newtine_backend.Prelude.{
  ℕ, String, Bool, true, false, ◌&&◌, ◌||◌, Option, none, some, List, [], take, length, ltb, leb,
  ◌==◌, nat_eq, string_eq, if◌then◌else◌,
}
use newtine_backend.Recommendation.Types.{Numbers, batch_size, Continuation}
use newtine_backend.Recommendation.Targets.{select_by_target}
use newtine_backend.Recommendation.Swaps.{order_with_alternatives}
use newtine_backend.Recommendation.Version2.{
  Input, Output, budget_of, output_items, scored_pool, recommend_feed_v2,
}

-- `resolveContinuation`
unfoldable pub resolve_continuation : ℕ → ℕ → ℕ → ℕ → ℕ → Bool → Continuation
resolve_continuation candidates budget selected ordered pool alternative_search_limited =
    let search_limited = ltb budget candidates || alternative_search_limited in
    if selected == 0 && candidates == 0
    then Continuation.exhausted
    else if ltb ordered selected
    then (if search_limited then Continuation.search_limited else Continuation.constraint_limited)
    else if ltb selected batch_size && search_limited
    then Continuation.search_limited
    else if ltb selected batch_size && ltb pool batch_size
    then Continuation.exhausted
    else if ltb selected batch_size
    then Continuation.constraint_limited
    else Continuation.go_on

-- `ISSUE_RECOMMENDATION_ALGORITHM_VERSION_V1` and `_V2`
abbrev pub version_1 : String
version_1 = "issue-card-query-v1"

abbrev pub version_2 : String
version_2 = "issue-card-query-v2"

-- `isSupportedRecommendationAlgorithm`
unfoldable pub is_supported_recommendation_algorithm : String → Bool
is_supported_recommendation_algorithm value = value == version_1 || value == version_2

module _ {F : Type 0} (n : Numbers F) where
  -- `recommendFeedV1`
  unfoldable pub recommend_feed_v1 : Input F → Output
  recommend_feed_v1 input =
      let scored = scored_pool n input in
      let selected = select_by_target n scored in
      let result = order_with_alternatives n selected scored input.previous_session in
      let pool = take (budget_of input) input.issues in
      record {
        items = output_items 0 (take batch_size result.best.items);
        continuation =
            resolve_continuation (length input.issues) (budget_of input) (length selected)
              (length result.best.items) (length pool) result.search_limited;
        state = result.best.state;
      }

  -- `recommendFeed`, which throws for an unknown version.
  unfoldable pub recommend_feed : Input F → String → Option Output
  unfolding recommend_feed_v1
  recommend_feed input version =
      if version == version_2
      then some (recommend_feed_v2 n input)
      else if version == version_1
      then some (recommend_feed_v1 input)
      else none
