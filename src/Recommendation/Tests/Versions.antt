-- ===== src/Recommendation/Tests/Versions.antt =====
-- Both versions of the recommendation on a few rows.
use newtine_backend.Prelude.{
  ℕ, String, true, false, none, some, List, [], ◌∷◌, ◌++◌, ◌≡◌, ◌↔◌, ◌≤◌, refl, length, Distinct,
  Memᴰ, includes, keys, sort, string_eq,
}
use newtine_backend.Recommendation.Types.{Issue, Reader, Candidate, Continuation, batch_size}
use newtine_backend.Recommendation.Runs.Laws.{Runs, topics_of, entities_of, has_three}
use newtine_backend.Recommendation.Better.Laws.{IsStrict}
use newtine_backend.Recommendation.Version2.{Input, budget_of, scored_pool, recommend_feed_v2}
use newtine_backend.Recommendation.Version2.Laws.{issue_ids}
use newtine_backend.Recommendation.Version2.Promise.{
  IsFeed, shown_ids, recommend_feed_v2-IsFeed, recommend_feed_v2-no_three, recommend_feed_v2-go_on,
  recommend_feed_v2-exhausted,
}
use newtine_backend.Recommendation.Version1.{recommend_feed, recommend_feed_v1, version_1}
use newtine_backend.Recommendation.Version1.Laws.{recommend_feed-IsFeed}
use newtine_backend.Recommendation.Tests.{numbers, new_session}
use newtine_backend.Recommendation.Continuation.{
  resolve_v2_continuation, is_provably_constraint_limited, proven_limit,
}
use newtine_backend.Recommendation.Greedy.{
  greedy_order, inspect, consider, type_for, keep_better, precedes, fill, increment_quota,
  is_quota_available, priority_of, select_greedy_type,
}
use newtine_backend.Recommendation.Targets.{
  select_by_target, assign_all, by_type, fill_up, matched, preferred_type, slots_for, try_assign,
  try_candidates,
}
use newtine_backend.Recommendation.Score.{
  score_candidate, compare_candidate, clamp01, has_known_mismatch, score_at_least,
}
use newtine_backend.Recommendation.Runs.{
  can_append, can_append_signature, advance_run_state, advance_run_state_signature,
}
use newtine_backend.Recommendation.Alternatives.{bounded_alternatives, try_alternatives}
use newtine_backend.Recommendation.Better.{is_better_order, join_ids, quota_score}
use newtine_backend.Recommendation.Materialize.{fill_order, materialize_proven_order, shift_from}
use newtine_backend.Recommendation.Pool.{
  compressed_run_state_key, follow_memo, group_run_signatures, maximum_compressed_run_length,
  next_bucket, prove_full_pool_max_length, reconstruct_maximum_run_order, try_buckets,
}
use newtine_backend.Recommendation.Search.{
  advance_search_state, attempt, bounded_order, bounded_search_order, is_better_search_result,
  quota_score_from_counts, recall,
}
use newtine_backend.Recommendation.Version2.{full_pool_proof, greedy_best, search_v2, use_proof}
use newtine_backend.Prelude.Map.{values, get, set}
use newtine_backend.Prelude.Text.{decimal}

abbrev pub row : String → String → ℕ → Issue ℕ
row id topic importance = record {
  id = id;
  category_code = "housing";
  main_topic = some topic;
  representative_entity_id = none;
  entity_ids = [];
  region_codes = [];
  age_groups = [];
  freshness_score = 0;
  importance_score = importance;
  connected = none;
}

abbrev rows : List (Issue ℕ)
rows = row "i1" "rent" 80 ∷ row "i2" "tax" 90 ∷ []

abbrev pub anyone : Reader
anyone = record { context = none; acted_category_codes = []; connected_issue_ids = [] }

abbrev request : Input ℕ
request = record {
  issues = rows;
  reader = anyone;
  previous_session = new_session;
  high_score_threshold = none;
  candidate_budget = none;
}

pub numbers-IsStrict : IsStrict numbers
numbers-IsStrict = record { nought_same = refl; empty_same = refl }

rows-Distinct : Distinct (issue_ids numbers request.issues)
rows-Distinct = (refl, (refl, tt))

recommend_feed_v2-IsFeed_example : IsFeed numbers request (recommend_feed_v2 numbers request)
recommend_feed_v2-IsFeed_example =
    recommend_feed_v2-IsFeed numbers request numbers-IsStrict rows-Distinct

recommend_feed_v2-no_three_example :
    (new : List (Issue ℕ)) × (keys (λ i. i.id) new
      ≡ shown_ids (recommend_feed_v2 numbers request).items)
    × Runs new_session ([] ++ new) (recommend_feed_v2 numbers request).state
    × (has_three (topics_of ([] ++ new)) ≡ false)
    × (has_three (entities_of ([] ++ new)) ≡ false)
recommend_feed_v2-no_three_example =
    recommend_feed_v2-no_three numbers request new_session [] numbers-IsStrict rows-Distinct refl

recommend_feed_v2-go_on_example :
    ((recommend_feed_v2 numbers request).continuation ≡ Continuation.go_on)
    ↔ (length (recommend_feed_v2 numbers request).items ≡ batch_size)
recommend_feed_v2-go_on_example =
    recommend_feed_v2-go_on numbers request numbers-IsStrict rows-Distinct

answered : recommend_feed numbers request version_1 ≡ some (recommend_feed_v1 numbers request)
unfolding recommend_feed
answered = refl

recommend_feed-IsFeed_example : IsFeed numbers request (recommend_feed_v1 numbers request)
recommend_feed-IsFeed_example =
    recommend_feed-IsFeed numbers request version_1 (recommend_feed_v1 numbers request)
      numbers-IsStrict rows-Distinct answered

all_read : (recommend_feed_v2 numbers request).continuation ≡ Continuation.exhausted
unfolding resolve_v2_continuation is_provably_constraint_limited proven_limit greedy_order inspect
    consider type_for keep_better precedes fill increment_quota is_quota_available priority_of
    select_greedy_type select_by_target assign_all by_type fill_up matched preferred_type slots_for
    try_assign try_candidates score_candidate compare_candidate clamp01 has_known_mismatch
    score_at_least can_append can_append_signature advance_run_state advance_run_state_signature
    bounded_alternatives try_alternatives is_better_order join_ids quota_score fill_order
    materialize_proven_order shift_from compressed_run_state_key follow_memo group_run_signatures
    maximum_compressed_run_length next_bucket prove_full_pool_max_length
    reconstruct_maximum_run_order try_buckets advance_search_state attempt bounded_order
    bounded_search_order is_better_search_result quota_score_from_counts recall full_pool_proof
    greedy_best search_v2 use_proof values get set decimal sort recommend_feed_v2 scored_pool
all_read = refl

recommend_feed_v2-exhausted_example :
    (length request.issues ≤ budget_of request)
    × ((c : Candidate ℕ)
        → Memᴰ c (scored_pool numbers request)
        → includes (shown_ids (recommend_feed_v2 numbers request).items) c.issue.id ≡ true)
recommend_feed_v2-exhausted_example =
    recommend_feed_v2-exhausted numbers request numbers-IsStrict rows-Distinct all_read
