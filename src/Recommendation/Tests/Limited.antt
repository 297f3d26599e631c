-- ===== src/Recommendation/Tests/Limited.antt =====
-- The second version on eleven rows of one topic.
use newtine_backend.Prelude.{
  ℕ, none, List, [], ◌∷◌, ◌≡◌, ◌≤◌, refl, length, Distinct, Memᴰ, sort, string_eq, arith,
}
use newtine_backend.Recommendation.Types.{Issue, Continuation}
use newtine_backend.Recommendation.Continuation.Laws.{Feasible}
use newtine_backend.Recommendation.Version2.{Input, scored_pool, recommend_feed_v2}
use newtine_backend.Recommendation.Version2.Laws.{issue_ids}
use newtine_backend.Recommendation.Version2.Limited.{recommend_feed_v2-limited}
use newtine_backend.Recommendation.Tests.{numbers, new_session}
use newtine_backend.Recommendation.Tests.Versions.{row, anyone, numbers-IsStrict}
use newtine_backend.Recommendation.Continuation.{
  resolve_v2_continuation, is_provably_constraint_limited, proven_limit,
}
use newtine_backend.Recommendation.Greedy.{
  greedy_order, inspect, consider, type_for, keep_better, precedes, fill, increment_quota,
  is_quota_available, priority_of, select_greedy_type,
}
use newtine_backend.Recommendation.Targets.{
  select_by_target, assign_all, by_type, fill_up, matched, preferred_type, slots_for, try_assign,
  try_candidates,
}
use newtine_backend.Recommendation.Score.{
  score_candidate, compare_candidate, clamp01, has_known_mismatch, score_at_least,
}
use newtine_backend.Recommendation.Runs.{
  can_append, can_append_signature, advance_run_state, advance_run_state_signature,
}
use newtine_backend.Recommendation.Alternatives.{bounded_alternatives, try_alternatives}
use newtine_backend.Recommendation.Better.{is_better_order, join_ids, quota_score}
use newtine_backend.Recommendation.Materialize.{fill_order, materialize_proven_order, shift_from}
use newtine_backend.Recommendation.Pool.{
  compressed_run_state_key, follow_memo, group_run_signatures, maximum_compressed_run_length,
  next_bucket, prove_full_pool_max_length, reconstruct_maximum_run_order, try_buckets,
}
use newtine_backend.Recommendation.Search.{
  advance_search_state, attempt, bounded_order, bounded_search_order, is_better_search_result,
  quota_score_from_counts, recall,
}
use newtine_backend.Recommendation.Version2.{full_pool_proof, greedy_best, search_v2, use_proof}
use newtine_backend.Prelude.Map.{values, get, set}
use newtine_backend.Prelude.Text.{decimal}

abbrev rents : Input ℕ
rents = record {
  issues =
      row "i1" "rent" 80
      ∷ row "i2" "rent" 90
      ∷ row "i3" "rent" 80
      ∷ row "i4" "rent" 80
      ∷ row "i5" "rent" 80
      ∷ row "i6" "rent" 80
      ∷ row "i7" "rent" 80
      ∷ row "i8" "rent" 80
      ∷ row "i9" "rent" 80
      ∷ row "j1" "rent" 80
      ∷ row "j2" "rent" 80
      ∷ [];
  reader = anyone;
  previous_session = new_session;
  high_score_threshold = none;
  candidate_budget = none;
}

rents-Distinct : Distinct (issue_ids numbers rents.issues)
rents-Distinct =
    (refl, (refl, (refl, (refl, (refl, (refl, (refl, (refl, (refl, (refl, (refl, tt)))))))))))

eleven : length (scored_pool numbers rents) ≡ 11
unfolding resolve_v2_continuation is_provably_constraint_limited proven_limit greedy_order inspect
    consider type_for keep_better precedes fill increment_quota is_quota_available priority_of
    select_greedy_type select_by_target assign_all by_type fill_up matched preferred_type slots_for
    try_assign try_candidates score_candidate compare_candidate clamp01 has_known_mismatch
    score_at_least can_append can_append_signature advance_run_state advance_run_state_signature
    bounded_alternatives try_alternatives is_better_order join_ids quota_score fill_order
    materialize_proven_order shift_from compressed_run_state_key follow_memo group_run_signatures
    maximum_compressed_run_length next_bucket prove_full_pool_max_length
    reconstruct_maximum_run_order try_buckets advance_search_state attempt bounded_order
    bounded_search_order is_better_search_result quota_score_from_counts recall full_pool_proof
    greedy_best search_v2 use_proof values get set decimal sort recommend_feed_v2 scored_pool
eleven = refl

says_limited : (recommend_feed_v2 numbers rents).continuation ≡ Continuation.constraint_limited
unfolding resolve_v2_continuation is_provably_constraint_limited proven_limit greedy_order inspect
    consider type_for keep_better precedes fill increment_quota is_quota_available priority_of
    select_greedy_type select_by_target assign_all by_type fill_up matched preferred_type slots_for
    try_assign try_candidates score_candidate compare_candidate clamp01 has_known_mismatch
    score_at_least can_append can_append_signature advance_run_state advance_run_state_signature
    bounded_alternatives try_alternatives is_better_order join_ids quota_score fill_order
    materialize_proven_order shift_from compressed_run_state_key follow_memo group_run_signatures
    maximum_compressed_run_length next_bucket prove_full_pool_max_length
    reconstruct_maximum_run_order try_buckets advance_search_state attempt bounded_order
    bounded_search_order is_better_search_result quota_score_from_counts recall full_pool_proof
    greedy_best search_v2 use_proof values get set decimal sort recommend_feed_v2 scored_pool
says_limited = refl

abbrev two : List (Issue ℕ)
two = row "i1" "rent" 80 ∷ row "i2" "rent" 90 ∷ []

two-Feasible : Feasible (scored_pool numbers rents) new_session two
unfolding resolve_v2_continuation is_provably_constraint_limited proven_limit greedy_order inspect
    consider type_for keep_better precedes fill increment_quota is_quota_available priority_of
    select_greedy_type select_by_target assign_all by_type fill_up matched preferred_type slots_for
    try_assign try_candidates score_candidate compare_candidate clamp01 has_known_mismatch
    score_at_least can_append can_append_signature advance_run_state advance_run_state_signature
    bounded_alternatives try_alternatives is_better_order join_ids quota_score fill_order
    materialize_proven_order shift_from compressed_run_state_key follow_memo group_run_signatures
    maximum_compressed_run_length next_bucket prove_full_pool_max_length
    reconstruct_maximum_run_order try_buckets advance_search_state attempt bounded_order
    bounded_search_order is_better_search_result quota_score_from_counts recall full_pool_proof
    greedy_best search_v2 use_proof values get set decimal sort recommend_feed_v2 scored_pool
two-Feasible = record {
  end = advance_run_state (row "i2" "rent" 90) (advance_run_state (row "i1" "rent" 80) new_session);
  runs = (refl, (refl, refl));
  among = (Memᴰ.head refl, (Memᴰ.tail (Memᴰ.head refl), tt));
  enough = omega arith;
  fits = omega arith;
}

recommend_feed_v2-limited_example : length two ≤ length (recommend_feed_v2 numbers rents).items
recommend_feed_v2-limited_example =
    recommend_feed_v2-limited numbers rents two numbers-IsStrict rents-Distinct
      (omega (arith, eleven)) says_limited two-Feasible
