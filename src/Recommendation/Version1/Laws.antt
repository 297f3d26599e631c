-- ===== src/Recommendation/Version1/Laws.antt =====
-- What `recommendFeedV1` and `recommendFeed` promise of their output.
use newtine_backend.Prelude.{
  String, Bool, true, false, ◌||◌, ◌↔◌, none, some, List, [], ◌∷◌, ◌≡◌, ◌≢◌, refl, sym, ap, subst,
  take, ◌==◌, string_eq, Distinct, Memᴰ, Memᴰ-cons, Bool-cases, Option, Option-cases,
  some-injective, inl, inr,
}
use newtine_backend.Recommendation.Types.{Numbers, Selection, batch_size, Issue, Reader, Candidate}
use newtine_backend.Recommendation.Score.{candidate_of, score_candidate}
use newtine_backend.Recommendation.Targets.{select_by_target}
use newtine_backend.Recommendation.Targets.Laws.{
  select_by_target-Offered, select_by_target-Distinct,
}
use newtine_backend.Recommendation.Better.Laws.{IsStrict}
use newtine_backend.Recommendation.Swaps.{order_with_alternatives}
use newtine_backend.Recommendation.Swaps.Laws.{order_with_alternatives-IsBatch}
use newtine_backend.Recommendation.Version2.{
  Input, Output, budget_of, or_default, output_items, score_all, scored_pool, recommend_feed_v2,
}
use newtine_backend.Recommendation.Version2.Laws.{issue_ids, scored_pool-Distinct}
use newtine_backend.Recommendation.Version2.Promise.{IsFeed, take-all, recommend_feed_v2-IsFeed}
use newtine_backend.Recommendation.Version1.{
  version_1, version_2, is_supported_recommendation_algorithm, recommend_feed_v1, recommend_feed,
}

module _ {F : Type 0} (n : Numbers F) where
  candidate_of-types :
      (i : Issue F) (score : F) (reasons : List String) (types : List Selection) {c : Candidate F}
      → candidate_of n i score reasons types ≡ some c
      → c.eligible_types ≢ []
  candidate_of-types i score reasons [] h e = absurd (cc)
  candidate_of-types i score reasons (t ∷ ts) {c} h e =
      let first : Candidate F = record {
        issue = i;
        score = score;
        eligible_types = t ∷ ts;
        reason_codes = reasons;
      } in
      let same = ap (λ d. d.eligible_types) (some-injective first c h) in absurd (cc (same, e))

  score_candidate-types :
      (i : Issue F) (r : Reader) (threshold : F) {c : Candidate F}
      → score_candidate n i r threshold ≡ some c
      → c.eligible_types ≢ []
  unfolding score_candidate
  score_candidate-types i r threshold {c} h = candidate_of-types i _ _ _ {c = c} h

  score_all-types :
      (r : Reader) (threshold : F) (is : List (Issue F)) (c : Candidate F)
      → Memᴰ c (score_all n r threshold is)
      → c.eligible_types ≢ []
  score_all-types r threshold [] c m = elim m [ ]
  score_all-types r threshold (i ∷ is) c m = elim (Option-cases (score_candidate n i r threshold)) [
    | inl e ↦ score_all-types r threshold is c (rw e at m)
    | inr (d, e) ↦
        Memᴰ-cons
          (λ same.
            subst (λ x. x.eligible_types ≢ []) (sym same)
              (score_candidate-types i r threshold {c = d} e))
          (λ k. score_all-types r threshold is c k) (rw e at m)
  ]

  -- Where no issue of the input comes twice, `recommendFeedV1` shows a feed too.
  recommend_feed_v1-IsFeed :
      (input : Input F)
      → Distinct (issue_ids n input.issues)
      → IsFeed n input (recommend_feed_v1 n input)
  unfolding recommend_feed_v1 scored_pool
  recommend_feed_v1-IsFeed input no_repeat =
      let pool = scored_pool n input in
      let selected = select_by_target n pool in
      let batch =
        order_with_alternatives-IsBatch n pool input.previous_session selected
          (score_all-types input.reader (or_default input.high_score_threshold n.seven_tenths)
            (take (budget_of input) input.issues))
          (select_by_target-Distinct n pool)
          (select_by_target-Offered n pool (scored_pool-Distinct n input no_repeat)) in
      record {
        order = (order_with_alternatives n selected pool input.previous_session).best;
        batch = batch;
        items_are = ap (output_items 0) (take-all batch_size _ batch.fits);
        state_is = refl;
      }

  -- Whatever version is asked for, what `recommendFeed` returns for issues that do not repeat is a
  -- feed: ten items at most, none twice, each scored and under a type that it is eligible for,
  -- numbered from 1, in an order that the run rule admits from the state of the session, with the
  -- state after it.
  pub recommend_feed-IsFeed :
      (input : Input F) (version : String) (out : Output)
      → IsStrict n
      → Distinct (issue_ids n input.issues)
      → recommend_feed n input version ≡ some out
      → IsFeed n input out
  unfolding recommend_feed
  recommend_feed-IsFeed input version out strict no_repeat h =
      elim (Bool-cases (version == version_2)) [
        | inl e ↦
            subst (IsFeed n input) (some-injective (recommend_feed_v2 n input) out (rw e at h))
              (recommend_feed_v2-IsFeed n input strict no_repeat)
        | inr e ↦ elim (Bool-cases (version == version_1)) [
          | inl q ↦
              subst (IsFeed n input)
                (some-injective (recommend_feed_v1 n input) out (rw q at (rw e at h)))
                (recommend_feed_v1-IsFeed input no_repeat)
          | inr q ↦
              let nothing : Option Output = none in
              let impossible : nothing ≡ some out = rw q at (rw e at h) in absurd (cc)
        ]
      ]

  -- `recommendFeed` throws exactly for the versions that `isSupportedRecommendationAlgorithm`
  -- refuses.
  pub recommend_feed-refuses :
      (input : Input F) (version : String)
      → (recommend_feed n input version ≡ none)
        ↔ (is_supported_recommendation_algorithm version ≡ false)
  unfolding recommend_feed is_supported_recommendation_algorithm
  recommend_feed-refuses input version = elim (Bool-cases (version == version_2)) [
    | inl e ↦ rw (e, or_true (version == version_1)) (λ h. absurd (cc), λ h. absurd (cc))
    | inr e ↦ elim (Bool-cases (version == version_1)) [
      | inl q ↦ rw (e, q) (λ h. absurd (cc), λ h. absurd (cc))
      | inr q ↦ rw (e, q) (λ _. refl, λ _. refl)
    ]
  ]
    where
      or_true : (b : Bool) → (b || true) ≡ true
      or_true true = refl
      or_true false = refl
