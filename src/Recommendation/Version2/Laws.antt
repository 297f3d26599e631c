-- ===== src/Recommendation/Version2/Laws.antt =====
-- The search of the second version ends with a batch.
use newtine_backend.Prelude.{
  some-injective, length-sort, ◌≤◌, String, not, ◌&&◌, none, some, List, [], ◌∷◌, ◌≡◌, refl, sym,
  ap, subst, take, length, ltb, leb, count, keys, count-take, count-Distinct, Distinct-of_count,
  All, Memᴰ, Memᴰ-cons, Distinct, string_eq, if-cases, Bool-cases, Option, Option-cases, inl, inr,
  arith,
}
use newtine_backend.Recommendation.Types.{
  Numbers, Selection, batch_size, Issue, Reader, Candidate, Selected, Order,
}
use newtine_backend.Recommendation.Score.{candidate_of, score_candidate, ranks_before}
use newtine_backend.Recommendation.Batch.{candidate_ids, Offered, IsBatch}
use newtine_backend.Recommendation.Targets.{select_by_target}
use newtine_backend.Recommendation.Targets.Laws.{select_by_target-Offered}
use newtine_backend.Recommendation.Greedy.Promise.{greedy_order-IsBatch}
use newtine_backend.Recommendation.Better.Laws.{IsStrict, better-IsBatch}
use newtine_backend.Recommendation.Pool.{Proof}
use newtine_backend.Recommendation.Materialize.Laws.{materialize_proven_order-IsBatch}
use newtine_backend.Recommendation.Alternatives.Laws.{bounded_alternatives-IsBatch}
use newtine_backend.Recommendation.Version2.{
  Input, budget_of, or_default, candidates_of, score_all, scored_pool, Greedy, greedy_best,
  full_pool_proof, use_proof, Search, search_v2,
}

module _ {F : Type 0} (n : Numbers F) where
  candidate_of-issue :
      (i : Issue F) (score : F) (reasons : List String) (types : List Selection) {c : Candidate F}
      → candidate_of n i score reasons types ≡ some c
      → c.issue ≡ i
  candidate_of-issue i score reasons [] h = absurd (cc)
  candidate_of-issue i score reasons (t ∷ ts) {c} h =
      let first : Candidate F = record {
        issue = i;
        score = score;
        eligible_types = t ∷ ts;
        reason_codes = reasons;
      } in
      let same = some-injective first c h in ap (λ d. d.issue) (sym same)

  score_candidate-issue :
      (i : Issue F) (r : Reader) (threshold : F) {c : Candidate F}
      → score_candidate n i r threshold ≡ some c
      → c.issue ≡ i
  unfolding score_candidate
  score_candidate-issue i r threshold {c} h = candidate_of-issue i _ _ _ {c = c} h

  -- The ids of the input.
  abbrev pub issue_ids : List (Issue F) → List String
  issue_ids is = keys (λ i. i.id) is

  score_all-count :
      (a : String) (r : Reader) (threshold : F) (is : List (Issue F))
      → count (λ c. c.issue.id) a (score_all n r threshold is) ≤ count (λ i. i.id) a is
  score_all-count a r threshold [] = omega arith
  score_all-count a r threshold (i ∷ is) =
      let rest = score_all-count a r threshold is in
      elim (Option-cases (score_candidate n i r threshold)) [
        | inl e ↦ rw e (omega (arith, rest))
        | inr (c, e) ↦
            let same = ap (λ j. j.id) (score_candidate-issue i r threshold {c = c} e) in
            rw (e, same) (omega (arith, rest))
      ]

  -- Scoring repeats no issue.
  pub scored_pool-Distinct :
      (input : Input F)
      → Distinct (issue_ids input.issues)
      → Distinct (candidate_ids (scored_pool n input))
  unfolding scored_pool
  scored_pool-Distinct input distinct =
      let threshold = or_default input.high_score_threshold n.seven_tenths in
      let pool = take (budget_of input) input.issues in
      Distinct-of_count (λ c. c.issue.id) (score_all n input.reader threshold pool)
        (λ a. omega (
          arith,
          score_all-count a input.reader threshold pool,
          count-take (λ i. i.id) a (budget_of input) input.issues,
          count-Distinct (λ i. i.id) a input.issues distinct,
        ))

  candidates_of-Memᴰ :
      (pool : List (Candidate F)) (xs : List (Selected F)) (c : Candidate F)
      → All (Offered pool) xs
      → Memᴰ c (candidates_of xs)
      → Memᴰ c pool
  candidates_of-Memᴰ pool [] c h m = elim m [ ]
  candidates_of-Memᴰ pool (x ∷ xs) c h m =
      Memᴰ-cons (λ e. subst (λ d. Memᴰ d pool) (sym e) h.0.listed)
        (λ k. candidates_of-Memᴰ pool xs c h.1 k) m

  module _ (input : Input F) (strict : IsStrict n) where
    abbrev IsGood : Order F → Type 0
    IsGood = IsBatch (scored_pool n input) input.previous_session

    greedy_best-IsGood :
        (seed : List (Selected F))
        → Distinct (candidate_ids (scored_pool n input))
        → All (Offered (scored_pool n input)) seed
        → IsGood (greedy_best n input seed (scored_pool n input)).best
    unfolding greedy_best
    greedy_best-IsGood seed distinct offered =
        let pool = scored_pool n input in
        better-IsBatch n pool input.previous_session _ _ strict
          (inr (greedy_order-IsBatch n pool pool seed _ _ _ distinct (λ c m. m) offered))
          (greedy_order-IsBatch n pool (candidates_of seed) seed _ _ _ distinct
            (λ c m. candidates_of-Memᴰ pool seed c offered m) offered)

    full_pool_proof-few :
        (g : Greedy n) (p : Proof)
        → (full_pool_proof n input (scored_pool n input) g).0 ≡ some p
        → length (scored_pool n input) ≤ batch_size
    unfolding full_pool_proof
    full_pool_proof-few g p h =
        elim (Bool-cases (
          not g.budget.cut
          && ltb (length g.best.items) batch_size
          && leb (length input.issues) (budget_of input)
          && leb (length (scored_pool n input)) batch_size)) [
            | inl e ↦ ground (arith, e)
            | inr e ↦
                let no_proof : Option Proof = none in
                let impossible : no_proof ≡ some p = rw e at h in absurd (cc)
          ]

    use_proof-IsGood :
        (seed : List (Selected F)) (best : Order F) (proof : Option Proof)
        → Distinct (candidate_ids (scored_pool n input))
        → All (Offered (scored_pool n input)) seed
        → ((p : Proof) → proof ≡ some p → length (scored_pool n input) ≤ batch_size)
        → IsGood best
        → IsGood (use_proof n input seed (scored_pool n input) best proof)
    unfolding use_proof
    use_proof-IsGood seed best none distinct offered few old = old
    use_proof-IsGood seed best (some p) distinct offered few old =
        let pool = scored_pool n input in
        if-cases IsGood (ltb (length best.items) p.max_length) _ _
          (λ _.
            better-IsBatch n pool input.previous_session _ best strict
              (materialize_proven_order-IsBatch n pool seed p.signature_order input.previous_session
                distinct (few p refl) offered)
              old)
          (λ _. old)

    -- Where no issue comes twice, the search of `recommendFeedV2` ends with a batch of the scored
    -- issues.
    pub search_v2-IsBatch :
        Distinct (issue_ids input.issues)
        → IsBatch (scored_pool n input) input.previous_session (search_v2 n input).best
    unfolding search_v2
    search_v2-IsBatch no_repeat =
        let pool = scored_pool n input in
        let distinct = scored_pool-Distinct input no_repeat in
        let seed = select_by_target n pool in
        let offered = select_by_target-Offered n pool distinct in
        let g = greedy_best n input seed pool in
        let proof = full_pool_proof n input pool g in
        let best = use_proof n input seed pool g.best proof.0 in
        let good =
          use_proof-IsGood seed g.best proof.0 distinct offered (λ p e. full_pool_proof-few g p e)
            (greedy_best-IsGood seed distinct offered) in
        if-cases (λ (r : Search n). IsGood r.best) (g.both_short && not proof.1.cut) _ _
          (λ _.
            better-IsBatch n pool input.previous_session _ best strict
              (inr (
                bounded_alternatives-IsBatch n pool input.previous_session best pool proof.1
                  (λ c m. m) good))
              good)
          (λ _. good)

  -- The alternatives sort the scored issues and lose none.
  pub search_v2-scored :
      (input : Input F) → length (search_v2 n input).scored ≡ length (scored_pool n input)
  unfolding search_v2
  search_v2-scored input =
      let pool = scored_pool n input in
      let g = greedy_best n input (select_by_target n pool) pool in
      if-cases (λ (r : Search n). length r.scored ≡ length pool)
        (g.both_short && not (full_pool_proof n input pool g).1.cut) _ _
        (λ _. length-sort (ranks_before n) pool) (λ _. refl)
