-- ===== src/Recommendation/Alternatives/Laws.antt =====
-- The alternatives of a batch end in a batch.
use newtine_backend.Prelude.{
  ◌+◌, String, false, some, List, [], ◌∷◌, ◌++◌, ◌≡◌, refl, sym, subst, length, length-take-le,
  take-Memᴰ, sort, sort-Memᴰ, leb, count-append, count-take, All, All-Memᴰ, All-of_Memᴰ, Memᴰ,
  Memᴰ-cons, Memᴰ-append, Distinct, string_eq, if-cases, Option-cases, inl, inr, arith,
}
use newtine_backend.Recommendation.Types.{
  Numbers, batch_size, Selection, Candidate, Selected, RunState, Budget, Order,
}
use newtine_backend.Recommendation.Score.{ranks_before}
use newtine_backend.Recommendation.Batch.{ids_of, Offered, IsBatch}
use newtine_backend.Recommendation.Greedy.{is_chosen, select_greedy_type}
use newtine_backend.Recommendation.Greedy.Laws.{select_greedy_type-Memᴰ}
use newtine_backend.Recommendation.Greedy.Promise.{added-Distinct}
use newtine_backend.Recommendation.Better.{is_better_order}
use newtine_backend.Recommendation.Search.Promise.{bounded_order-IsBatch}
use newtine_backend.Recommendation.Alternatives.{
  max_proposals, counts_onto, proposal_of, weigh, propose, try_alternatives, bounded_alternatives,
}

module _ {F : Type 0} (n : Numbers F) where
  proposal_of-Distinct :
      (items : List (Selected F)) (c : Candidate F) (t : Selection)
      → Distinct (ids_of items)
      → is_chosen n items c ≡ false
      → Distinct (ids_of (proposal_of n items c t))
  proposal_of-Distinct items c t distinct fresh =
      let id : Selected F → String = λ x. x.candidate.issue.id in
      let x : Selected F = record { candidate = c; selected_type = t } in
      added-Distinct n items (proposal_of n items c t) x
        (λ a.
          omega (
            arith,
            count-take id a batch_size (items ++ (x ∷ [])),
            count-append id a items (x ∷ []),
          ))
        distinct fresh

  proposal_of-Offered :
      (pool : List (Candidate F)) (items : List (Selected F)) (c : Candidate F) (t : Selection)
      → All (Offered pool) items
      → Memᴰ c pool
      → Memᴰ t c.eligible_types
      → All (Offered pool) (proposal_of n items c t)
  proposal_of-Offered pool items c t offered listed eligible =
      let x : Selected F = record { candidate = c; selected_type = t } in
      let x_offered : Offered pool x = record { listed = listed; eligible = eligible } in
      All-of_Memᴰ (Offered pool) _ (λ y m.
        elim (Memᴰ-append items (take-Memᴰ batch_size (items ++ (x ∷ [])) m)) [
          | inl k ↦ All-Memᴰ (Offered pool) items offered k
          | inr k ↦ Memᴰ-cons (λ e. subst (Offered pool) (sym e) x_offered) (λ l. elim l [ ]) k
        ])

  module _ (pool : List (Candidate F)) (previous : RunState) where
    abbrev IsGood : Order F × Budget → Type 0
    IsGood r = IsBatch pool previous r.0

    -- A loop that makes batches of batches.
    abbrev LaterOk : (Order F → Budget → Order F × Budget) → Type 0
    LaterOk later =
        (best : Order F) (b : Budget) → IsBatch pool previous best → IsGood (later best b)

    weigh-IsGood :
        (later : Order F → Budget → Order F × Budget) (best : Order F) (r : Order F × Budget)
        → LaterOk later
        → IsBatch pool previous best
        → IsGood r
        → IsGood (weigh n later best r)
    weigh-IsGood later best r ok old new =
        if-cases IsGood (is_better_order n r.0 best) _ _
          (λ _.
            if-cases IsGood (leb batch_size (length r.0.items)) r (later r.0 r.1) (λ _. new)
              (λ _. ok r.0 r.1 new))
          (λ _. ok best r.1 old)

    propose-IsGood :
        (later : Order F → Budget → Order F × Budget) (c : Candidate F) (best : Order F)
        → (b : Budget) (t : Selection) → LaterOk later
        → IsBatch pool previous best
        → is_chosen n best.items c ≡ false
        → Memᴰ c pool
        → Memᴰ t c.eligible_types
        → IsGood (propose n later c previous best b (some t))
    propose-IsGood later c best b t ok old fresh listed eligible =
        weigh-IsGood later best _ ok old (
          bounded_order-IsBatch n pool (proposal_of n best.items c t) previous b
            (proposal_of-Distinct best.items c t old.distinct fresh) (length-take-le batch_size _).0
            (proposal_of-Offered pool best.items c t old.offered listed eligible))

    try_alternatives-IsGood :
        (cs : List (Candidate F))
        → ((c : Candidate F) → Memᴰ c cs → Memᴰ c pool)
        → LaterOk (try_alternatives n cs previous)
    unfolding try_alternatives
    try_alternatives-IsGood [] sub best b old = old
    try_alternatives-IsGood (c ∷ cs) sub best b old =
        let ok = try_alternatives-IsGood cs (λ d m. sub d (Memᴰ.tail m)) in
        let b' : Budget = record b { proposals = b.proposals + 1 } in
        if-cases IsGood (is_chosen n best.items c) _ _ (λ _. ok best b old)
          (λ fresh.
            if-cases IsGood (leb max_proposals b.proposals) _ _ (λ _. old)
              (λ _.
                elim (Option-cases
                  (select_greedy_type c.eligible_types (counts_onto n (λ _. 0) best.items))) [
                    | inl e ↦ rw e (ok best b' old)
                    | inr (t, e) ↦ rw e (
                        propose-IsGood (try_alternatives n cs previous) c best b' t ok old fresh
                          (sub c (Memᴰ.head refl)) (select_greedy_type-Memᴰ c.eligible_types _ e))
                  ]))

    -- `boundedAlternatives` of a batch of the pool is one.
    pub bounded_alternatives-IsBatch :
        (initial : Order F) (cs : List (Candidate F)) (b : Budget)
        → ((c : Candidate F) → Memᴰ c cs → Memᴰ c pool)
        → IsBatch pool previous initial
        → IsBatch pool previous (bounded_alternatives n initial cs previous b).0
    unfolding bounded_alternatives
    bounded_alternatives-IsBatch initial cs b sub old =
        try_alternatives-IsGood (sort (ranks_before n) cs)
          (λ c m. sub c (sort-Memᴰ (ranks_before n) c cs m)) initial b old
