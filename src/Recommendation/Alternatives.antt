-- ===== src/Recommendation/Alternatives.antt =====
-- `boundedAlternatives` of apps/api/src/issue/recommendation/issueRecommendation.ts: candidates that
-- are left are proposed one after another, and each proposal is ordered by the bounded search.
pub mod Laws
use newtine_backend.Prelude.{
  ℕ, ◌+◌, Bool, true, false, Option, none, some, List, [], ◌∷◌, ◌++◌, take, length, sort, leb,
  if◌then◌else◌,
}
use newtine_backend.Recommendation.Types.{
  Numbers, Selection, batch_size, Candidate, Selected, RunState, Budget, Order,
}
use newtine_backend.Recommendation.Score.{ranks_before}
use newtine_backend.Recommendation.Greedy.{Counts, increment_quota, select_greedy_type, is_chosen}
use newtine_backend.Recommendation.Better.{is_better_order}
use newtine_backend.Recommendation.Search.{bounded_order}

-- `MAX_V2_REPLACEMENT_PROPOSALS`
abbrev pub max_proposals : ℕ
max_proposals = 24

module _ {F : Type 0} (n : Numbers F) where
  abbrev pub counts_onto : Counts → List (Selected F) → Counts
  counts_onto counts [] = counts
  counts_onto counts (x ∷ xs) = counts_onto (increment_quota x.selected_type counts) xs

  -- `proposalCandidates`
  abbrev pub proposal_of : List (Selected F) → Candidate F → Selection → List (Selected F)
  proposal_of items c t =
      take batch_size (items ++ (record { candidate = c; selected_type = t } ∷ []))

  -- What the loop does with an ordered proposal, with a call for the candidates that are left.
  abbrev pub weigh :
      (Order F → Budget → Order F × Budget) → Order F → Order F × Budget → Order F × Budget
  weigh later best r =
      let kept = later best r.1 in
      let improved = later r.0 r.1 in
      if is_better_order n r.0 best
      then (if leb batch_size (length r.0.items) then r else improved)
      else kept

  -- What it does with a candidate whose type is chosen.
  abbrev pub propose :
      (Order F → Budget → Order F × Budget)
      → Candidate F
      → RunState
      → Order F
      → Budget
      → Option Selection
      → Order F × Budget
  propose later c previous best b none = later best b
  propose later c previous best b (some t) =
      weigh later best (bounded_order n (proposal_of best.items c t) previous b)

  -- The loop over the alternatives.
  unfoldable pub try_alternatives :
      List (Candidate F) → RunState → Order F → Budget → Order F × Budget
  try_alternatives [] previous best b = (best, b)
  try_alternatives (c ∷ cs) previous best b =
      let later : Order F → Budget → Order F × Budget = try_alternatives cs previous in
      let skipped = later best b in
      let proposed =
        propose later c previous best (record b { proposals = b.proposals + 1 })
          (select_greedy_type c.eligible_types (counts_onto (λ _. 0) best.items)) in
      if is_chosen n best.items c
      then skipped
      else if leb max_proposals b.proposals
      then (best, record b { cut = true })
      else proposed

  -- `boundedAlternatives`
  unfoldable pub bounded_alternatives :
      Order F → List (Candidate F) → RunState → Budget → Order F × Budget
  unfolding try_alternatives
  bounded_alternatives initial cs previous b =
      try_alternatives (sort (ranks_before n) cs) previous initial b
