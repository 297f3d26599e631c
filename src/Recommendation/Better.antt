-- ===== src/Recommendation/Better.antt =====
-- Which of two batches is better: `quotaScore` and `isBetterOrder` of
-- apps/api/src/issue/recommendation/issueRecommendation.ts.
pub mod Laws
use newtine_backend.Prelude.{
  ℕ, ◌+◌, min, String, Bool, not, List, [], ◌∷◌, length, keep, ltb, ◌==◌, nat_eq, if◌then◌else◌,
}
use newtine_backend.Prelude.Text.{append}
use newtine_backend.Recommendation.Types.{
  Numbers, Selection, same_selection, quota, selection_targets, Selected, Order,
}

-- `items.filter((item) => item.selectedType === type).length`
abbrev pub count_of : {F : Type 0} → Selection → List (Selected F) → ℕ
count_of t items = length (keep (λ x. same_selection x.selected_type t) items)

abbrev pub quota_sum : {F : Type 0} → List Selection → List (Selected F) → ℕ
quota_sum [] items = 0
quota_sum (t ∷ ts) items = min (count_of t items) (quota t) + quota_sum ts items

unfoldable pub quota_score : {F : Type 0} → List (Selected F) → ℕ
quota_score items = quota_sum selection_targets items

-- `items.map((item) => item.issue.id).join('|')`
unfoldable pub join_ids : {F : Type 0} → List (Selected F) → String
join_ids [] = ""
join_ids (x ∷ []) = x.candidate.issue.id
join_ids (x ∷ y ∷ xs) = append x.candidate.issue.id (append "|" (join_ids (y ∷ xs)))

module _ {F : Type 0} (n : Numbers F) where
  -- `items.reduce((sum, item) => sum + item.score, 0)`
  abbrev pub score_sum : F → List (Selected F) → F
  score_sum total [] = total
  score_sum total (x ∷ xs) = score_sum (n.add total x.candidate.score) xs

  unfoldable pub is_better_order : Order F → Order F → Bool
  is_better_order candidate current =
      let candidate_score = score_sum n.nought candidate.items in
      let current_score = score_sum n.nought current.items in
      if not (length candidate.items == length current.items)
      then ltb (length current.items) (length candidate.items)
      else if not (quota_score candidate.items == quota_score current.items)
      then ltb (quota_score current.items) (quota_score candidate.items)
      else if n.differ candidate_score current_score
      then n.gt candidate_score current_score
      else n.text_before (join_ids candidate.items) (join_ids current.items)

  -- `if (isBetterOrder(candidate, current)) current = candidate`
  abbrev pub better : Order F → Order F → Order F
  better candidate current = if is_better_order candidate current then candidate else current
