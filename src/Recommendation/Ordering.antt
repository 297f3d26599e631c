-- ===== src/Recommendation/Ordering.antt =====
-- The search without a budget that the first version uses: `searchOrder` and
-- `orderWithoutViolatingRuns` of apps/api/src/issue/recommendation/issueRecommendation.ts.
pub mod Laws
pub mod Promise
use newtine_backend.Prelude.{
  ℕ, zero, suc, ◌+◌, Bool, true, not, Option, none, some, List, [], ◌∷◌, length, take,
  if◌then◌else◌,
}
use newtine_backend.Recommendation.Types.{Numbers, batch_size, Selected, RunState, Order}
use newtine_backend.Recommendation.Runs.{can_append}
use newtine_backend.Recommendation.Search.{
  SearchState, Found, Mask, is_zero, has_bit, clear_bit, full_mask, advance_search_state, Memo,
  recall, nothing, better_of, start_state,
}

module _ {F : Type 0} (n : Numbers F) where
  -- What a call gives, with the memo that it leaves.
  pub record Explored : Type 0 where
    pub best : Found F
    pub memo : Memo n

  -- The loop over the candidates. The candidate at `index` is the first of the list.
  unfoldable pub explore :
      (Mask → SearchState → Memo n → Explored)
      → Mask
      → SearchState
      → List (Selected F)
      → ℕ
      → Found F
      → Memo n
      → Explored
  explore search mask state [] index best memo = record { best = best; memo = memo }
  explore search mask state (x ∷ xs) index best memo =
      let skipped = explore search mask state xs (index + 1) best memo in
      let suffix = search (clear_bit mask index) (advance_search_state x state) memo in
      let next =
        explore search mask state xs (index + 1) (better_of n x suffix.best best) suffix.memo in
      if not (has_bit mask index)
      then skipped
      else if not (can_append x.candidate.issue state.runs)
      then skipped
      else next

  -- `memo.set(key, best)`
  abbrev pub learn : Mask → SearchState → Explored → Explored
  learn mask state r = record r {
    memo = record { mask = mask; state = state; result = r.best } ∷ r.memo;
  }

  abbrev pub known_or : Option (Found F) → Memo n → Explored → Explored
  known_or none memo fresh = fresh
  known_or (some cached) memo fresh = record { best = cached; memo = memo }

  -- `searchOrder`, where `room` counts the bits that may be left in the mask.
  unfoldable pub search_order : List (Selected F) → ℕ → Mask → SearchState → Memo n → Explored
  unfolding explore recall
  search_order cs zero mask state memo = record { best = nothing n state; memo = memo }
  search_order cs (suc room) mask state memo =
      let fresh =
        learn mask state (explore (search_order cs room) mask state cs 0 (nothing n state) memo) in
      if is_zero mask
      then record { best = nothing n state; memo = memo }
      else known_or (recall n mask state memo) memo fresh

  -- `orderWithoutViolatingRuns`
  unfoldable pub order_without_violating_runs : List (Selected F) → RunState → Order F
  unfolding search_order
  order_without_violating_runs selected previous =
      let cs = take batch_size selected in
      let r = search_order cs (length cs) (full_mask cs) (start_state n previous) [] in
      record { items = r.best.items; state = r.best.state.runs }
