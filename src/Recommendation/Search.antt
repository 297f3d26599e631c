-- ===== src/Recommendation/Search.antt =====
-- The bounded search for the best order of at most ten items: `boundedSearchOrder`, `boundedOrder` and
-- their helpers in apps/api/src/issue/recommendation/issueRecommendation.ts.
-- A mask is the list of its bits, the lowest first. The text that keys the memo writes out the mask
-- and the state, so that a key is compared by these.
pub mod Keys
pub mod Picks
pub mod Laws
pub mod Promise
pub mod Room
use newtine_backend.Prelude.{
  ℕ, zero, suc, ◌+◌, min, String, Bool, true, false, not, ◌&&◌, ◌||◌, Option, none, some, List, [],
  ◌∷◌, map, length, take, any, get_or, set_at, ltb, leb, ◌==◌, nat_eq, string_eq, option_eq,
  if◌then◌else◌,
}
use newtine_backend.Recommendation.Types.{
  Numbers, Selection, selection_index, quota, selection_targets, batch_size, Selected, RunState,
  Budget, Order,
}
use newtine_backend.Recommendation.Runs.{can_append, advance_run_state}
use newtine_backend.Recommendation.Better.{score_sum, join_ids}

-- `MAX_V2_TRANSITIONS`
abbrev pub max_transitions : ℕ
max_transitions = 10000

pub record SearchState : Type 0 where
  pub runs : RunState
  pub quota_counts : List ℕ

-- `SearchResult`
pub record Found (F : Type 0) : Type 0 where
  pub items : List (Selected F)
  pub state : SearchState

abbrev pub Mask : Type 0
Mask = List Bool

-- `remainingMask === 0`
abbrev pub is_zero : Mask → Bool
is_zero mask = not (any (λ b. b) mask)

-- `(remainingMask & (1 << index)) !== 0`
abbrev pub has_bit : Mask → ℕ → Bool
has_bit mask index = get_or mask index false

-- `remainingMask ^ (1 << index)`, where the bit is set.
abbrev pub clear_bit : Mask → ℕ → Mask
clear_bit mask index = set_at mask index false

-- `(1 << candidates.length) - 1`
abbrev pub full_mask : {A : Type 0} → List A → Mask
full_mask [] = []
full_mask (x ∷ xs) = true ∷ full_mask xs

-- `quotaScoreFromCounts`: the counts of the targets, in their order.
abbrev pub capped_sum : List Selection → List ℕ → ℕ
capped_sum [] counts = 0
capped_sum (t ∷ ts) [] = 0
capped_sum (t ∷ ts) (c ∷ counts) = min c (quota t) + capped_sum ts counts

unfoldable pub quota_score_from_counts : List ℕ → ℕ
quota_score_from_counts counts = capped_sum selection_targets counts

unfoldable pub advance_search_state : {F : Type 0} → Selected F → SearchState → SearchState
advance_search_state x s = record {
  runs = advance_run_state x.candidate.issue s.runs;
  quota_counts =
      set_at s.quota_counts (selection_index x.selected_type) (
        min (get_or s.quota_counts (selection_index x.selected_type) 0 + 1)
          (quota x.selected_type));
}

abbrev pub same_list : {A : Type 0} → (A → A → Bool) → List A → List A → Bool
same_list same [] [] = true
same_list same [] (y ∷ ys) = false
same_list same (x ∷ xs) [] = false
same_list same (x ∷ xs) (y ∷ ys) = same x y && same_list same xs ys

abbrev pub same_bit : Bool → Bool → Bool
same_bit true b = b
same_bit false b = not b

abbrev pub same_runs : RunState → RunState → Bool
same_runs s t =
    s.last_topic == t.last_topic
    && s.last_representative_entity_id == t.last_representative_entity_id
    && s.topic_run == t.topic_run
    && s.entity_run == t.entity_run

-- The key is that of the mask and the state.
abbrev pub same_key : Mask → SearchState → Mask → SearchState → Bool
same_key m s m' s' =
    same_list same_bit m m'
    && same_runs s.runs s'.runs
    && same_list (λ a b. a == b) s.quota_counts s'.quota_counts

module _ {F : Type 0} (n : Numbers F) where
  -- `compareItemIds(left, right) < 0` in the last line.
  unfoldable pub is_better_search_result : Found F → Found F → Bool
  is_better_search_result candidate current =
      let candidate_quota = quota_score_from_counts candidate.state.quota_counts in
      let current_quota = quota_score_from_counts current.state.quota_counts in
      let candidate_score = score_sum n n.nought candidate.items in
      let current_score = score_sum n n.nought current.items in
      if not (length candidate.items == length current.items)
      then ltb (length current.items) (length candidate.items)
      else if not (candidate_quota == current_quota)
      then ltb current_quota candidate_quota
      else if n.differ candidate_score current_score
      then n.gt candidate_score current_score
      else n.is_negative (n.locale_compare (join_ids candidate.items) (join_ids current.items))

  -- An entry of the memo.
  pub record Entry : Type 0 where
    pub mask : Mask
    pub state : SearchState
    pub result : Found F

  abbrev pub Memo : Type 0
  Memo = List Entry

  unfoldable pub recall : Mask → SearchState → Memo → Option (Found F)
  recall mask state [] = none
  recall mask state (e ∷ memo) =
      if same_key e.mask e.state mask state then some e.result else recall mask state memo

  -- What a call gives, with the memo and the budget that it leaves.
  pub record Outcome : Type 0 where
    pub best : Found F
    pub memo : Memo
    pub budget : Budget

  abbrev pub nothing : SearchState → Found F
  nothing state = record { items = []; state = state }

  abbrev pub spend : Budget → Budget
  spend b = record b { transitions = b.transitions + 1 }

  abbrev pub stop : Budget → Budget
  stop b = record b { cut = true }

  -- `if (isBetterSearchResult(proposal, best)) best = proposal`
  abbrev pub better_of : Selected F → Found F → Found F → Found F
  better_of x suffix best =
      let proposal : Found F = record { items = x ∷ suffix.items; state = suffix.state } in
      if is_better_search_result proposal best then proposal else best

  -- The loop over the candidates, with a call of the search for what is left. The candidate at `index`
  -- is the first of the list.
  unfoldable pub attempt :
      (Mask → SearchState → Memo → Budget → Outcome)
      → Mask
      → SearchState
      → List (Selected F)
      → ℕ
      → Found F
      → Memo
      → Budget
      → Outcome
  attempt search mask state [] index best memo b = record { best = best; memo = memo; budget = b }
  attempt search mask state (x ∷ xs) index best memo b =
      let skipped = attempt search mask state xs (index + 1) best memo b in
      let refused = attempt search mask state xs (index + 1) best memo (spend b) in
      let suffix = search (clear_bit mask index) (advance_search_state x state) memo (spend b) in
      let best' = better_of x suffix.best best in
      let next = attempt search mask state xs (index + 1) best' suffix.memo suffix.budget in
      if not (has_bit mask index)
      then skipped
      else if ltb max_transitions (b.transitions + 1)
      then record { best = best; memo = memo; budget = stop (spend b) }
      else if not (can_append x.candidate.issue state.runs)
      then refused
      else if suffix.budget.cut
      then record { best = best'; memo = suffix.memo; budget = suffix.budget }
      else next

  -- `if (!budget.cut) memo.set(key, best)`
  abbrev pub remember : Mask → SearchState → Outcome → Outcome
  remember mask state r =
      if r.budget.cut
      then r
      else record r { memo = record { mask = mask; state = state; result = r.best } ∷ r.memo }

  -- `if (cached !== undefined) return cached`
  abbrev pub cached_or : Option (Found F) → Memo → Budget → Outcome → Outcome
  cached_or none memo b fresh = fresh
  cached_or (some cached) memo b fresh = record { best = cached; memo = memo; budget = b }

  -- `boundedSearchOrder`. Each call clears a bit of the mask, and `room` counts the bits that may be
  -- left.
  unfoldable pub bounded_search_order :
      List (Selected F) → ℕ → Mask → SearchState → Memo → Budget → Outcome
  unfolding attempt recall
  bounded_search_order cs zero mask state memo b = record {
    best = nothing state;
    memo = memo;
    budget = b;
  }
  bounded_search_order cs (suc room) mask state memo b =
      let fresh =
        remember mask state
          (attempt (bounded_search_order cs room) mask state cs 0 (nothing state) memo b) in
      if is_zero mask || leb max_transitions b.transitions
      then record { best = nothing state; memo = memo; budget = if is_zero mask then b else stop b }
      else cached_or (recall mask state memo) memo b fresh

  abbrev pub start_state : RunState → SearchState
  start_state previous = record { runs = previous; quota_counts = 0 ∷ 0 ∷ 0 ∷ 0 ∷ 0 ∷ [] }

  -- `boundedOrder`
  unfoldable pub bounded_order : List (Selected F) → RunState → Budget → Order F × Budget
  bounded_order cs previous b =
      let r = bounded_search_order cs (length cs) (full_mask cs) (start_state previous) [] b in
      (record { items = r.best.items; state = r.best.state.runs }, r.budget)
