-- ===== src/Recommendation/Swaps.antt =====
-- `orderWithAlternatives`, `replacementCandidates`, `canImproveRunOrQuota` and
-- `hasAlternativeQuotaOpportunity` of apps/api/src/issue/recommendation/issueRecommendation.ts: the
-- first version appends or swaps in candidates that are left, for three rounds at most.
pub mod Laws
use newtine_backend.Prelude.{
  ℕ, zero, suc, ◌+◌, String, Bool, true, false, not, ◌&&◌, ◌||◌, Option, none, some, List, [], ◌∷◌,
  ◌++◌, any, keep, take, length, get_elem?, set_at, sort, ltb, leb, ◌==◌, nat_eq, string_eq,
  option_eq, if◌then◌else◌,
}
use newtine_backend.Recommendation.Types.{
  Numbers, Selection, same_selection, quota, selection_targets, batch_size, Candidate, Selected,
  RunState, Order,
}
use newtine_backend.Recommendation.Score.{ranks_before}
use newtine_backend.Recommendation.Greedy.{is_chosen}
use newtine_backend.Recommendation.Targets.{preferred_type}
use newtine_backend.Recommendation.Better.{is_better_order, quota_score}
use newtine_backend.Recommendation.Ordering.{order_without_violating_runs}

-- `MAX_ALTERNATIVE_ROUNDS` and `MAX_REPLACEMENTS_PER_ALTERNATIVE`
abbrev pub max_alternative_rounds : ℕ
max_alternative_rounds = 3

abbrev pub max_replacements : ℕ
max_replacements = 2

-- `types.includes(type)`
abbrev pub has_type : List Selection → Selection → Bool
has_type types t = any (λ u. same_selection u t) types

abbrev pub is_present : Option String → Bool
is_present none = false
is_present (some a) = true

-- `value !== null && value === other`
abbrev pub is_same_present : Option String → Option String → Bool
is_same_present v w = is_present v && v == w

abbrev pub indexes_of : List (ℕ × ℕ) → List ℕ
indexes_of [] = []
indexes_of (p ∷ ps) = p.0 ∷ indexes_of ps

-- `topicCanBreak`, `entityCanBreak`
abbrev pub can_break : Option String → Option String → Bool
can_break none held = is_present held
can_break (some a) held = is_present held && not (some a == held)

module _ {F : Type 0} where
  abbrev pub topic_of : Selected F → Option String
  topic_of x = x.candidate.issue.main_topic

  abbrev pub entity_of : Selected F → Option String
  entity_of x = x.candidate.issue.representative_entity_id

  -- `(topicCounts.get(topic) ?? 0) >= 2`, for one of the two values.
  abbrev pub is_repeated : (Selected F → Option String) → List (Selected F) → Selected F → Bool
  is_repeated value selected x =
      is_present (value x) && leb 2 (length (keep (λ y. value y == value x) selected))

  -- `priority` of a candidate that may be replaced.
  unfoldable pub replacement_priority : Candidate F → List (Selected F) → RunState → Selected F → ℕ
  replacement_priority alternative selected previous x =
      (if is_repeated topic_of selected x then 4 else 0)
      + (if is_repeated entity_of selected x then 4 else 0)
      + (if is_same_present (topic_of x) previous.last_topic && leb 2 previous.topic_run
          then 2
          else 0)
      + (if is_same_present (entity_of x) previous.last_representative_entity_id
            && leb 2 previous.entity_run
          then 2
          else 0)
      + (if has_type alternative.eligible_types x.selected_type then 1 else 0)

  abbrev pub priorities_from : ℕ → (Selected F → ℕ) → List (Selected F) → List (ℕ × ℕ)
  priorities_from index priority [] = []
  priorities_from index priority (x ∷ xs) =
      (index, priority x) ∷ priorities_from (index + 1) priority xs

  -- `replacementCandidates`
  unfoldable pub replacement_candidates : Candidate F → List (Selected F) → RunState → List ℕ
  unfolding replacement_priority
  replacement_candidates alternative selected previous = indexes_of (
      sort (λ l r. ltb r.1 l.1 || (r.1 == l.1 && ltb l.0 r.0))
        (priorities_from 0 (replacement_priority alternative selected previous) selected))

  -- `canImproveRunOrQuota`
  unfoldable pub can_improve_run_or_quota : Candidate F → List (Selected F) → Bool
  can_improve_run_or_quota c [] = true
  can_improve_run_or_quota c (x ∷ xs) =
      any
        (λ y.
          can_break c.issue.main_topic (topic_of y)
          || can_break c.issue.representative_entity_id (entity_of y)
          || any (λ t. not (has_type y.candidate.eligible_types t)) c.eligible_types)
        (x ∷ xs)

  -- `selectedTypes.has(type)`
  abbrev pub is_type_held : List (Selected F) → Selection → Bool
  is_type_held selected t = any (λ x. has_type x.candidate.eligible_types t) selected

  abbrev pub capacity : List Selection → List (Selected F) → ℕ
  capacity [] selected = 0
  capacity (t ∷ ts) selected =
      (if is_type_held selected t then quota t else 0) + capacity ts selected

module _ {F : Type 0} (n : Numbers F) where
  -- `hasAlternativeQuotaOpportunity`
  unfoldable pub has_alternative_quota_opportunity : List (Selected F) → List (Candidate F) → Bool
  has_alternative_quota_opportunity selected cs =
      ltb (quota_score selected) (capacity selection_targets selected)
      || any
          (λ c.
            not (is_chosen n selected c)
            && any (λ t. not (is_type_held selected t)) c.eligible_types)
          cs

  -- `bestSelection`, `best`, `searchLimited` and `improved`
  pub record Progress : Type 0 where
    pub selection : List (Selected F)
    pub best : Order F
    pub search_limited : Bool
    pub improved : Bool

  -- A proposal replaces the best selection where its order is better.
  abbrev pub accept : List (Selected F) → Order F → Progress → Progress
  accept proposal ordered p = record p { selection = proposal; best = ordered; improved = true }

  -- `preferredType(...) ?? 'MAJOR'`
  abbrev pub or_major : Option Selection → Selection
  or_major none = Selection.major
  or_major (some t) = t

  -- The branch that appends.
  unfoldable pub append_alternative : Candidate F → RunState → Progress → Progress
  append_alternative c previous p =
      let t = or_major (preferred_type c.eligible_types) in
      let proposal = p.selection ++ (record { candidate = c; selected_type = t } ∷ []) in
      let ordered = order_without_violating_runs n proposal previous in
      if is_better_order n ordered p.best then accept proposal ordered p else p

  -- `selectedType` in the place of a candidate that is removed.
  abbrev pub type_in_place : Candidate F → Selected F → Option Selection
  type_in_place c removed =
      if has_type c.eligible_types removed.selected_type
      then some removed.selected_type
      else preferred_type c.eligible_types

  -- A replacement that is better ends the loop over the indexes; another one goes on with `next`.
  abbrev pub replace_at :
      Candidate F → RunState → Progress → ℕ → Option Selection → Progress → Progress
  replace_at c previous p index none next = next
  replace_at c previous p index (some t) next =
      let proposal = set_at p.selection index (record { candidate = c; selected_type = t }) in
      let ordered = order_without_violating_runs n proposal previous in
      if not (has_type c.eligible_types t)
      then next
      else if is_better_order n ordered p.best
      then accept proposal ordered p
      else next

  abbrev pub replace_removed :
      Candidate F → RunState → Progress → ℕ → Option (Selected F) → Progress → Progress
  replace_removed c previous p index none next = next
  replace_removed c previous p index (some removed) next =
      replace_at c previous p index (type_in_place c removed) next

  -- The loop over the indexes.
  unfoldable pub try_indexes : Candidate F → RunState → List ℕ → Progress → Progress
  try_indexes c previous [] p = p
  try_indexes c previous (index ∷ rest) p =
      let next = try_indexes c previous rest p in
      if is_chosen n p.selection c
      then p
      else replace_removed c previous p index (get_elem? p.selection index) next

  -- The branch that swaps in.
  unfoldable pub swap_alternative : Candidate F → RunState → Progress → Progress
  unfolding try_indexes
  swap_alternative c previous p =
      let indexes = replacement_candidates c p.selection previous in
      let limited = ltb max_replacements (length indexes) && ltb (length p.best.items) batch_size in
      try_indexes c previous (take max_replacements indexes)
        (record p { search_limited = p.search_limited || limited })

  -- The loop over the alternatives of a round.
  unfoldable pub try_round : Bool → List (Candidate F) → RunState → Progress → Progress
  unfolding append_alternative swap_alternative
  try_round appends [] previous p = p
  try_round appends (c ∷ cs) previous p = try_round appends cs previous (
      if is_chosen n p.selection c
      then p
      else if appends
      then append_alternative c previous p
      else swap_alternative c previous p)

  -- `alternatives` of a round.
  unfoldable pub alternatives_for : List (Candidate F) → Progress → List (Candidate F)
  alternatives_for cs p =
      let run_limited = ltb (length p.best.items) (length p.selection) in
      sort (ranks_before n) (
        keep (λ c. not run_limited || can_improve_run_or_quota c p.selection)
          (keep (λ c. not (is_chosen n p.selection c)) cs))

  -- The rounds: `left` counts those that are left after this one.
  unfoldable pub rounds : ℕ → List (Candidate F) → RunState → Progress → Progress
  unfolding try_round alternatives_for
  rounds zero cs previous p = p
  rounds (suc left) cs previous p =
      let q =
        try_round (ltb (length p.selection) batch_size) (alternatives_for cs p) previous
          (record p { improved = false }) in
      let last : Bool = left == 0 in
      let more = rounds left cs previous (record q { search_limited = q.search_limited || last }) in
      if not q.improved || leb batch_size (length q.best.items) then q else more

  -- `orderWithAlternatives`, with the last selection.
  unfoldable pub order_with_alternatives :
      List (Selected F) → List (Candidate F) → RunState → Progress
  unfolding rounds has_alternative_quota_opportunity
  order_with_alternatives selected cs previous =
      let best = order_without_violating_runs n selected previous in
      let start : Progress = record {
        selection = selected;
        best = best;
        search_limited = false;
        improved = false;
      } in
      let searched = rounds max_alternative_rounds cs previous start in
      if leb batch_size (length best.items) && not (has_alternative_quota_opportunity selected cs)
      then start
      else searched
