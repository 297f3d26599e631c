-- ===== src/Recommendation/Greedy.antt =====
-- `greedyOrder` of apps/api/src/issue/recommendation/issueRecommendation.ts: ten rounds at most, each
-- of which appends the best candidate that the run rule admits.
pub mod Stop
pub mod Laws
pub mod Promise
use newtine_backend.Prelude.{
  ℕ, zero, suc, ◌+◌, String, Bool, true, false, not, ◌&&◌, ◌||◌, Option, none, some, List, [], ◌∷◌,
  ◌++◌, ltb, leb, ◌==◌, string_eq, nat_eq, if◌then◌else◌, any, find, head?, sort, keep, length,
}
use newtine_backend.Recommendation.Types.{
  Numbers, Selection, selection_index, quota, batch_size, Candidate, Selected, RunState, Budget,
  Order,
}
use newtine_backend.Recommendation.Runs.{can_append, advance_run_state}
use newtine_backend.Recommendation.Score.{ranks_before}

-- `quotaCounts`
abbrev pub Counts : Type 0
Counts = Selection → ℕ

unfoldable pub is_quota_available : Selection → Counts → Bool
is_quota_available t counts = ltb (counts t) (quota t)

unfoldable pub increment_quota : Selection → Counts → Counts
increment_quota t counts u =
    if selection_index t == selection_index u then counts u + 1 else counts u

-- The comparison in `selectGreedyType`: available types first, then the order of the targets.
abbrev type_before : Counts → Selection → Selection → Bool
type_before counts l r =
    if is_quota_available l counts
    then (if is_quota_available r counts then ltb (selection_index l) (selection_index r) else true)
    else (if is_quota_available r counts
        then false
        else ltb (selection_index l) (selection_index r))

unfoldable pub select_greedy_type : List Selection → Counts → Option Selection
select_greedy_type types counts = head? (sort (type_before counts) types)

-- `CandidatePriority`
pub record Priority : Type 0 where
  pub seed : ℕ
  pub quota : ℕ

-- `compareCandidatePriority(l, r) < 0`
unfoldable pub precedes : Priority → Priority → Bool
precedes l r = ltb l.seed r.seed || (l.seed == r.seed && ltb l.quota r.quota)

abbrev pub is_same : Priority → Priority → Bool
is_same l r = (l.seed == r.seed) && (l.quota == r.quota)

module _ {F : Type 0} (n : Numbers F) where
  abbrev pub id_of : Selected F → String
  id_of x = x.candidate.issue.id

  -- `seedById.get(id)`: the last of equal ids, as in a map made from a list.
  abbrev pub seed_by_id : List (Selected F) → String → Option (Selected F)
  seed_by_id [] id = none
  seed_by_id (x ∷ xs) id = elim (seed_by_id xs id) [
    | some y ↦ some y
    | none ↦ if id_of x == id then some x else none
  ]

  abbrev pub is_chosen : List (Selected F) → Candidate F → Bool
  is_chosen chosen c = any (λ x. id_of x == c.issue.id) chosen

  -- `seedById.get(candidate.issue.id)?.selectedType ?? selectGreedyType(...)`
  unfoldable pub type_for : List (Selected F) → Counts → Candidate F → Option Selection
  type_for seed counts c = elim (seed_by_id seed c.issue.id) [
    | some x ↦ some x.selected_type
    | none ↦ select_greedy_type c.eligible_types counts
  ]

  unfoldable pub priority_of : List (Selected F) → Counts → Candidate F → Selection → Priority
  priority_of seed counts c t = record {
    seed = elim (seed_by_id seed c.issue.id) [ some x ↦ 0 | none ↦ 1 ];
    quota = if is_quota_available t counts then 0 else 1;
  }

  -- `next` and `nextPriority`
  abbrev pub Best : Type 0
  Best = Option (Selected F × Priority)

  -- The condition under which a candidate replaces `next`.
  unfoldable pub keep_better : Best → Candidate F → Selection → Priority → Best
  keep_better none c t q = some (record { candidate = c; selected_type = t }, q)
  keep_better (some (x, best)) c t q =
      if precedes q best || (is_same q best && ranks_before n c x.candidate)
      then some (record { candidate = c; selected_type = t }, q)
      else some (x, best)

  -- What a candidate that passed the run rule does to `next`.
  unfoldable pub consider : List (Selected F) → Counts → Candidate F → Best → Best
  consider seed counts c next = elim (type_for seed counts c) [
    | none ↦ next
    | some t ↦ keep_better next c t (priority_of seed counts c t)
  ]

  -- The loop over the sorted candidates.
  unfoldable pub inspect :
      List (Selected F)
      → List (Selected F)
      → Counts
      → RunState
      → ℕ
      → List (Candidate F)
      → Best
      → Budget
      → Best × Budget
  inspect seed chosen counts s most [] next b = (next, b)
  inspect seed chosen counts s most (c ∷ cs) next b =
      if is_chosen chosen c
      then inspect seed chosen counts s most cs next b
      else if ltb most (b.transitions + 1)
      then (next, record { transitions = b.transitions; proposals = b.proposals; cut = true })
      else inspect seed chosen counts s most cs
          (if can_append c.issue s then consider seed counts c next else next)
          (record { transitions = b.transitions + 1; proposals = b.proposals; cut = b.cut })

  -- The outer loop, with the room that is left in the batch.
  unfoldable pub fill :
      ℕ
      → List (Selected F)
      → List (Candidate F)
      → ℕ
      → List (Selected F)
      → Counts
      → RunState
      → Budget
      → List (Selected F) × RunState × Budget
  fill zero seed cs most chosen counts s b = (chosen, s, b)
  fill (suc room) seed cs most chosen counts s b =
      let (found, b') = inspect seed chosen counts s most cs none b in
      elim found [
        | none ↦ (chosen, s, b')
        | some p ↦
            fill room seed cs most (chosen ++ (p.0 ∷ [])) (increment_quota p.0.selected_type counts)
              (advance_run_state p.0.candidate.issue s) b'
      ]

  -- `greedyOrder`
  unfoldable pub greedy_order :
      List (Candidate F)
      → List (Selected F)
      → RunState
      → Budget
      → ℕ
      → List (Selected F) × RunState × Budget
  unfolding fill
  greedy_order cs seed previous b most =
      fill batch_size seed (sort (ranks_before n) cs) most [] (λ _. 0) previous b

  -- The fields `items` and `state` of what `greedyOrder` returns.
  abbrev pub order_of : List (Selected F) × RunState × Budget → Order F
  order_of r = record { items = r.0; state = r.1 }
