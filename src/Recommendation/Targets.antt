-- ===== src/Recommendation/Targets.antt =====
-- `selectByTarget` and `preferredType` of
-- apps/api/src/issue/recommendation/issueRecommendation.ts: ten slots, four for personal issues and so
-- on, are matched with candidates along augmenting paths, and the rest is filled up by rank.
pub mod Slots
pub mod Laws
pub mod Room
use newtine_backend.Prelude.{
  ℕ, zero, suc, ◌+◌, String, Bool, true, false, not, ◌&&◌, ◌||◌, Option, none, some, List, [], ◌∷◌,
  ◌++◌, any, keep, length, get_elem?, head?, includes, sort, ltb, leb, ◌==◌, nat_eq, string_eq,
  if◌then◌else◌,
}
use newtine_backend.Prelude.Map.{Map, get, set, values}
use newtine_backend.Recommendation.Types.{
  Numbers, Selection, selection_index, same_selection, quota, selection_targets, batch_size,
  Candidate, Selected,
}
use newtine_backend.Recommendation.Score.{ranks_before}

-- `preferredType`
unfoldable pub preferred_type : List Selection → Option Selection
preferred_type types = head? (sort (λ l r. ltb (selection_index l) (selection_index r)) types)

abbrev pub copies : ℕ → Selection → List Selection
copies zero t = []
copies (suc k) t = t ∷ copies k t

-- The slots before they are sorted.
abbrev pub all_slots : List Selection → List Selection
all_slots [] = []
all_slots (t ∷ ts) = copies (quota t) t ++ all_slots ts

-- `eligibleTypes` has the type.
abbrev pub is_eligible : {F : Type 0} → Selection → Candidate F → Bool
is_eligible t c = any (same_selection t) c.eligible_types

-- How a call of `tryAssign` ends: whether it returned true, the visited ids, and the slots.
pub record Assignment : Type 0 where
  pub done : Bool
  pub visited : List String
  pub slot_of : Map ℕ

-- What becomes of the slot that a candidate holds, if it holds one.
abbrev pub moved_from :
    Option ℕ → (ℕ → List String → Map ℕ → Assignment) → List String → Map ℕ → Assignment
moved_from none try visited slot_of = record { done = true; visited = visited; slot_of = slot_of }
moved_from (some held) try visited slot_of = try held visited slot_of

module _ {F : Type 0} (n : Numbers F) where
  -- `byType.get(type)`: a candidate stands in it once for each mention of the type.
  abbrev pub mentions : Selection → List Selection → Candidate F → List (Candidate F)
  mentions t [] c = []
  mentions t (u ∷ us) c = if same_selection t u then c ∷ mentions t us c else mentions t us c

  abbrev pub of_type : Selection → List (Candidate F) → List (Candidate F)
  of_type t [] = []
  of_type t (c ∷ cs) = mentions t c.eligible_types c ++ of_type t cs

  unfoldable pub by_type : List (Candidate F) → Selection → List (Candidate F)
  by_type cs t = sort (ranks_before n) (of_type t cs)

  -- The comparison of two slots: scarce types first, then the order of the targets.
  abbrev pub slot_before : List (Candidate F) → Selection → Selection → Bool
  slot_before cs l r =
      ltb (length (by_type cs l)) (length (by_type cs r))
      || (length (by_type cs l) == length (by_type cs r)
          && ltb (selection_index l) (selection_index r))

  unfoldable pub slots_for : List (Candidate F) → List Selection
  slots_for cs = sort (slot_before cs) (all_slots selection_targets)

  -- The loop of `tryAssign` over the candidates of the slot's type, with a call for the slot that a
  -- candidate holds.
  unfoldable pub try_candidates :
      (ℕ → List String → Map ℕ → Assignment)
      → ℕ
      → List (Candidate F)
      → List String
      → Map ℕ
      → Assignment
  try_candidates try slot [] visited slot_of = record {
    done = false;
    visited = visited;
    slot_of = slot_of;
  }
  try_candidates try slot (c ∷ cs) visited slot_of =
      let visited' = visited ++ (c.issue.id ∷ []) in
      let skipped = try_candidates try slot cs visited slot_of in
      let moved = moved_from (get c.issue.id slot_of) try visited' slot_of in
      let next = try_candidates try slot cs moved.visited moved.slot_of in
      if includes visited c.issue.id
      then skipped
      else if moved.done
      then record {
        done = true;
        visited = moved.visited;
        slot_of = set c.issue.id slot moved.slot_of;
      }
      else next

  -- A slot that is there is tried, an index past the last is not.
  abbrev pub try_slot :
      (List (Candidate F) → List String → Map ℕ → Assignment)
      → List (Candidate F)
      → Option Selection
      → List String
      → Map ℕ
      → Assignment
  try_slot try cs none visited slot_of = record {
    done = false;
    visited = visited;
    slot_of = slot_of;
  }
  try_slot try cs (some t) visited slot_of = try (by_type cs t) visited slot_of

  -- `tryAssign`. Each call inside another one stands behind one more visited candidate, and `room`
  -- counts those that may be left.
  unfoldable pub try_assign :
      List (Candidate F) → List Selection → ℕ → ℕ → List String → Map ℕ → Assignment
  unfolding try_candidates by_type
  try_assign cs slots zero slot visited slot_of = record {
    done = false;
    visited = visited;
    slot_of = slot_of;
  }
  try_assign cs slots (suc room) slot visited slot_of =
      try_slot (try_candidates (try_assign cs slots room) slot) cs (get_elem? slots slot) visited
        slot_of

  -- The loop over the slots: `from` is the index of the first one left.
  unfoldable pub assign_all :
      List (Candidate F) → List Selection → List Selection → ℕ → Map ℕ → Map ℕ
  unfolding try_assign
  assign_all cs slots [] from slot_of = slot_of
  assign_all cs slots (t ∷ ts) from slot_of =
      assign_all cs slots ts (from + 1)
        (try_assign cs slots (suc (length cs)) from [] slot_of).slot_of

  -- `candidateById.get(id)`: the last of equal ids.
  abbrev pub candidate_by_id : List (Candidate F) → String → Option (Candidate F)
  candidate_by_id [] id = none
  candidate_by_id (c ∷ cs) id = elim (candidate_by_id cs id) [
    | some d ↦ some d
    | none ↦ if c.issue.id == id then some c else none
  ]

  abbrev pub put_matched :
      String → Option (Candidate F) → Option Selection → Map (Selected F) → Map (Selected F)
  put_matched id none t selected = selected
  put_matched id (some c) none selected = selected
  put_matched id (some c) (some t) selected =
      set id (record { candidate = c; selected_type = t }) selected

  -- The loop over `candidateToSlot`.
  unfoldable pub matched :
      List (Candidate F) → List Selection → Map ℕ → Map (Selected F) → Map (Selected F)
  matched cs slots [] selected = selected
  matched cs slots ((id, slot) ∷ rest) selected =
      matched cs slots rest (put_matched id (candidate_by_id cs id) (get_elem? slots slot) selected)

  abbrev pub put_preferred : Candidate F → Option Selection → Map (Selected F) → Map (Selected F)
  put_preferred c none selected = selected
  put_preferred c (some t) selected =
      set c.issue.id (record { candidate = c; selected_type = t }) selected

  abbrev pub is_there : String → Map (Selected F) → Bool
  is_there id m = elim (get id m) [ none ↦ false | some v ↦ true ]

  -- The loop over the fallback candidates.
  unfoldable pub fill_up : List (Candidate F) → Map (Selected F) → Map (Selected F)
  fill_up [] selected = selected
  fill_up (c ∷ cs) selected = fill_up cs (
      if leb batch_size (length selected) || is_there c.issue.id selected
      then selected
      else put_preferred c (preferred_type c.eligible_types) selected)

  -- The comparison of the last sort.
  abbrev pub target_before : Selected F → Selected F → Bool
  target_before l r =
      ltb (selection_index l.selected_type) (selection_index r.selected_type)
      || (selection_index l.selected_type == selection_index r.selected_type
          && ranks_before n l.candidate r.candidate)

  -- `selectByTarget`
  unfoldable pub select_by_target : List (Candidate F) → List (Selected F)
  unfolding slots_for assign_all matched fill_up
  select_by_target cs =
      let slots = slots_for cs in
      sort target_before (
        values (
          fill_up (sort (ranks_before n) cs)
            (matched cs slots (assign_all cs slots slots 0 []) [])))
