-- ===== src/Recommendation/Continuation.antt =====
-- `resolveV2Continuation` and `isProvablyConstraintLimited` of
-- apps/api/src/issue/recommendation/issueRecommendation.ts: what the reader is told of the rest of a
-- feed. An infinite limit is `none`.
pub mod Laws
use newtine_backend.Prelude.{
  ℕ, ◌-◌, min, String, Bool, true, false, ◌&&◌, Option, none, some, List, [], ◌∷◌, length, all, ltb,
  leb, ◌==◌, string_eq, nat_eq, option_eq, if◌then◌else◌,
}
use newtine_backend.Recommendation.Types.{Candidate, Selected, RunState, Continuation, batch_size}

-- `values[0] !== null && values.every((value) => value === values[0])`, with the value.
abbrev pub common : List (Option String) → Option String
common [] = none
common (none ∷ xs) = none
common (some t ∷ xs) = if all (λ x. x == some t) xs then some t else none

abbrev pub left_of_run : Option String → Option String → ℕ → Option ℕ
left_of_run none last run = none
left_of_run (some t) last run = some (if last == some t then 2 - run else 2)

abbrev pub lower : Option ℕ → ℕ → ℕ
lower none n = n
lower (some m) n = min m n

abbrev pub topics : {F : Type 0} → List (Candidate F) → List (Option String)
topics [] = []
topics (c ∷ cs) = c.issue.main_topic ∷ topics cs

abbrev pub entities : {F : Type 0} → List (Candidate F) → List (Option String)
entities [] = []
entities (c ∷ cs) = c.issue.representative_entity_id ∷ entities cs

abbrev pub reaches : ℕ → Option ℕ → Bool
reaches ordered none = false
reaches ordered (some most) = leb most ordered

module _ {F : Type 0} where
  -- `provenLimit`
  unfoldable pub proven_limit : List (Candidate F) → RunState → ℕ
  proven_limit scored s =
      let topic_limit = left_of_run (common (topics scored)) s.last_topic s.topic_run in
      let entity_limit =
        left_of_run (common (entities scored)) s.last_representative_entity_id s.entity_run in
      lower entity_limit (lower topic_limit (min batch_size (length scored)))

  unfoldable pub is_provably_constraint_limited :
      List (Candidate F) → List (Selected F) → RunState → Bool
  unfolding proven_limit
  is_provably_constraint_limited scored ordered s =
      if length scored == 0 then false else leb (proven_limit scored s) (length ordered)

  -- `scoredCandidateCount` is `scored.length` at the one call.
  unfoldable pub resolve_v2_continuation :
      ℕ → ℕ → List (Candidate F) → List (Selected F) → RunState → Bool → Option ℕ → Continuation
  unfolding is_provably_constraint_limited
  resolve_v2_continuation inputs budget scored ordered s search_limited most =
      if leb batch_size (length ordered)
      then Continuation.go_on
      else if ltb budget inputs
      then Continuation.search_limited
      else if length scored == 0
      then Continuation.exhausted
      else if length ordered == length scored
      then Continuation.exhausted
      else if reaches (length ordered) most
      then Continuation.constraint_limited
      else if is_provably_constraint_limited scored ordered s
      then Continuation.constraint_limited
      else Continuation.search_limited
