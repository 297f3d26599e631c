-- ===== src/Recommendation/Materialize.antt =====
-- `materializeProvenOrder` of apps/api/src/issue/recommendation/issueRecommendation.ts: an order of
-- topics and entities is filled with candidates, the best of each kind first.
pub mod Groups
pub mod Laws
use newtine_backend.Prelude.{
  ℕ, Bool, true, false, Option, none, some, List, [], ◌∷◌, ◌++◌, sort, if◌then◌else◌,
}
use newtine_backend.Recommendation.Types.{Numbers, Selection, Candidate, Selected, RunState, Order}
use newtine_backend.Recommendation.Runs.{Signature, signature_of, can_append, advance_run_state}
use newtine_backend.Recommendation.Score.{ranks_before}
use newtine_backend.Recommendation.Greedy.{Counts, increment_quota, type_for}
use newtine_backend.Recommendation.Pool.{same_signature}

-- An entry of `bySignature`.
pub record Group (F : Type 0) : Type 0 where
  pub signature : Signature
  pub members : List (Candidate F)

abbrev pub add_member : {F : Type 0} → Candidate F → List (Group F) → List (Group F)
add_member c [] = record { signature = signature_of c.issue; members = c ∷ [] } ∷ []
add_member c (g ∷ gs) =
    if same_signature g.signature (signature_of c.issue)
    then record g { members = g.members ++ (c ∷ []) } ∷ gs
    else g ∷ add_member c gs

abbrev pub members_onto : {F : Type 0} → List (Group F) → List (Candidate F) → List (Group F)
members_onto gs [] = gs
members_onto gs (c ∷ cs) = members_onto (add_member c gs) cs

-- `grouped?.shift()` of the first members.
abbrev pub first_of : {F : Type 0} → List (Candidate F) → Option (Candidate F × List (Candidate F))
first_of [] = none
first_of (c ∷ cs) = some (c, cs)

abbrev pub keep_rest :
    {F : Type 0}
    → Group F
    → List (Group F)
    → Option (Candidate F × List (Candidate F))
    → Option (Candidate F × List (Group F))
keep_rest g gs none = none
keep_rest g gs (some (c, cs)) = some (c, record g { members = cs } ∷ gs)

abbrev pub pass_over :
    {F : Type 0}
    → Group F
    → Option (Candidate F × List (Group F))
    → Option (Candidate F × List (Group F))
pass_over g none = none
pass_over g (some (c, gs)) = some (c, g ∷ gs)

unfoldable pub shift_from :
    {F : Type 0} → Signature → List (Group F) → Option (Candidate F × List (Group F))
shift_from s [] = none
shift_from s (g ∷ gs) =
    let later = shift_from s gs in
    if same_signature g.signature s then keep_rest g gs (first_of g.members) else pass_over g later

module _ {F : Type 0} (n : Numbers F) where
  abbrev pub sort_members : List (Group F) → List (Group F)
  sort_members [] = []
  sort_members (g ∷ gs) = record g { members = sort (ranks_before n) g.members } ∷ sort_members gs

  abbrev pub give_up : RunState → Order F
  give_up s = record { items = []; state = s }

  -- The loop over the signatures.
  unfoldable pub fill_order :
      List (Selected F)
      → List (Group F)
      → List Signature
      → List (Selected F)
      → Counts
      → RunState
      → Order F
  unfolding shift_from
  fill_order seed gs [] items counts s = record { items = items; state = s }
  fill_order seed gs (g ∷ rest) items counts s = elim (shift_from g gs) [
    | none ↦ give_up s
    | some (c, left) ↦
        if can_append c.issue s
        then elim (type_for n seed counts c) [
          | none ↦ give_up s
          | some t ↦
              fill_order seed left rest
                (items ++ (record { candidate = c; selected_type = t } ∷ []))
                (increment_quota t counts) (advance_run_state c.issue s)
        ]
        else give_up s
  ]

  -- `materializeProvenOrder`
  unfoldable pub materialize_proven_order :
      List (Candidate F) → List (Selected F) → List Signature → RunState → Order F
  unfolding fill_order
  materialize_proven_order cs seed order previous =
      fill_order seed (sort_members (members_onto [] cs)) order [] (λ _. 0) previous
