-- ===== src/Recommendation/Runs/Laws.antt =====
-- What the run rule promises of a sequence of issues.
use text.Mathlib.TextEquality.{eq_iff}
use newtine_backend.Prelude.{
  ℕ, suc, ◌-◌, ◌≤◌, String, Bool, true, false, ◌&&◌, ◌||◌, Option, none, some, List, [], ◌∷◌, ◌++◌,
  length, All, leb, ◌==◌, string_eq, option_eq, if◌then◌else◌, ◌≡◌, refl, arith, ==_refl, sym,
  subst,
}
use newtine_backend.Recommendation.Types.{Issue, RunState}
use newtine_backend.Recommendation.Runs.{
  can_append, advance_run_state, can_append_signature, advance_run_state_signature, same_as_last,
  run_after,
}

-- The issues are appended one after another from the first state, each admitted, up to the second.
abbrev pub Runs : {F : Type 0} → RunState → List (Issue F) → RunState → Type 0
Runs s [] t = s ≡ t
Runs s (i ∷ is) t = (can_append i s ≡ true) × Runs (advance_run_state i s) is t

abbrev pub topics_of : {F : Type 0} → List (Issue F) → List (Option String)
topics_of [] = []
topics_of (i ∷ is) = i.main_topic ∷ topics_of is

abbrev pub entities_of : {F : Type 0} → List (Issue F) → List (Option String)
entities_of [] = []
entities_of (i ∷ is) = i.representative_entity_id ∷ entities_of is

-- The first two values are both `a`.
abbrev pub starts_with_two : String → List (Option String) → Bool
starts_with_two a [] = false
starts_with_two a (x ∷ []) = false
starts_with_two a (x ∷ y ∷ xs) = (x == some a) && (y == some a)

-- Some value that is present stands three times in a row.
abbrev pub has_three : List (Option String) → Bool
has_three [] = false
has_three (none ∷ xs) = has_three xs
has_three (some a ∷ xs) = starts_with_two a xs || has_three xs

-- The rule for one of the two values, after a run of the last one.
abbrev pub RunsOf : Option String → ℕ → List (Option String) → Type 0
RunsOf last run [] = Unit
RunsOf last run (v ∷ vs) =
    ((same_as_last v last && leb 2 run) ≡ false) × RunsOf v (run_after v last run) vs

module _ {F : Type 0} where
  pub Runs-append :
      (s t u : RunState) (xs ys : List (Issue F)) → Runs s xs t → Runs t ys u → Runs s (xs ++ ys) u
  Runs-append s t u [] ys e h = subst (λ v. Runs v ys u) (sym e) h
  Runs-append s t u (x ∷ xs) ys g h = (g.0, Runs-append (advance_run_state x s) t u xs ys g.1 h)

  pub topics-RunsOf :
      (s t : RunState) (xs : List (Issue F))
      → Runs s xs t
      → RunsOf s.last_topic s.topic_run (topics_of xs)
  unfolding can_append advance_run_state can_append_signature advance_run_state_signature
  topics-RunsOf s t [] h = tt
  topics-RunsOf s t (x ∷ xs) h =
      let admitted = h.0 in (ground arith, topics-RunsOf (advance_run_state x s) t xs h.1)

  pub entities-RunsOf :
      (s t : RunState) (xs : List (Issue F))
      → Runs s xs t
      → RunsOf s.last_representative_entity_id s.entity_run (entities_of xs)
  unfolding can_append advance_run_state can_append_signature advance_run_state_signature
  entities-RunsOf s t [] h = tt
  entities-RunsOf s t (x ∷ xs) h =
      let admitted = h.0 in (ground arith, entities-RunsOf (advance_run_state x s) t xs h.1)

run_after-positive : (a : String) (last : Option String) (run : ℕ) → 1 ≤ run_after (some a) last run
run_after-positive a last run = ground arith

-- Two more of the same are not both admitted.
starts_with_two-RunsOf :
    (a : String) (run : ℕ) (vs : List (Option String))
    → 1 ≤ run
    → RunsOf (some a) run vs
    → starts_with_two a vs ≡ false
starts_with_two-RunsOf a run [] p h = refl
starts_with_two-RunsOf a run (v ∷ []) p h = refl
starts_with_two-RunsOf a run (none ∷ w ∷ vs) p h = refl
starts_with_two-RunsOf a run (some v ∷ none ∷ vs) p h = ground arith
starts_with_two-RunsOf a run (some v ∷ some w ∷ vs) p h =
    let first = h.0 in let second = h.1.0 in ground (arith, eq_iff v a, eq_iff w v, eq_iff w a)

pub RunsOf-has_three :
    (last : Option String) (run : ℕ) (vs : List (Option String))
    → RunsOf last run vs
    → has_three vs ≡ false
RunsOf-has_three last run [] h = refl
RunsOf-has_three last run (none ∷ vs) h = RunsOf-has_three none 0 vs h.1
RunsOf-has_three last run (some a ∷ vs) h =
    rw
      (
        starts_with_two-RunsOf a (run_after (some a) last run) vs (run_after-positive a last run)
            h.1,
        RunsOf-has_three (some a) (run_after (some a) last run) vs h.1,
      )
      refl

-- One round of the count below.
same-step :
    (a : String) (last : Option String) (run : ℕ) (vs : List (Option String))
    → RunsOf last run (some a ∷ vs)
    → ((r : ℕ) → RunsOf (some a) r vs → length vs ≤ (if some a == some a then 2 - r else 2))
    → suc (length vs) ≤ (if last == some a then 2 - run else 2)
same-step a none run vs h more = ground (arith, more 1 h.1, ==_refl a)
same-step a (some l) run vs h more =
    let admitted = h.0 in
    ground (arith, more (run_after (some a) (some l) run) h.1, ==_refl a, eq_iff l a, eq_iff a l)

-- All of the values are one and the same: two of them at most, less what the last run had.
pub same-RunsOf :
    (a : String) (last : Option String) (run : ℕ) (vs : List (Option String))
    → RunsOf last run vs
    → All (λ v. v ≡ some a) vs
    → length vs ≤ (if last == some a then 2 - run else 2)
same-RunsOf a last run [] h g = omega arith
same-RunsOf a last run (v ∷ vs) h (e, g) =
    same-step a last run vs (subst (λ w. RunsOf last run (w ∷ vs)) e h)
      (λ r k. same-RunsOf a (some a) r vs k g)
