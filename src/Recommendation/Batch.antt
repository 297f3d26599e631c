-- ===== src/Recommendation/Batch.antt =====
-- What a batch of the feed promises, however it was found.
use newtine_backend.Prelude.{
  ◌≤◌, String, true, List, [], ◌∷◌, All, Memᴰ, Memᴰ-cons, length, keys, includes, includes-Memᴰ,
  Distinct, string_eq, ◌≡◌, sym, ap, ◌∙◌, subst,
}
use newtine_backend.Recommendation.Types.{batch_size, Issue, Candidate, Selected, RunState, Order}
use newtine_backend.Recommendation.Runs.Laws.{Runs}

-- The issues of a batch, and their ids.
abbrev pub batch_issues : {F : Type 0} → List (Selected F) → List (Issue F)
batch_issues [] = []
batch_issues (x ∷ xs) = x.candidate.issue ∷ batch_issues xs

abbrev pub ids_of : {F : Type 0} → List (Selected F) → List String
ids_of xs = keys (λ x. x.candidate.issue.id) xs

abbrev pub candidate_ids : {F : Type 0} → List (Candidate F) → List String
candidate_ids cs = keys (λ c. c.issue.id) cs

pub candidate_ids-Memᴰ :
    {F : Type 0} (cs : List (Candidate F)) (c : Candidate F)
    → Memᴰ c cs
    → Memᴰ c.issue.id (candidate_ids cs)
candidate_ids-Memᴰ [] c m = elim m [ ]
candidate_ids-Memᴰ (d ∷ cs) c m =
    Memᴰ-cons (λ e. Memᴰ.head (ap (λ x. x.issue.id) e)) (λ k. Memᴰ.tail (candidate_ids-Memᴰ cs c k))
      m

-- Where no id repeats, an id names one candidate.
pub same_id-eq :
    {F : Type 0} (cs : List (Candidate F)) (c d : Candidate F)
    → Distinct (candidate_ids cs)
    → Memᴰ c cs
    → Memᴰ d cs
    → c.issue.id ≡ d.issue.id
    → c ≡ d
same_id-eq [] c d distinct m k e = elim m [ ]
same_id-eq (x ∷ cs) c d distinct m k e =
    Memᴰ-cons
      (λ here_c.
        Memᴰ-cons (λ here_d. here_c ∙ sym here_d)
          (λ later_d. absurd (twice d later_d (sym (ap (λ y. y.issue.id) here_c) ∙ e))) k)
      (λ later_c.
        Memᴰ-cons (λ here_d. absurd (twice c later_c (sym (ap (λ y. y.issue.id) here_d) ∙ sym e)))
          (λ later_d. same_id-eq cs c d distinct.1 later_c later_d e) k)
      m
  where
    twice : (y : Candidate _) → Memᴰ y cs → x.issue.id ≡ y.issue.id → ⊥
    twice y later same =
        let again =
          subst (λ a. includes (candidate_ids cs) a ≡ true) (sym same)
            (includes-Memᴰ y.issue.id (candidate_ids cs) (candidate_ids-Memᴰ cs y later)) in
        absurd (cc (again, distinct.0))

-- A candidate of the pool, under a type of its own.
pub record Offered {F : Type 0} (pool : List (Candidate F)) (x : Selected F) : Type 0 where
  pub listed : Memᴰ x.candidate pool
  pub eligible : Memᴰ x.selected_type x.candidate.eligible_types

-- Ten items at most, no id twice, each offered by the pool, in an order that the run rule admits from
-- the state of the session up to the state of the batch.
pub record IsBatch {F : Type 0} (pool : List (Candidate F)) (s : RunState) (o : Order F)
    : Type 0 where
  pub runs : Runs s (batch_issues o.items) o.state
  pub fits : length o.items ≤ batch_size
  pub distinct : Distinct (ids_of o.items)
  pub offered : All (Offered pool) o.items
