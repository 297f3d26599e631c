-- ===== src/Recommendation/Continuation/Laws.antt =====
-- The limit that the run rule sets where all candidates share their topic or their entity.
use newtine_backend.Prelude.{
  ℕ, ◌≤◌, min, String, Bool, true, Option, none, some, List, [], ◌∷◌, length, all, All, ◌==◌,
  string_eq, nat_eq, option_eq, ◌≡◌, refl, ap, Memᴰ, Memᴰ-cons, arith, Bool-cases, Option-cases,
  inl, inr, ==_iff, ◌∙◌, All-of_Memᴰ, All-Memᴰ,
}
use newtine_backend.Recommendation.Types.{
  Issue, Candidate, Selected, RunState, Continuation, batch_size,
}
use newtine_backend.Recommendation.Runs.Laws.{
  Runs, RunsOf, topics_of, entities_of, topics-RunsOf, entities-RunsOf, same-RunsOf,
}
use newtine_backend.Recommendation.Continuation.{
  common, left_of_run, lower, topics, entities, proven_limit, is_provably_constraint_limited,
  resolve_v2_continuation,
}

all-Memᴰ :
    (t : Option String) (xs : List (Option String)) {v : Option String}
    → all (λ x. x == t) xs ≡ true
    → Memᴰ v xs
    → v ≡ t
all-Memᴰ t [] h m = elim m [ ]
all-Memᴰ t (x ∷ xs) {v} h m =
    Memᴰ-cons (λ e. e ∙ (==_iff x t).0 (ground arith)) (λ n. all-Memᴰ t xs (ground arith) n) m

-- A value in common is everyone's.
common-Memᴰ :
    (vs : List (Option String)) (a : String) {v : Option String}
    → common vs ≡ some a
    → Memᴰ v vs
    → v ≡ some a
common-Memᴰ [] a h m = elim m [ ]
common-Memᴰ (none ∷ vs) a h m = absurd (cc)
common-Memᴰ (some t ∷ vs) a h m = elim (Bool-cases (all (λ x. x == some t) vs)) [
  | inl every ↦
      let same : some t ≡ some a = ground arith in
      Memᴰ-cons (λ e. e ∙ same) (λ n. all-Memᴰ (some t) vs every n ∙ same) m
  | inr not_every ↦ absurd (ground arith)
]

-- One of the two limits.
axis-limit :
    (scored vs : List (Option String)) (last : Option String) (run n : ℕ)
    → RunsOf last run vs
    → All (λ v. Memᴰ v scored) vs
    → length vs ≤ n
    → length vs ≤ lower (left_of_run (common scored) last run) n
axis-limit scored vs last run n h among le = elim (Option-cases (common scored)) [
  | inl e ↦ rw e le
  | inr (a, e) ↦
      let bound = same-RunsOf a last run vs h (
        All-of_Memᴰ (λ v. v ≡ some a) vs
          (λ v m. common-Memᴰ scored a e (All-Memᴰ (λ v. Memᴰ v scored) vs among m))) in
      rw e (omega (arith, bound, le))
]

-- The issues of candidates.
abbrev pub issues_of : {F : Type 0} → List (Candidate F) → List (Issue F)
issues_of [] = []
issues_of (c ∷ cs) = c.issue ∷ issues_of cs

module _ {F : Type 0} where
  topic-Memᴰ :
      (cs : List (Candidate F)) (i : Issue F)
      → Memᴰ i (issues_of cs)
      → Memᴰ i.main_topic (topics cs)
  topic-Memᴰ [] i m = elim m [ ]
  topic-Memᴰ (c ∷ cs) i m =
      Memᴰ-cons (λ e. Memᴰ.head (ap (λ j. j.main_topic) e)) (λ n. Memᴰ.tail (topic-Memᴰ cs i n)) m

  entity-Memᴰ :
      (cs : List (Candidate F)) (i : Issue F)
      → Memᴰ i (issues_of cs)
      → Memᴰ i.representative_entity_id (entities cs)
  entity-Memᴰ [] i m = elim m [ ]
  entity-Memᴰ (c ∷ cs) i m =
      Memᴰ-cons (λ e. Memᴰ.head (ap (λ j. j.representative_entity_id) e))
        (λ n. Memᴰ.tail (entity-Memᴰ cs i n)) m

  topics-among :
      (cs : List (Candidate F)) (xs : List (Issue F))
      → All (λ i. Memᴰ i (issues_of cs)) xs
      → All (λ v. Memᴰ v (topics cs)) (topics_of xs) × (length (topics_of xs) ≡ length xs)
  topics-among cs [] h = (tt, refl)
  topics-among cs (x ∷ xs) h =
      let (a, e) = topics-among cs xs h.1 in ((topic-Memᴰ cs x h.0, a), omega (arith, e))

  entities-among :
      (cs : List (Candidate F)) (xs : List (Issue F))
      → All (λ i. Memᴰ i (issues_of cs)) xs
      → All (λ v. Memᴰ v (entities cs)) (entities_of xs) × (length (entities_of xs) ≡ length xs)
  entities-among cs [] h = (tt, refl)
  entities-among cs (x ∷ xs) h =
      let (a, e) = entities-among cs xs h.1 in ((entity-Memᴰ cs x h.0, a), omega (arith, e))

  -- A feed batch that could be shown: issues of the candidates, not more than there are of them and
  -- not more than a batch holds, in an order that the run rule admits.
  pub record Feasible (scored : List (Candidate F)) (s : RunState) (xs : List (Issue F))
      : Type 0 where
    pub end : RunState
    pub runs : Runs s xs end
    pub among : All (λ i. Memᴰ i (issues_of scored)) xs
    pub enough : length xs ≤ length scored
    pub fits : length xs ≤ batch_size

  pub proven_limit-Feasible :
      (scored : List (Candidate F)) (s : RunState) (xs : List (Issue F))
      → Feasible scored s xs
      → length xs ≤ proven_limit scored s
  unfolding proven_limit
  proven_limit-Feasible scored s xs f =
      let (ts, te) = topics-among scored xs f.among in
      let (es, ee) = entities-among scored xs f.among in
      let first =
        axis-limit (topics scored) (topics_of xs) s.last_topic s.topic_run
          (min batch_size (length scored)) (topics-RunsOf s f.end xs f.runs) ts
          (omega (arith, te, f.enough, f.fits)) in
      let second =
        axis-limit (entities scored) (entities_of xs) s.last_representative_entity_id s.entity_run
          (lower (left_of_run (common (topics scored)) s.last_topic s.topic_run)
            (min batch_size (length scored)))
          (entities-RunsOf s f.end xs f.runs) es (omega (arith, te, ee, first)) in
      omega (arith, second, ee)

  -- Where the answer is `CONSTRAINT_LIMITED` without a search of the whole pool, no batch that could
  -- be shown is longer than the one that is shown.
  pub resolve_v2_continuation-longest :
      (inputs budget : ℕ)
      → (scored : List (Candidate F)) → (ordered : List (Selected F)) → (s : RunState)
      → (search_limited : Bool) → (xs : List (Issue F))
      → resolve_v2_continuation inputs budget scored ordered s search_limited none
        ≡ Continuation.constraint_limited
      → Feasible scored s xs
      → length xs ≤ length ordered
  unfolding resolve_v2_continuation is_provably_constraint_limited
  resolve_v2_continuation-longest inputs budget scored ordered s search_limited xs h f =
      ground (arith, proven_limit-Feasible scored s xs f)
