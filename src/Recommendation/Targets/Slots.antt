-- ===== src/Recommendation/Targets/Slots.antt =====
-- The matching of candidates with slots: what a candidate holds is a slot of a type of its own.
use newtine_backend.Prelude.{
  ℕ, zero, suc, ◌+◌, String, true, Option, none, some, List, [], ◌∷◌, ◌++◌, ◌≡◌, refl, ap, ◌∙◌, sym,
  subst, nat_eq, string_eq, includes, get_elem?, length, sort-Memᴰ, All, Memᴰ, Memᴰ-cons,
  Memᴰ-append, if-cases, Bool-cases, Option-cases, inl, inr, ==_iff,
}
use newtine_backend.Prelude.Map.{Map, get, set, set-All}
use newtine_backend.Recommendation.Types.{
  Numbers, Selection, selection_index, same_selection, Candidate,
}
use newtine_backend.Recommendation.Score.{ranks_before}
use newtine_backend.Recommendation.Targets.{
  mentions, of_type, by_type, Assignment, moved_from, try_candidates, try_assign, assign_all,
}

selection_at : ℕ → Selection
selection_at zero = Selection.personalized
selection_at (suc zero) = Selection.major
selection_at (suc (suc zero)) = Selection.connected
selection_at (suc (suc (suc zero))) = Selection.exploration
selection_at (suc (suc (suc (suc k)))) = Selection.opposite

selection_at-selection_index : (t : Selection) → selection_at (selection_index t) ≡ t
unfolding selection_at
selection_at-selection_index Selection.personalized = refl
selection_at-selection_index Selection.major = refl
selection_at-selection_index Selection.connected = refl
selection_at-selection_index Selection.exploration = refl
selection_at-selection_index Selection.opposite = refl

pub same_selection-eq : (t u : Selection) → same_selection t u ≡ true → t ≡ u
same_selection-eq t u h =
    sym (selection_at-selection_index t)
    ∙ ap selection_at ((==_iff (selection_index t) (selection_index u)).0 h)
    ∙ selection_at-selection_index u

module _ {F : Type 0} (n : Numbers F) where
  mentions-Memᴰ :
      (t : Selection) (us : List Selection) (c d : Candidate F)
      → Memᴰ c (mentions n t us d)
      → (c ≡ d) × Memᴰ t us
  mentions-Memᴰ t [] c d m = elim m [ ]
  mentions-Memᴰ t (u ∷ us) c d m = elim (Bool-cases (same_selection t u)) [
    | inl e ↦
        Memᴰ-cons (λ h. (h, Memᴰ.head (same_selection-eq t u e)))
          (λ k. let (same, k') = mentions-Memᴰ t us c d k in (same, Memᴰ.tail k')) (rw e at m)
    | inr e ↦ let (same, k) = mentions-Memᴰ t us c d (rw e at m) in (same, Memᴰ.tail k)
  ]

  of_type-Memᴰ :
      (t : Selection) (cs : List (Candidate F)) (c : Candidate F)
      → Memᴰ c (of_type n t cs)
      → Memᴰ c cs × Memᴰ t c.eligible_types
  of_type-Memᴰ t [] c m = elim m [ ]
  of_type-Memᴰ t (d ∷ cs) c m = elim (Memᴰ-append (mentions n t d.eligible_types d) m) [
    | inl here ↦
        let (same, k) = mentions-Memᴰ t d.eligible_types c d here in
        (Memᴰ.head same, subst (λ x. Memᴰ t x.eligible_types) (sym same) k)
    | inr later ↦ let (k, typed) = of_type-Memᴰ t cs c later in (Memᴰ.tail k, typed)
  ]

  pub by_type-Memᴰ :
      (cs : List (Candidate F)) (t : Selection) (c : Candidate F)
      → Memᴰ c (by_type n cs t)
      → Memᴰ c cs × Memᴰ t c.eligible_types
  unfolding by_type
  by_type-Memᴰ cs t c m = of_type-Memᴰ t cs c (sort-Memᴰ (ranks_before n) c (of_type n t cs) m)

  module _ (cs : List (Candidate F)) (slots : List Selection) where
    -- The slot is one that a candidate with the id may take.
    pub record SlotOk (id : String) (slot : ℕ) : Type 0 where
      pub candidate : Candidate F
      pub slot_type : Selection
      pub listed : Memᴰ candidate cs
      pub named : candidate.issue.id ≡ id
      pub stands : get_elem? slots slot ≡ some slot_type
      pub eligible : Memᴰ slot_type candidate.eligible_types

    abbrev pub SlotsOk : Map ℕ → Type 0
    SlotsOk m = All (λ e. SlotOk e.0 e.1) m

    -- A call that tries a slot, whatever was visited.
    abbrev TryOk : (ℕ → List String → Map ℕ → Assignment) → Type 0
    TryOk try =
        (slot : ℕ) (visited : List String) (m : Map ℕ)
        → SlotsOk m
        → SlotsOk (try slot visited m).slot_of

    moved_from-SlotsOk :
        (try : ℕ → List String → Map ℕ → Assignment)
        → TryOk try
        → (held : Option ℕ) (visited : List String) (m : Map ℕ) → SlotsOk m
        → SlotsOk (moved_from held try visited m).slot_of
    moved_from-SlotsOk try ok none visited m h = h
    moved_from-SlotsOk try ok (some slot) visited m h = ok slot visited m h

    try_candidates-SlotsOk :
        (try : ℕ → List String → Map ℕ → Assignment)
        → TryOk try
        → (slot : ℕ) (t : Selection) → get_elem? slots slot ≡ some t
        → (ds : List (Candidate F)) (visited : List String) (m : Map ℕ)
        → ((c : Candidate F) → Memᴰ c ds → Memᴰ c cs × Memᴰ t c.eligible_types)
        → SlotsOk m
        → SlotsOk (try_candidates n try slot ds visited m).slot_of
    unfolding try_candidates
    try_candidates-SlotsOk try ok slot t at [] visited m sub h = h
    try_candidates-SlotsOk try ok slot t at (c ∷ ds) visited m sub h =
        let IsOk : Assignment → Type 0 = λ r. SlotsOk r.slot_of in
        let moved : Assignment =
          moved_from (get c.issue.id m) try (visited ++ (c.issue.id ∷ [])) m in
        let moved_ok = moved_from-SlotsOk try ok (get c.issue.id m) _ m h in
        let later : (d : Candidate F) → Memᴰ d ds → Memᴰ d cs × Memᴰ t d.eligible_types =
          λ d k. sub d (Memᴰ.tail k) in
        let (listed, eligible) = sub c (Memᴰ.head refl) in
        if-cases IsOk (includes visited c.issue.id) _ _
          (λ _. try_candidates-SlotsOk try ok slot t at ds visited m later h)
          (λ _.
            if-cases IsOk moved.done
              (record {
                done = true;
                visited = moved.visited;
                slot_of = set c.issue.id slot moved.slot_of;
              })
              (try_candidates n try slot ds moved.visited moved.slot_of)
              (λ _.
                set-All SlotOk c.issue.id slot moved.slot_of
                  (record {
                    candidate = c;
                    slot_type = t;
                    listed = listed;
                    named = refl;
                    stands = at;
                    eligible = eligible;
                  })
                  moved_ok)
              (λ _.
                try_candidates-SlotsOk try ok slot t at ds moved.visited moved.slot_of later
                  moved_ok))

    try_assign-SlotsOk : (room : ℕ) → TryOk (try_assign n cs slots room)
    unfolding try_assign
    try_assign-SlotsOk zero slot visited m h = h
    try_assign-SlotsOk (suc room) slot visited m h = elim (Option-cases (get_elem? slots slot)) [
      | inl e ↦ rw e h
      | inr (t, e) ↦ rw e (
          try_candidates-SlotsOk (try_assign n cs slots room) (try_assign-SlotsOk room) slot t e
            (by_type n cs t) visited m (by_type-Memᴰ cs t) h)
    ]

    -- No candidate is ever given a slot that it may not take.
    pub assign_all-SlotsOk :
        (ts : List Selection) (from : ℕ) (m : Map ℕ)
        → SlotsOk m
        → SlotsOk (assign_all n cs slots ts from m)
    unfolding assign_all
    assign_all-SlotsOk [] from m h = h
    assign_all-SlotsOk (t ∷ ts) from m h =
        assign_all-SlotsOk ts (from + 1) _ (try_assign-SlotsOk (suc (length cs)) from [] m h)
