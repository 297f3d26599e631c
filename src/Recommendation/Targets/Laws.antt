-- ===== src/Recommendation/Targets/Laws.antt =====
-- What `selectByTarget` promises of its selection.
use newtine_backend.Prelude.{
  ℕ, String, ◌||◌, Option, none, some, List, [], ◌∷◌, ◌≡◌, refl, ◌∙◌, sym, subst, leb, ltb, ◌==◌,
  count-sort, count-Distinct, Distinct-of_count, length, get_elem?, head?-Memᴰ, sort, sort-Memᴰ,
  All, All-Memᴰ, All-of_Memᴰ, Memᴰ, Distinct, string_eq, if-cases, Bool-cases, Option-cases, inl,
  inr, ==_iff, arith,
}
use newtine_backend.Prelude.Map.{
  Map, values, set-All, All-values, IsKeyed, set-IsKeyed, values-Distinct,
}
use newtine_backend.Recommendation.Types.{
  Numbers, Selection, selection_index, batch_size, Candidate, Selected,
}
use newtine_backend.Recommendation.Score.{ranks_before}
use newtine_backend.Recommendation.Batch.{ids_of, candidate_ids, same_id-eq, Offered}
use newtine_backend.Recommendation.Targets.{
  preferred_type, slots_for, assign_all, candidate_by_id, put_matched, matched, put_preferred,
  is_there, fill_up, target_before, select_by_target,
}
use newtine_backend.Recommendation.Targets.Slots.{SlotOk, SlotsOk, assign_all-SlotsOk}

pub preferred_type-Memᴰ :
    (types : List Selection) {t : Selection} → preferred_type types ≡ some t → Memᴰ t types
unfolding preferred_type
preferred_type-Memᴰ types {t} h =
    sort-Memᴰ (λ l r. ltb (selection_index l) (selection_index r)) t types (head?-Memᴰ _ h)

module _ {F : Type 0} (n : Numbers F) (cs : List (Candidate F)) where
  candidate_by_id-Memᴰ :
      (ds : List (Candidate F)) (id : String) {c : Candidate F}
      → candidate_by_id n ds id ≡ some c
      → Memᴰ c ds × (c.issue.id ≡ id)
  candidate_by_id-Memᴰ [] id h = absurd (cc)
  candidate_by_id-Memᴰ (d ∷ ds) id {c} h = elim (Option-cases (candidate_by_id n ds id)) [
    | inr (e, found) ↦
        let same : some e ≡ some c = rw found at h in
        let (m, at) = candidate_by_id-Memᴰ ds id {c = c} (found ∙ same) in (Memᴰ.tail m, at)
    | inl found ↦ elim (Bool-cases (d.issue.id == id)) [
      | inl hit ↦
          let same : d ≡ c = let q : some d ≡ some c = rw hit at (rw found at h) in ground arith in
          (Memᴰ.head (sym same), subst (λ z. z.issue.id ≡ id) same ((==_iff d.issue.id id).0 hit))
      | inr miss ↦ let q : none ≡ some c = rw miss at (rw found at h) in absurd (cc)
    ]
  ]

  -- What is selected is offered by the candidates.
  abbrev SelectedOk : Map (Selected F) → Type 0
  SelectedOk m = All (λ e. Offered cs e.1) m

  put_matched-SelectedOk :
      (slots : List Selection) (id : String) (slot : ℕ) (m : Map (Selected F))
      → Distinct (candidate_ids cs)
      → SlotOk n cs slots id slot
      → SelectedOk m
      → SelectedOk (put_matched n id (candidate_by_id n cs id) (get_elem? slots slot) m)
  put_matched-SelectedOk slots id slot m distinct ok h =
      elim (Option-cases (candidate_by_id n cs id)) [
        | inl e ↦ rw e h
        | inr (c, e) ↦
            let (listed, named) = candidate_by_id-Memᴰ cs id {c = c} e in
            let same =
              same_id-eq cs ok.candidate c distinct ok.listed listed (ok.named ∙ sym named) in
            rw (e, ok.stands)
              (set-All (λ k x. Offered cs x) id _ m
                (record {
                  listed = listed;
                  eligible = subst (λ d. Memᴰ ok.slot_type d.eligible_types) same ok.eligible;
                })
                h)
      ]

  matched-SelectedOk :
      (slots : List Selection) (slot_of : Map ℕ) (m : Map (Selected F))
      → Distinct (candidate_ids cs)
      → SlotsOk n cs slots slot_of
      → SelectedOk m
      → SelectedOk (matched n cs slots slot_of m)
  unfolding matched
  matched-SelectedOk slots [] m distinct ok h = h
  matched-SelectedOk slots ((id, slot) ∷ rest) m distinct ok h =
      matched-SelectedOk slots rest _ distinct ok.1
        (put_matched-SelectedOk slots id slot m distinct ok.0 h)

  put_preferred-SelectedOk :
      (c : Candidate F) (m : Map (Selected F))
      → Memᴰ c cs
      → SelectedOk m
      → SelectedOk (put_preferred n c (preferred_type c.eligible_types) m)
  put_preferred-SelectedOk c m listed h = elim (Option-cases (preferred_type c.eligible_types)) [
    | inl e ↦ rw e h
    | inr (t, e) ↦ rw e (
        set-All (λ k x. Offered cs x) c.issue.id _ m
          (record { listed = listed; eligible = preferred_type-Memᴰ c.eligible_types e }) h)
  ]

  fill_up-SelectedOk :
      (ds : List (Candidate F)) (m : Map (Selected F))
      → ((c : Candidate F) → Memᴰ c ds → Memᴰ c cs)
      → SelectedOk m
      → SelectedOk (fill_up n ds m)
  unfolding fill_up
  fill_up-SelectedOk [] m sub h = h
  fill_up-SelectedOk (c ∷ ds) m sub h =
      fill_up-SelectedOk ds _ (λ d k. sub d (Memᴰ.tail k))
        (if-cases SelectedOk (leb batch_size (length m) || is_there n c.issue.id m) m
          (put_preferred n c (preferred_type c.eligible_types) m) (λ _. h)
          (λ _. put_preferred-SelectedOk c m (sub c (Memᴰ.head refl)) h))

  -- From candidates without repeated ids, `selectByTarget` selects candidates only, each under a type
  -- of its own.
  pub select_by_target-Offered :
      Distinct (candidate_ids cs) → All (Offered cs) (select_by_target n cs)
  unfolding select_by_target
  select_by_target-Offered distinct =
      let slots = slots_for n cs in
      let assigned = assign_all-SlotsOk n cs slots slots 0 [] tt in
      let from_slots = matched-SelectedOk slots _ [] distinct assigned tt in
      let filled =
        fill_up-SelectedOk (sort (ranks_before n) cs) _ (λ c m. sort-Memᴰ (ranks_before n) c cs m)
          from_slots in
      All-of_Memᴰ (Offered cs) _ (λ x m.
        All-Memᴰ (Offered cs) _ (All-values (Offered cs) _ filled)
          (sort-Memᴰ (target_before n) x _ m))

  -- The selection is kept under the ids of its issues.
  abbrev Keyed : Map (Selected F) → Type 0
  Keyed m = IsKeyed (λ x. x.candidate.issue.id) m

  put_matched-Keyed :
      (slots : List Selection) (id : String) (slot : ℕ) (m : Map (Selected F))
      → Keyed m
      → Keyed (put_matched n id (candidate_by_id n cs id) (get_elem? slots slot) m)
  put_matched-Keyed slots id slot m h = elim (Option-cases (candidate_by_id n cs id)) [
    | inl e ↦ rw e h
    | inr (c, e) ↦ elim (Option-cases (get_elem? slots slot)) [
      | inl q ↦ rw (e, q) h
      | inr (t, q) ↦
          rw (e, q)
            (set-IsKeyed (λ x. x.candidate.issue.id) id _ m (candidate_by_id-Memᴰ cs id {c = c} e).1
              h)
    ]
  ]

  matched-Keyed :
      (slots : List Selection) (slot_of : Map ℕ) (m : Map (Selected F))
      → Keyed m
      → Keyed (matched n cs slots slot_of m)
  unfolding matched
  matched-Keyed slots [] m h = h
  matched-Keyed slots ((id, slot) ∷ rest) m h =
      matched-Keyed slots rest _ (put_matched-Keyed slots id slot m h)

  put_preferred-Keyed :
      (c : Candidate F) (t : Option Selection) (m : Map (Selected F))
      → Keyed m
      → Keyed (put_preferred n c t m)
  put_preferred-Keyed c none m h = h
  put_preferred-Keyed c (some t) m h = set-IsKeyed (λ x. x.candidate.issue.id) c.issue.id _ m refl h

  fill_up-Keyed :
      (ds : List (Candidate F)) (m : Map (Selected F)) → Keyed m → Keyed (fill_up n ds m)
  unfolding fill_up
  fill_up-Keyed [] m h = h
  fill_up-Keyed (c ∷ ds) m h = fill_up-Keyed ds _ (
      if-cases Keyed (leb batch_size (length m) || is_there n c.issue.id m) m
        (put_preferred n c (preferred_type c.eligible_types) m) (λ _. h)
        (λ _. put_preferred-Keyed c (preferred_type c.eligible_types) m h))

  -- `selectByTarget` selects no id twice.
  pub select_by_target-Distinct : Distinct (ids_of (select_by_target n cs))
  unfolding select_by_target
  select_by_target-Distinct =
      let id : Selected F → String = λ x. x.candidate.issue.id in
      let slots = slots_for n cs in
      let from_slots = matched-Keyed slots (assign_all n cs slots slots 0 []) [] tt in
      let filled = fill_up-Keyed (sort (ranks_before n) cs) _ from_slots in
      Distinct-of_count id (select_by_target n cs) (λ a. omega (
        arith,
        count-sort id (target_before n) a (
            values (
              fill_up n (sort (ranks_before n) cs)
                (matched n cs slots (assign_all n cs slots slots 0 []) []))),
        count-Distinct id a _ (values-Distinct id _ filled),
      ))
