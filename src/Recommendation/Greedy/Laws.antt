-- ===== src/Recommendation/Greedy/Laws.antt =====
-- What `greedyOrder` promises of its batch.
use mathlib.Core.List.{append-nil, append_assoc}
use newtine_backend.Prelude.{
  ℕ, zero, suc, ◌+◌, ◌≤◌, true, false, ◌&&◌, ◌||◌, none, some, List, [], ◌∷◌, ◌++◌, ltb, string_eq,
  nat_eq, head?-Memᴰ, sort, sort-Memᴰ, length, All, ◌≡◌, refl, sym, subst, Memᴰ, arith,
  Option-cases, if-cases, inl, inr, ◌∙◌,
}
use newtine_backend.Recommendation.Types.{
  Numbers, Selection, batch_size, Candidate, Selected, RunState, Budget,
}
use newtine_backend.Recommendation.Runs.{can_append, advance_run_state}
use newtine_backend.Recommendation.Runs.Laws.{Runs}
use newtine_backend.Recommendation.Batch.{batch_issues}
use newtine_backend.Recommendation.Score.{ranks_before}
use newtine_backend.Recommendation.Greedy.{
  Counts, Best, type_before, select_greedy_type, type_for, priority_of, keep_better, consider,
  is_chosen, seed_by_id, precedes, is_same, inspect, fill, greedy_order, increment_quota, Priority,
}

pub select_greedy_type-Memᴰ :
    (types : List Selection) (counts : Counts) {t : Selection}
    → select_greedy_type types counts ≡ some t
    → Memᴰ t types
unfolding select_greedy_type
select_greedy_type-Memᴰ types counts {t} h =
    sort-Memᴰ (type_before counts) t types (head?-Memᴰ (sort (type_before counts) types) h)

module _ {F : Type 0} (n : Numbers F) where
  -- Each item has an id that no earlier one has.
  abbrev pub Fresh : List (Selected F) → List (Selected F) → Type 0
  Fresh seen [] = Unit
  Fresh seen (x ∷ xs) = (is_chosen n seen x.candidate ≡ false) × Fresh (seen ++ (x ∷ [])) xs

  -- The item is a candidate, under the type that the seed gives it, and under one of its own types
  -- if it is not of the seed.
  pub record Chosen (cs : List (Candidate F)) (seed : List (Selected F)) (x : Selected F)
      : Type 0 where
    pub listed : Memᴰ x.candidate cs
    pub seeded :
        (y : Selected F)
        → seed_by_id n seed x.candidate.issue.id ≡ some y
        → x.selected_type ≡ y.selected_type
    pub eligible :
        seed_by_id n seed x.candidate.issue.id ≡ none
        → Memᴰ x.selected_type x.candidate.eligible_types

  pub type_for-Chosen :
      (cs : List (Candidate F)) (seed : List (Selected F)) (counts : Counts) (c : Candidate F)
      → (t : Selection) → Memᴰ c cs
      → type_for n seed counts c ≡ some t
      → Chosen cs seed (record { candidate = c; selected_type = t })
  unfolding type_for
  type_for-Chosen cs seed counts c t m h = elim (Option-cases (seed_by_id n seed c.issue.id)) [
    | inl e ↦ record {
      listed = m;
      seeded = λ y k. absurd (cc);
      eligible = λ k. select_greedy_type-Memᴰ c.eligible_types counts (rw (e, type_for) at h);
    }
    | inr (z, e) ↦ record {
      listed = m;
      seeded = λ y k.
          let same : some z ≡ some y = cc in
          let named : some z.selected_type ≡ some t = rw (e, type_for) at h in ground arith;
      eligible = λ k. absurd (cc);
    }
  ]

  -- What holds of `next` all through the inner loop.
  pub record Found (all_cs : List (Candidate F)) (seed chosen : List (Selected F)) (s : RunState)
      (x : Selected F) : Type 0 where
    pub chosen_of : Chosen all_cs seed x
    pub admitted : can_append x.candidate.issue s ≡ true
    pub new : is_chosen n chosen x.candidate ≡ false

  abbrev pub BestIs : (Selected F → Type 0) → Best n → Type 0
  BestIs P none = Unit
  BestIs P (some p) = P p.0

  keep_better-BestIs :
      (P : Selected F → Type 0) (next : Best n) (c : Candidate F) (t : Selection) (q : Priority)
      → BestIs P next
      → P (record { candidate = c; selected_type = t })
      → BestIs P (keep_better n next c t q)
  unfolding keep_better
  keep_better-BestIs P none c t q h g = g
  keep_better-BestIs P (some (x, best)) c t q h g =
      if-cases (BestIs P) (precedes q best || (is_same q best && ranks_before n c x.candidate))
        (some (record { candidate = c; selected_type = t }, q)) (some (x, best)) (λ _. g) (λ _. h)

  consider-BestIs :
      (P : Selected F → Type 0) (seed : List (Selected F)) (counts : Counts) (c : Candidate F)
      → (next : Best n) → BestIs P next
      → ((t : Selection)
          → type_for n seed counts c ≡ some t
          → P (record { candidate = c; selected_type = t }))
      → BestIs P (consider n seed counts c next)
  unfolding consider
  consider-BestIs P seed counts c next h g = elim (Option-cases (type_for n seed counts c)) [
    | inl e ↦ rw (e, consider) h
    | inr (t, e) ↦
        rw (e, consider) (keep_better-BestIs P next c t (priority_of n seed counts c t) h (g t e))
  ]

  inspect-Found :
      (all_cs : List (Candidate F)) (seed chosen : List (Selected F)) (counts : Counts)
      → (s : RunState) → (most : ℕ) → (cs : List (Candidate F)) → (next : Best n) → (b : Budget)
      → ((c : Candidate F) → Memᴰ c cs → Memᴰ c all_cs)
      → BestIs (Found all_cs seed chosen s) next
      → BestIs (Found all_cs seed chosen s) (inspect n seed chosen counts s most cs next b).0
  unfolding inspect
  inspect-Found all_cs seed chosen counts s most [] next b sub h = h
  inspect-Found all_cs seed chosen counts s most (c ∷ cs) next b sub h =
      let later : (d : Candidate F) → Memᴰ d cs → Memᴰ d all_cs = λ d m. sub d (Memᴰ.tail m) in
      let is_found : Best n × Budget → Type 0 = λ r. BestIs (Found all_cs seed chosen s) r.0 in
      if-cases is_found (is_chosen n chosen c) _ _
        (λ _. inspect-Found all_cs seed chosen counts s most cs next b later h)
        (λ fresh.
          if-cases is_found (ltb most (b.transitions + 1)) _ _ (λ _. h)
            (λ _. inspect-Found all_cs seed chosen counts s most cs _ _ later (
              if-cases (BestIs (Found all_cs seed chosen s)) (can_append c.issue s)
                (consider n seed counts c next) next
                (λ admitted.
                  consider-BestIs (Found all_cs seed chosen s) seed counts c next h (λ t typed.
                    record {
                      chosen_of =
                          type_for-Chosen all_cs seed counts c t (sub c (Memᴰ.head refl)) typed;
                      admitted = admitted;
                      new = fresh;
                    }))
                (λ _. h))))

  -- What the outer loop adds to the batch.
  pub record Filled (room : ℕ) (cs : List (Candidate F)) (seed chosen : List (Selected F))
      (s : RunState) (items : List (Selected F)) (t : RunState) : Type 0 where
    pub added : List (Selected F)
    pub items_are : items ≡ chosen ++ added
    pub runs : Runs s (batch_issues added) t
    pub fits : length added ≤ room
    pub fresh : Fresh chosen added
    pub all_chosen : All (Chosen cs seed) added

  Filled-cons :
      (room : ℕ) (cs : List (Candidate F)) (seed chosen : List (Selected F)) (s : RunState)
      → (items : List (Selected F)) → (t : RunState) → (x : Selected F) → Found cs seed chosen s x
      → Filled room cs seed (chosen ++ (x ∷ [])) (advance_run_state x.candidate.issue s) items t
      → Filled (suc room) cs seed chosen s items t
  Filled-cons room cs seed chosen s items t x found f = record {
    added = x ∷ f.added;
    items_are = f.items_are ∙ append_assoc chosen (x ∷ []) f.added;
    runs = (found.admitted, f.runs);
    fits = omega (arith, f.fits);
    fresh = (found.new, f.fresh);
    all_chosen = (found.chosen_of, f.all_chosen);
  }

  fill-Filled :
      (room : ℕ) (all_cs : List (Candidate F)) (seed : List (Selected F)) (cs : List (Candidate F))
      → (most : ℕ) → (chosen : List (Selected F)) → (counts : Counts) → (s : RunState)
      → (b : Budget) → ((c : Candidate F) → Memᴰ c cs → Memᴰ c all_cs)
      → let r = fill n room seed cs most chosen counts s b in
        Filled room all_cs seed chosen s r.0 r.1
  unfolding fill
  fill-Filled zero all_cs seed cs most chosen counts s b sub = record {
    added = [];
    items_are = sym (append-nil chosen);
    runs = refl;
    fits = omega arith;
    fresh = tt;
    all_chosen = tt;
  }
  fill-Filled (suc room) all_cs seed cs most chosen counts s b sub =
      elim (Option-cases (inspect n seed chosen counts s most cs none b).0) [
        | inl e ↦
            rw (e, fill)
              (record {
                added = [];
                items_are = sym (append-nil chosen);
                runs = refl;
                fits = omega arith;
                fresh = tt;
                all_chosen = tt;
              })
        | inr (p, e) ↦
            rw (e, fill)
              (Filled-cons room all_cs seed chosen s _ _ p.0
                (subst (BestIs (Found all_cs seed chosen s)) e
                  (inspect-Found all_cs seed chosen counts s most cs none b sub tt))
                (fill-Filled room all_cs seed cs most (chosen ++ (p.0 ∷ []))
                  (increment_quota p.0.selected_type counts)
                  (advance_run_state p.0.candidate.issue s)
                  (inspect n seed chosen counts s most cs none b).1 sub))
      ]

  -- Ten items at most, no id twice, each a candidate under a type of its own, or of the seed, in an
  -- order that the run rule admits.
  pub record FeedOrder (cs : List (Candidate F)) (seed : List (Selected F)) (s : RunState)
      (items : List (Selected F)) (t : RunState) : Type 0 where
    pub runs : Runs s (batch_issues items) t
    pub fits : length items ≤ batch_size
    pub fresh : Fresh [] items
    pub all_chosen : All (Chosen cs seed) items

  Filled-FeedOrder :
      (cs : List (Candidate F)) (seed : List (Selected F)) (s : RunState)
      (items : List (Selected F))
      → (t : RunState) → Filled batch_size cs seed [] s items t
      → FeedOrder cs seed s items t
  Filled-FeedOrder cs seed s items t f =
      let order : FeedOrder cs seed s f.added t = record {
        runs = f.runs;
        fits = f.fits;
        fresh = f.fresh;
        all_chosen = f.all_chosen;
      } in
      subst (λ xs. FeedOrder cs seed s xs t) (sym f.items_are) order

  -- The batch that `greedyOrder` returns has ten items at most, no id twice, and each is one of the
  -- candidates, under the type that the seed gives it or else one of its own; the run rule admits
  -- the issues in their order from the given state, and the state returned is the one they lead to.
  pub greedy_order-FeedOrder :
      (cs : List (Candidate F)) (seed : List (Selected F)) (s : RunState) (b : Budget) (most : ℕ)
      → let r = greedy_order n cs seed s b most in FeedOrder cs seed s r.0 r.1
  unfolding greedy_order
  greedy_order-FeedOrder cs seed s b most = Filled-FeedOrder cs seed s _ _ (
      fill-Filled batch_size cs seed (sort (ranks_before n) cs) most [] (λ _. 0) s b
        (λ c m. sort-Memᴰ (ranks_before n) c cs m))
