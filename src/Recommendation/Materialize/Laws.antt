-- ===== src/Recommendation/Materialize/Laws.antt =====
-- What an order of the pool becomes once it is filled with candidates.
use mathlib.Core.List.{append-nil, append_assoc}
use newtine_backend.Prelude.{
  ◌≤◌, String, true, List, [], ◌∷◌, ◌++◌, ◌≡◌, refl, sym, subst, ◌∙◌, ◌⊎◌, length, count-Distinct,
  Distinct-of_count, All, Memᴰ, Distinct, string_eq, Bool-cases, Option-cases, inl, inr, arith,
}
use newtine_backend.Recommendation.Types.{Numbers, batch_size, Candidate, Selected, RunState, Order}
use newtine_backend.Recommendation.Runs.{Signature, can_append, advance_run_state}
use newtine_backend.Recommendation.Runs.Laws.{Runs}
use newtine_backend.Recommendation.Batch.{candidate_ids, batch_issues, Offered, IsBatch}
use newtine_backend.Recommendation.Greedy.{Counts, type_for, increment_quota}
use newtine_backend.Recommendation.Greedy.Laws.{type_for-Chosen}
use newtine_backend.Recommendation.Greedy.Promise.{Chosen-Offered}
use newtine_backend.Recommendation.Materialize.{
  Group, members_onto, shift_from, sort_members, fill_order, materialize_proven_order,
}
use newtine_backend.Recommendation.Materialize.Groups.{
  item_times, group_times, group_size, Grouped, Shifted, shift_from-Shifted, members_onto-times,
  members_onto-size, members_onto-Grouped, sort_members-times, sort_members-size,
  sort_members-Grouped,
}

module _ {F : Type 0} (n : Numbers F) where
  -- What the loop adds to the items, out of the groups.
  pub record Placed (pool : List (Candidate F)) (gs : List (Group F)) (s t : RunState)
      (added : List (Selected F)) : Type 0 where
    pub runs : Runs s (batch_issues added) t
    pub fits : length added ≤ group_size gs
    pub once : (a : String) → item_times a added ≤ group_times a gs
    pub offered : All (Offered pool) added

  Placed-cons :
      (pool : List (Candidate F)) (gs left : List (Group F)) (s t : RunState) (x : Selected F)
      → (added : List (Selected F)) → Shifted x.candidate gs left
      → can_append x.candidate.issue s ≡ true
      → Offered pool x
      → Placed pool left (advance_run_state x.candidate.issue s) t added
      → Placed pool gs s t (x ∷ added)
  Placed-cons pool gs left s t x added out can offered p = record {
    runs = (can, p.runs);
    fits = omega (arith, p.fits, out.size);
    once = λ a. omega (arith, p.once a, out.times_of a);
    offered = (offered, p.offered);
  }

  -- The loop gives up, or adds to the items.
  abbrev pub FillsOrGivesUp :
      List (Candidate F) → List (Group F) → List (Selected F) → RunState → Order F → Type 0
  FillsOrGivesUp pool gs items s o =
      (o.items ≡ [])
      ⊎ ((added : List (Selected F)) × (o.items ≡ items ++ added) × Placed pool gs s o.state added)

  Fills-cons :
      (pool : List (Candidate F)) (gs left : List (Group F)) (items : List (Selected F))
      → (s : RunState) (x : Selected F) (o : Order F) → Shifted x.candidate gs left
      → can_append x.candidate.issue s ≡ true
      → Offered pool x
      → FillsOrGivesUp pool left (items ++ (x ∷ [])) (advance_run_state x.candidate.issue s) o
      → FillsOrGivesUp pool gs items s o
  Fills-cons pool gs left items s x o out can offered (inl e) = inl e
  Fills-cons pool gs left items s x o out can offered (inr (added, e, p)) = inr (
    x ∷ added,
    e ∙ append_assoc items (x ∷ []) added,
    Placed-cons pool gs left s o.state x added out can offered p,
  )

  fill_order-Fills :
      (pool : List (Candidate F)) (seed : List (Selected F)) (gs : List (Group F))
      → (order : List Signature) (items : List (Selected F)) (counts : Counts) (s : RunState)
      → Distinct (candidate_ids pool)
      → All (Offered pool) seed
      → ((c : Candidate F) → Grouped c gs → Memᴰ c pool)
      → FillsOrGivesUp pool gs items s (fill_order n seed gs order items counts s)
  unfolding fill_order
  fill_order-Fills pool seed gs [] items counts s distinct seeded sub = inr (
    [],
    sym (append-nil items),
    record { runs = refl; fits = omega arith; once = λ a. omega arith; offered = tt },
  )
  fill_order-Fills pool seed gs (g ∷ rest) items counts s distinct seeded sub =
      elim (Option-cases (shift_from g gs)) [
        | inl e ↦ rw (e, fill_order) (inl refl)
        | inr (p, e) ↦ elim (Bool-cases (can_append p.0.issue s)) [
          | inr cannot ↦ rw (e, fill_order, cannot) (inl refl)
          | inl can ↦ elim (Option-cases (type_for n seed counts p.0)) [
            | inl q ↦ rw (e, fill_order, can, q) (inl refl)
            | inr (t, q) ↦
                let out = shift_from-Shifted g gs p.0 p.1 e in
                let listed = sub p.0 out.from in
                let chosen = type_for-Chosen n pool seed counts p.0 t listed q in
                rw (e, fill_order, can, q)
                  (Fills-cons pool gs p.1 items s (record { candidate = p.0; selected_type = t }) _
                    out can (Chosen-Offered n pool pool seed _ distinct (λ c m. m) seeded chosen)
                    (fill_order-Fills pool seed p.1 rest _ (increment_quota t counts)
                      (advance_run_state p.0.issue s) distinct seeded
                      (λ c k. sub c (out.rest c k))))
          ]
        ]
      ]

  -- From at most ten candidates without repeated ids, `materializeProvenOrder` makes a batch, or it
  -- gives up with no items.
  pub materialize_proven_order-IsBatch :
      (cs : List (Candidate F)) (seed : List (Selected F)) (order : List Signature) (s : RunState)
      → Distinct (candidate_ids cs)
      → length cs ≤ batch_size
      → All (Offered cs) seed
      → let o = materialize_proven_order n cs seed order s in (o.items ≡ []) ⊎ IsBatch cs s o
  unfolding materialize_proven_order
  materialize_proven_order-IsBatch cs seed order s distinct few seeded =
      let gs = members_onto [] cs in
      let filled : Order F = fill_order n seed (sort_members n gs) order [] (λ _. 0) s in
      let size = members_onto-size [] cs in
      let sub : (c : Candidate F) → Grouped c (sort_members n gs) → Memᴰ c cs = λ c k.
        elim (members_onto-Grouped c [] cs (sort_members-Grouped n c gs k)) [
          | inl none_yet ↦ absurd none_yet
          | inr m ↦ m
        ] in
      elim (fill_order-Fills cs seed (sort_members n gs) order [] (λ _. 0) s distinct seeded sub) [
        | inl e ↦ inl e
        | inr (added, e, p) ↦
            let batch : IsBatch cs s (record { items = added; state = filled.state }) = record {
              runs = p.runs;
              fits = omega (arith, p.fits, size, sort_members-size n gs, few);
              distinct =
                  Distinct-of_count (λ x. x.candidate.issue.id) added
                    (λ a. omega (
                      arith,
                      p.once a,
                      sort_members-times n a gs,
                      members_onto-times a [] cs,
                      count-Distinct (λ c. c.issue.id) a cs distinct,
                    ));
              offered = p.offered;
            } in
            inr (
              subst (λ xs. IsBatch cs s (record { items = xs; state = filled.state })) (sym e)
                batch)
      ]
