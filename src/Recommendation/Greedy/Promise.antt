-- ===== src/Recommendation/Greedy/Promise.antt =====
-- The order of `greedyOrder` is a batch, where the candidates and the seed are of one pool.
use text.Mathlib.TextEquality.{eq_iff}
use newtine_backend.Prelude.{
  ℕ, ◌+◌, ◌≤◌, count, is_key, count-Distinct, count-absent, Distinct-of_count, String, false, none,
  some, List, [], ◌∷◌, ◌++◌, ◌≡◌, refl, sym, subst, ◌==◌, any-Memᴰ, includes, All, All-Memᴰ,
  All-of_Memᴰ, Distinct, Memᴰ, Memᴰ-append_left, Memᴰ-append_right, string_eq, Option-cases,
  Bool-cases, inl, inr, ==_iff, arith, ◌∙◌,
}
use newtine_backend.Recommendation.Types.{Numbers, Candidate, Selected, RunState, Budget}
use newtine_backend.Recommendation.Batch.{ids_of, candidate_ids, same_id-eq, Offered, IsBatch}
use newtine_backend.Recommendation.Greedy.{seed_by_id, is_chosen, greedy_order, id_of, order_of}
use newtine_backend.Recommendation.Greedy.Laws.{Fresh, Chosen, greedy_order-FeedOrder}

module _ {F : Type 0} (n : Numbers F) where
  Fresh-includes :
      (x : Selected F) (seen xs : List (Selected F))
      → Memᴰ x seen
      → Fresh n seen xs
      → includes (ids_of xs) x.candidate.issue.id ≡ false
  Fresh-includes x seen [] m h = refl
  Fresh-includes x seen (y ∷ xs) m h =
      let other = any-Memᴰ (λ z. id_of n z == y.candidate.issue.id) x seen m h.0 in
      let rest = Fresh-includes x (seen ++ (y ∷ [])) xs (Memᴰ-append_left (y ∷ []) m) h.1 in
      ground (
        arith,
        eq_iff x.candidate.issue.id y.candidate.issue.id,
        eq_iff y.candidate.issue.id x.candidate.issue.id,
        rest,
        other,
      )

  Fresh-Distinct : (seen xs : List (Selected F)) → Fresh n seen xs → Distinct (ids_of xs)
  Fresh-Distinct seen [] h = tt
  Fresh-Distinct seen (x ∷ xs) h = (
    Fresh-includes x (seen ++ (x ∷ [])) xs (Memᴰ-append_right seen (Memᴰ.head refl)) h.1,
    Fresh-Distinct (seen ++ (x ∷ [])) xs h.1,
  )

  is_chosen-includes :
      (items : List (Selected F)) (c : Candidate F)
      → is_chosen n items c ≡ false
      → includes (ids_of items) c.issue.id ≡ false
  is_chosen-includes [] c h = refl
  is_chosen-includes (x ∷ xs) c h = ground (arith, is_chosen-includes xs c)

  -- A list that has one new item at most beside those of a list repeats nothing.
  pub added-Distinct :
      (items ys : List (Selected F)) (x : Selected F)
      → ((a : String)
          → count (λ z. z.candidate.issue.id) a ys
            ≤ is_key (λ z. z.candidate.issue.id) a x + count (λ z. z.candidate.issue.id) a items)
      → Distinct (ids_of items)
      → is_chosen n items x.candidate ≡ false
      → Distinct (ids_of ys)
  added-Distinct items ys x few distinct fresh =
      let id : Selected F → String = λ z. z.candidate.issue.id in
      Distinct-of_count id ys (λ a.
        let le = few a in
        let once = count-Distinct id a items distinct in
        let absent = count-absent id (id x) items (is_chosen-includes items x.candidate fresh) in
        elim (Bool-cases (id x == a)) [
          | inl e ↦
              let none_yet : count id a items ≡ 0 =
                subst (λ i. count id i items ≡ 0) ((eq_iff (id x) a).0 e) absent in
              ground (arith, le, none_yet)
          | inr e ↦ ground (arith, le, once, e)
        ])

  seed_by_id-Memᴰ :
      (seed : List (Selected F)) (id : String) {y : Selected F}
      → seed_by_id n seed id ≡ some y
      → Memᴰ y seed × (y.candidate.issue.id ≡ id)
  seed_by_id-Memᴰ [] id h = absurd (cc)
  seed_by_id-Memᴰ (x ∷ xs) id {y} h = elim (Option-cases (seed_by_id n xs id)) [
    | inr (z, e) ↦
        let same : some z ≡ some y = rw e at h in
        let (m, at) = seed_by_id-Memᴰ xs id {y = y} (e ∙ same) in (Memᴰ.tail m, at)
    | inl e ↦ elim (Bool-cases (x.candidate.issue.id == id)) [
      | inl hit ↦
          let same : x ≡ y = let q : some x ≡ some y = rw hit at (rw e at h) in ground arith in
          (
            Memᴰ.head (sym same),
            subst (λ z. z.candidate.issue.id ≡ id) same ((==_iff x.candidate.issue.id id).0 hit),
          )
      | inr miss ↦ let q : none ≡ some y = rw miss at (rw e at h) in absurd (cc)
    ]
  ]

  pub Chosen-Offered :
      (pool cs : List (Candidate F)) (seed : List (Selected F)) (x : Selected F)
      → Distinct (candidate_ids pool)
      → ((c : Candidate F) → Memᴰ c cs → Memᴰ c pool)
      → All (Offered pool) seed
      → Chosen n cs seed x
      → Offered pool x
  Chosen-Offered pool cs seed x distinct sub offered chosen =
      let listed = sub x.candidate chosen.listed in
      record {
        listed = listed;
        eligible = elim (Option-cases (seed_by_id n seed x.candidate.issue.id)) [
          | inl e ↦ chosen.eligible e
          | inr (y, e) ↦
              let (m, at) = seed_by_id-Memᴰ seed x.candidate.issue.id {y = y} e in
              let y_offered = All-Memᴰ (Offered pool) seed offered m in
              let same =
                same_id-eq pool y.candidate x.candidate distinct y_offered.listed listed at in
              subst (λ c. Memᴰ x.selected_type c.eligible_types) same
                (subst (λ t. Memᴰ t y.candidate.eligible_types) (sym (chosen.seeded y e))
                  y_offered.eligible)
        ];
      }

  -- From candidates of a pool without repeated ids, and a seed that the pool offers, `greedyOrder`
  -- makes a batch of the pool.
  pub greedy_order-IsBatch :
      (pool cs : List (Candidate F)) (seed : List (Selected F)) (s : RunState) (b : Budget)
      → (most : ℕ) → Distinct (candidate_ids pool)
      → ((c : Candidate F) → Memᴰ c cs → Memᴰ c pool)
      → All (Offered pool) seed
      → IsBatch pool s (order_of n (greedy_order n cs seed s b most))
  greedy_order-IsBatch pool cs seed s b most distinct sub offered =
      let order = greedy_order-FeedOrder n cs seed s b most in
      record {
        runs = order.runs;
        fits = order.fits;
        distinct = Fresh-Distinct [] _ order.fresh;
        offered = All-of_Memᴰ (Offered pool) _ (λ x m.
            Chosen-Offered pool cs seed x distinct sub offered
              (All-Memᴰ (Chosen n cs seed) _ order.all_chosen m));
      }
