-- ===== src/Recommendation/Swaps/Laws.antt =====
-- Appending and swapping keeps a selection of the pool, and its best order a batch.
use newtine_backend.Prelude.{
  ℕ, zero, suc, String, Bool, true, false, not, ◌&&◌, ◌||◌, Option, none, some, List, [], ◌∷◌, ◌++◌,
  ◌≡◌, ◌≢◌, refl, sym, subst, any-eq-true, keep-Memᴰ, take, length, get_elem?, set_at, All-set_at,
  count-append, count-set_at, sort-Memᴰ, head?-sort, ltb, leb, nat_eq, All, All-Memᴰ, All-of_Memᴰ,
  Memᴰ, Memᴰ-cons, Memᴰ-append, Distinct, string_eq, if◌then◌else◌, if-cases, Option-cases, inl,
  inr, arith,
}
use newtine_backend.Recommendation.Types.{
  Numbers, batch_size, Selection, selection_index, same_selection, Candidate, Selected, RunState,
}
use newtine_backend.Recommendation.Score.{ranks_before}
use newtine_backend.Recommendation.Batch.{ids_of, Offered, IsBatch}
use newtine_backend.Recommendation.Greedy.{is_chosen}
use newtine_backend.Recommendation.Greedy.Promise.{added-Distinct}
use newtine_backend.Recommendation.Targets.{preferred_type}
use newtine_backend.Recommendation.Targets.Slots.{same_selection-eq}
use newtine_backend.Recommendation.Targets.Laws.{preferred_type-Memᴰ}
use newtine_backend.Recommendation.Better.{is_better_order}
use newtine_backend.Recommendation.Ordering.{order_without_violating_runs}
use newtine_backend.Recommendation.Ordering.Promise.{order_without_violating_runs-IsBatch}
use newtine_backend.Recommendation.Swaps.{
  has_type, replacement_candidates, can_improve_run_or_quota, has_alternative_quota_opportunity,
  Progress, accept, or_major, append_alternative, type_in_place, replace_at, try_indexes,
  swap_alternative, try_round, alternatives_for, rounds, max_replacements, max_alternative_rounds,
  order_with_alternatives,
}

has_type-Memᴰ : (types : List Selection) (t : Selection) → has_type types t ≡ true → Memᴰ t types
has_type-Memᴰ types t h =
    let (u, m, e) = any-eq-true (λ u. same_selection u t) types h in
    subst (λ s. Memᴰ s types) (same_selection-eq u t e) m

preferred_type-none : (types : List Selection) → preferred_type types ≡ none → types ≡ []
unfolding preferred_type
preferred_type-none types h =
    head?-sort (λ l r. ltb (selection_index l) (selection_index r)) types h

or_major-Memᴰ :
    (F : Type 0) (n : Numbers F) (types : List Selection)
    → types ≢ []
    → Memᴰ (or_major n (preferred_type types)) types
or_major-Memᴰ F n types some_type = elim (Option-cases (preferred_type types)) [
  | inl e ↦ absurd (some_type (preferred_type-none types e))
  | inr (t, e) ↦ rw e (preferred_type-Memᴰ types e)
]

module _ {F : Type 0} (n : Numbers F) (pool : List (Candidate F)) (previous : RunState) where
  -- The selection is of the pool, without repetition, and the best order is a batch of it.
  pub record ProgressOk (p : Progress n) : Type 0 where
    pub distinct : Distinct (ids_of p.selection)
    pub offered : All (Offered pool) p.selection
    pub batch : IsBatch pool previous p.best

  -- Every candidate of the pool has a type.
  abbrev pub IsTyped : Type 0
  IsTyped = (c : Candidate F) → Memᴰ c pool → c.eligible_types ≢ []

  -- A proposal of the pool is ordered, and accepted or not.
  accept-Ok :
      (proposal : List (Selected F)) (p q : Progress n)
      → Distinct (ids_of proposal)
      → All (Offered pool) proposal
      → ProgressOk p
      → ProgressOk q
      → let ordered = order_without_violating_runs n proposal previous in
        ProgressOk (if is_better_order n ordered p.best then accept n proposal ordered p else q)
  accept-Ok proposal p q distinct offered ok next =
      if-cases ProgressOk (is_better_order n _ p.best) _ q
        (λ _. record {
          distinct = distinct;
          offered = offered;
          batch = order_without_violating_runs-IsBatch n pool proposal previous distinct offered;
        })
        (λ _. next)

  append_alternative-Ok :
      (c : Candidate F) (p : Progress n)
      → IsTyped
      → Memᴰ c pool
      → is_chosen n p.selection c ≡ false
      → ProgressOk p
      → ProgressOk (append_alternative n c previous p)
  unfolding append_alternative
  append_alternative-Ok c p typed listed fresh ok =
      let id : Selected F → String = λ x. x.candidate.issue.id in
      let x : Selected F = record {
        candidate = c;
        selected_type = or_major n (preferred_type c.eligible_types);
      } in
      let x_offered : Offered pool x = record {
        listed = listed;
        eligible = or_major-Memᴰ F n c.eligible_types (typed c listed);
      } in
      accept-Ok (p.selection ++ (x ∷ [])) p p
        (added-Distinct n p.selection (p.selection ++ (x ∷ [])) x
          (λ a. omega (arith, count-append id a p.selection (x ∷ []))) ok.distinct fresh)
        (All-of_Memᴰ (Offered pool) (p.selection ++ (x ∷ [])) (λ y m.
          elim (Memᴰ-append p.selection m) [
            | inl k ↦ All-Memᴰ (Offered pool) p.selection ok.offered k
            | inr k ↦ Memᴰ-cons (λ e. subst (Offered pool) (sym e) x_offered) (λ l. elim l [ ]) k
          ]))
        ok ok

  replace_at-Ok :
      (c : Candidate F) (p : Progress n) (index : ℕ) (t : Option Selection) (next : Progress n)
      → Memᴰ c pool
      → is_chosen n p.selection c ≡ false
      → ProgressOk p
      → ProgressOk next
      → ProgressOk (replace_at n c previous p index t next)
  replace_at-Ok c p index none next listed fresh ok later = later
  replace_at-Ok c p index (some t) next listed fresh ok later =
      let id : Selected F → String = λ x. x.candidate.issue.id in
      let x : Selected F = record { candidate = c; selected_type = t } in
      if-cases ProgressOk (not (has_type c.eligible_types t)) next _ (λ _. later)
        (λ has.
          accept-Ok (set_at p.selection index x) p next
            (added-Distinct n p.selection (set_at p.selection index x) x
              (λ a. count-set_at id a p.selection index x) ok.distinct fresh)
            (All-set_at (Offered pool) p.selection index x
              (record {
                listed = listed;
                eligible = has_type-Memᴰ c.eligible_types t (ground (arith, has));
              })
              ok.offered)
            ok later)

  try_indexes-Ok :
      (c : Candidate F) (indexes : List ℕ) (p : Progress n)
      → Memᴰ c pool
      → ProgressOk p
      → ProgressOk (try_indexes n c previous indexes p)
  unfolding try_indexes
  try_indexes-Ok c [] p listed ok = ok
  try_indexes-Ok c (index ∷ rest) p listed ok =
      let later = try_indexes-Ok c rest p listed ok in
      if-cases ProgressOk (is_chosen n p.selection c) p _ (λ _. ok)
        (λ fresh. elim (Option-cases (get_elem? p.selection index)) [
          | inl e ↦ rw e later
          | inr (removed, e) ↦
              rw e (replace_at-Ok c p index (type_in_place n c removed) _ listed fresh ok later)
        ])

  try_round-Ok :
      (appends : Bool) (cs : List (Candidate F)) (p : Progress n)
      → IsTyped
      → ((c : Candidate F) → Memᴰ c cs → Memᴰ c pool)
      → ProgressOk p
      → ProgressOk (try_round n appends cs previous p)
  unfolding try_round swap_alternative
  try_round-Ok appends [] p typed sub ok = ok
  try_round-Ok appends (c ∷ cs) p typed sub ok =
      let listed = sub c (Memᴰ.head refl) in
      try_round-Ok appends cs _ typed (λ d m. sub d (Memᴰ.tail m))
        (if-cases ProgressOk (is_chosen n p.selection c) p _ (λ _. ok)
          (λ fresh.
            if-cases ProgressOk appends (append_alternative n c previous p)
              (swap_alternative n c previous p)
              (λ _. append_alternative-Ok c p typed listed fresh ok)
              (λ _.
                try_indexes-Ok c
                  (take max_replacements (replacement_candidates c p.selection previous)) _ listed
                  (record { distinct = ok.distinct; offered = ok.offered; batch = ok.batch }))))

  alternatives_for-Memᴰ :
      (cs : List (Candidate F)) (p : Progress n) (c : Candidate F)
      → Memᴰ c (alternatives_for n cs p)
      → Memᴰ c cs
  unfolding alternatives_for
  alternatives_for-Memᴰ cs p c m =
      (keep-Memᴰ (λ d. not (is_chosen n p.selection d)) cs c
        (keep-Memᴰ
          (λ d.
            not (ltb (length p.best.items) (length p.selection))
            || can_improve_run_or_quota d p.selection)
          _ c (sort-Memᴰ (ranks_before n) c _ m)).0).0

  rounds-Ok :
      (left : ℕ) (p : Progress n)
      → IsTyped
      → ProgressOk p
      → ProgressOk (rounds n left pool previous p)
  unfolding rounds
  rounds-Ok zero p typed ok = ok
  rounds-Ok (suc left) p typed ok =
      let q : Progress n =
        try_round n (ltb (length p.selection) batch_size) (alternatives_for n pool p) previous
          (record p { improved = false }) in
      let q_ok =
        try_round-Ok (ltb (length p.selection) batch_size) (alternatives_for n pool p)
          (record p { improved = false }) typed (alternatives_for-Memᴰ pool p)
          (record { distinct = ok.distinct; offered = ok.offered; batch = ok.batch }) in
      if-cases ProgressOk (not q.improved || leb batch_size (length q.best.items)) q _ (λ _. q_ok)
        (λ _.
          rounds-Ok left _ typed
            (record { distinct = q_ok.distinct; offered = q_ok.offered; batch = q_ok.batch }))

  -- From a selection of the pool without repetition, `orderWithAlternatives` ends with a batch.
  pub order_with_alternatives-IsBatch :
      (selected : List (Selected F))
      → IsTyped
      → Distinct (ids_of selected)
      → All (Offered pool) selected
      → IsBatch pool previous (order_with_alternatives n selected pool previous).best
  unfolding order_with_alternatives
  order_with_alternatives-IsBatch selected typed distinct offered =
      let best = order_without_violating_runs-IsBatch n pool selected previous distinct offered in
      let start : Progress n = record {
        selection = selected;
        best = order_without_violating_runs n selected previous;
        search_limited = false;
        improved = false;
      } in
      let start_ok : ProgressOk start = record {
        distinct = distinct;
        offered = offered;
        batch = best;
      } in
      (if-cases ProgressOk
        (leb batch_size (length start.best.items)
          && not (has_alternative_quota_opportunity n selected pool))
        start (rounds n max_alternative_rounds pool previous start) (λ _. start_ok)
        (λ _. rounds-Ok max_alternative_rounds start typed start_ok)).batch
