-- ===== src/Recommendation/Search/Laws.antt =====
-- What the bounded search promises of the order that it finds.
use newtine_backend.Prelude.{
  ℕ, zero, suc, ◌+◌, true, not, ◌||◌, some, List, [], ◌∷◌, ◌≡◌, refl, sym, ap, ◌∙◌, subst,
  get_elem?, All, ltb, leb, if-cases, Bool-cases, Option-cases, inl, inr, arith,
}
use newtine_backend.Recommendation.Types.{Numbers, Selected, Budget}
use newtine_backend.Recommendation.Runs.{can_append}
use newtine_backend.Recommendation.Runs.Laws.{Runs}
use newtine_backend.Recommendation.Batch.{batch_issues}
use newtine_backend.Recommendation.Search.Keys.{same_key-eq}
use newtine_backend.Recommendation.Search.{
  SearchState, Found, Mask, is_zero, has_bit, clear_bit, same_key, Memo, recall, Outcome, nothing,
  spend, better_of, is_better_search_result, attempt, remember, cached_or, bounded_search_order,
  advance_search_state, max_transitions,
}

module _ {F : Type 0} (n : Numbers F) (cs : List (Selected F)) where
  -- The items are candidates at bits of the mask, each at a bit of its own.
  abbrev pub Picked : Mask → List (Selected F) → Type 0
  Picked mask [] = Unit
  Picked mask (x ∷ xs) =
      (i : ℕ) × (has_bit mask i ≡ true) × (get_elem? cs i ≡ some x) × Picked (clear_bit mask i) xs

  -- The run rule admits the items from the state, up to the state of the result.
  pub record Good (mask : Mask) (state : SearchState) (r : Found F) : Type 0 where
    pub runs : Runs state.runs (batch_issues r.items) r.state.runs
    pub picked : Picked mask r.items

  abbrev pub MemoOk : Memo n → Type 0
  MemoOk = All (λ e. Good e.mask e.state e.result)

  pub record OutcomeOk (mask : Mask) (state : SearchState) (r : Outcome n) : Type 0 where
    pub best : Good mask state r.best
    pub memo : MemoOk r.memo

  pub nothing-Good : (mask : Mask) (state : SearchState) → Good mask state (nothing n state)
  nothing-Good mask state = record { runs = refl; picked = tt }

  -- What holds of every entry of a memo holds of what is recalled.
  pub recall-holds :
      (P : Mask → SearchState → Found F → Type 0) (mask : Mask) (state : SearchState)
      → (memo : Memo n) {r : Found F} → All (λ e. P e.mask e.state e.result) memo
      → recall n mask state memo ≡ some r
      → P mask state r
  unfolding recall
  recall-holds P mask state [] good h = absurd (cc)
  recall-holds P mask state (e ∷ memo) {r} good h =
      elim (Bool-cases (same_key e.mask e.state mask state)) [
        | inl hit ↦
            let (masks, states) = same_key-eq e.mask e.state mask state hit in
            let same : e.result ≡ r = ground arith in
            subst (λ q. P mask state q) same
              (subst (λ s. P mask s e.result) states
                (subst (λ m. P m e.state e.result) masks good.0))
        | inr miss ↦ recall-holds P mask state memo good.1 (rw miss at h)
      ]

  -- A call of the search, whatever memo of good results it is given.
  abbrev pub SearchOk : (Mask → SearchState → Memo n → Budget → Outcome n) → Type 0
  SearchOk search =
      (m : Mask) (s : SearchState) (memo : Memo n) (b : Budget)
      → MemoOk memo
      → OutcomeOk m s (search m s memo b)

  pub better_of-Good :
      (mask : Mask) (state : SearchState) (index : ℕ) (x : Selected F) (suffix best : Found F)
      → has_bit mask index ≡ true
      → get_elem? cs index ≡ some x
      → can_append x.candidate.issue state.runs ≡ true
      → Good (clear_bit mask index) (advance_search_state x state) suffix
      → Good mask state best
      → Good mask state (better_of n x suffix best)
  unfolding advance_search_state
  better_of-Good mask state index x suffix best bit at can good old =
      if-cases (Good mask state) (is_better_search_result n _ best) _ _
        (λ _. record { runs = (can, good.runs); picked = (index, bit, at, good.picked) }) (λ _. old)

  attempt-OutcomeOk :
      (search : Mask → SearchState → Memo n → Budget → Outcome n)
      → SearchOk search
      → (mask : Mask) (state : SearchState) (xs : List (Selected F)) (index : ℕ) (best : Found F)
      → (memo : Memo n) → (b : Budget) → ((k : ℕ) → get_elem? xs k ≡ get_elem? cs (index + k))
      → Good mask state best
      → MemoOk memo
      → OutcomeOk mask state (attempt n search mask state xs index best memo b)
  unfolding attempt
  attempt-OutcomeOk search ok mask state [] index best memo b at good memo_ok = record {
    best = good;
    memo = memo_ok;
  }
  attempt-OutcomeOk search ok mask state (x ∷ xs) index best memo b at good memo_ok =
      let IsOk : Outcome n → Type 0 = OutcomeOk mask state in
      let here : get_elem? cs index ≡ some x =
        ap (get_elem? cs) (let e : index ≡ index + 0 = omega arith in e) ∙ sym (at 0) in
      let later : (k : ℕ) → get_elem? xs k ≡ get_elem? cs (index + 1 + k) =
        λ k. at (suc k) ∙ ap (get_elem? cs) (omega arith) in
      if-cases IsOk (not (has_bit mask index)) _ _
        (λ _. attempt-OutcomeOk search ok mask state xs (index + 1) best memo b later good memo_ok)
        (λ set.
          if-cases IsOk (ltb max_transitions (b.transitions + 1)) _ _
            (λ _. record { best = good; memo = memo_ok })
            (λ _.
              if-cases IsOk (not (can_append x.candidate.issue state.runs)) _ _
                (λ _.
                  attempt-OutcomeOk search ok mask state xs (index + 1) best memo (spend n b) later
                    good memo_ok)
                (λ can.
                  let r : Outcome n =
                    search (clear_bit mask index) (advance_search_state x state) memo (spend n b) in
                  let best' : Found F = better_of n x r.best best in
                  let suffix =
                    ok (clear_bit mask index) (advance_search_state x state) memo (spend n b)
                      memo_ok in
                  let better =
                    better_of-Good mask state index x r.best best (ground arith) here (ground arith)
                      suffix.best good in
                  if-cases IsOk r.budget.cut
                    (record { best = best'; memo = r.memo; budget = r.budget })
                    (attempt n search mask state xs (index + 1) best' r.memo r.budget)
                    (λ _. record { best = better; memo = suffix.memo })
                    (λ _.
                      attempt-OutcomeOk search ok mask state xs (index + 1) best' r.memo r.budget
                        later better suffix.memo))))

  remember-OutcomeOk :
      (mask : Mask) (state : SearchState) (r : Outcome n)
      → OutcomeOk mask state r
      → OutcomeOk mask state (remember n mask state r)
  remember-OutcomeOk mask state r ok =
      if-cases (OutcomeOk mask state) r.budget.cut _ _ (λ _. ok)
        (λ _. record { best = ok.best; memo = (ok.best, ok.memo) })

  cached_or-OutcomeOk :
      (mask : Mask) (state : SearchState) (memo : Memo n) (b : Budget) (fresh : Outcome n)
      → MemoOk memo
      → OutcomeOk mask state fresh
      → OutcomeOk mask state (cached_or n (recall n mask state memo) memo b fresh)
  cached_or-OutcomeOk mask state memo b fresh ok tried =
      elim (Option-cases (recall n mask state memo)) [
        | inl e ↦ rw e tried
        | inr (r, e) ↦ rw e (record { best = recall-holds Good mask state memo ok e; memo = ok })
      ]

  pub bounded_search_order-OutcomeOk : (room : ℕ) → SearchOk (bounded_search_order n cs room)
  unfolding bounded_search_order
  bounded_search_order-OutcomeOk zero mask state memo b ok = record {
    best = nothing-Good mask state;
    memo = ok;
  }
  bounded_search_order-OutcomeOk (suc room) mask state memo b ok =
      let room_ok = bounded_search_order-OutcomeOk room in
      let tried =
        attempt-OutcomeOk (bounded_search_order n cs room) room_ok mask state cs 0 (nothing n state)
          memo b (λ k. ap (get_elem? cs) (omega arith)) (nothing-Good mask state) ok in
      if-cases (OutcomeOk mask state) (is_zero mask || leb max_transitions b.transitions) _ _
        (λ _. record { best = nothing-Good mask state; memo = ok })
        (λ _. cached_or-OutcomeOk mask state memo b _ ok (remember-OutcomeOk mask state _ tried))
