-- ===== src/Recommendation/Ordering/Laws.antt =====
-- `orderWithoutViolatingRuns` finds a longest order that the run rule admits.
use newtine_backend.Prelude.{
  some-injective, ==_iff, ◌-◌, ℕ, zero, suc, ◌+◌, ◌≤◌, ◌<◌, true, not, none, some, List, [], ◌∷◌,
  ◌≡◌, sym, ap, ◌∙◌, subst, get_elem?, length, All, ltb, ◌==◌, nat_eq, if-cases, Bool-cases,
  Option-cases, inl, inr, arith,
}
use newtine_backend.Recommendation.Types.{Numbers, Selected, RunState}
use newtine_backend.Recommendation.Runs.{can_append, advance_run_state}
use newtine_backend.Recommendation.Runs.Laws.{Runs}
use newtine_backend.Recommendation.Batch.{batch_issues}
use newtine_backend.Recommendation.Search.{
  SearchState, Found, Mask, is_zero, has_bit, clear_bit, Memo, recall, nothing, better_of,
  is_better_search_result, advance_search_state,
}
use newtine_backend.Recommendation.Search.Laws.{
  Picked, Good, nothing-Good, better_of-Good, recall-holds,
}
use newtine_backend.Recommendation.Search.Picks.{
  bit_count, bit_count-clear_bit, bit_count-is_zero, has_bit-is_zero,
}
use newtine_backend.Recommendation.Ordering.{Explored, explore, learn, known_or, search_order}

module _ {F : Type 0} (n : Numbers F) (cs : List (Selected F)) where
  -- No admitted order of candidates at the mask's bits has more items.
  abbrev pub IsLongest : Mask → SearchState → Found F → Type 0
  IsLongest mask state r =
      (xs : List (Selected F)) (t : RunState)
      → Picked n cs mask xs
      → Runs state.runs (batch_issues xs) t
      → length xs ≤ length r.items

  pub record Best (mask : Mask) (state : SearchState) (r : Found F) : Type 0 where
    pub good : Good n cs mask state r
    pub longest : IsLongest mask state r

  abbrev pub AllBest : Memo n → Type 0
  AllBest = All (λ e. Best e.mask e.state e.result)

  pub record ExploredOk (mask : Mask) (state : SearchState) (r : Explored n) : Type 0 where
    pub best : Best mask state r.best
    pub memo : AllBest r.memo

  -- The longest among the orders that begin at an index below the given one.
  abbrev LongestBelow : ℕ → Mask → SearchState → Found F → Type 0
  LongestBelow index mask state r =
      (i : ℕ) (x : Selected F) (xs : List (Selected F)) (t : RunState)
      → i < index
      → has_bit mask i ≡ true
      → get_elem? cs i ≡ some x
      → Picked n cs (clear_bit mask i) xs
      → Runs state.runs (batch_issues (x ∷ xs)) t
      → suc (length xs) ≤ length r.items

  better_of-length :
      (x : Selected F) (suffix best : Found F)
      → (suc (length suffix.items) ≤ length (better_of n x suffix best).items)
        × (length best.items ≤ length (better_of n x suffix best).items)
  unfolding is_better_search_result
  better_of-length x suffix best = ground arith

  -- One more index is dealt with.
  LongestBelow-suc :
      (index : ℕ) (mask : Mask) (state : SearchState) (r : Found F)
      → LongestBelow index mask state r
      → ((x : Selected F) (xs : List (Selected F)) (t : RunState)
          → has_bit mask index ≡ true
          → get_elem? cs index ≡ some x
          → Picked n cs (clear_bit mask index) xs
          → Runs state.runs (batch_issues (x ∷ xs)) t
          → suc (length xs) ≤ length r.items)
      → LongestBelow (index + 1) mask state r
  LongestBelow-suc index mask state r below here i x xs t less bit at picked runs =
      elim (Bool-cases (i == index)) [
        | inl e ↦
            let same = (==_iff i index).0 e in
            here x xs t (subst (λ j. has_bit mask j ≡ true) same bit)
              (subst (λ j. get_elem? cs j ≡ some x) same at)
              (subst (λ j. Picked n cs (clear_bit mask j) xs) same picked) runs
        | inr e ↦ below i x xs t (ground (arith, less, e)) bit at picked runs
      ]

  LongestBelow-le :
      (index : ℕ) (mask : Mask) (state : SearchState) (r q : Found F)
      → length r.items ≤ length q.items
      → LongestBelow index mask state r
      → LongestBelow index mask state q
  LongestBelow-le index mask state r q le below i x xs t less bit at picked runs =
      omega (arith, le, below i x xs t less bit at picked runs)

  -- Where no index is left, every order has been dealt with.
  LongestBelow-end :
      (index : ℕ) (mask : Mask) (state : SearchState) (r : Found F)
      → ((k : ℕ) → get_elem? [] k ≡ get_elem? cs (index + k))
      → LongestBelow index mask state r
      → IsLongest mask state r
  LongestBelow-end index mask state r at below [] t picked runs = omega arith
  LongestBelow-end index mask state r at below (x ∷ xs) t (i, bit, here, picked) runs =
      elim (Bool-cases (ltb i index)) [
        | inl e ↦ below i x xs t (ground (arith, e)) bit here picked runs
        | inr e ↦
            let past : i ≡ index + (i - index) = ground (arith, e) in
            let missing = at (i - index) in
            let stands : get_elem? cs (index + (i - index)) ≡ some x =
              subst (λ j. get_elem? cs j ≡ some x) past here in
            absurd (none-some (missing ∙ stands))
      ]
    where
      none-some : {y : Selected F} → none ≡ some y → ⊥
      none-some e = absurd (cc)

  -- A search that finds the best of what is left, where there is room enough.
  abbrev pub Searches : ℕ → (Mask → SearchState → Memo n → Explored n) → Type 0
  Searches room search =
      (m : Mask) (s : SearchState) (memo : Memo n)
      → bit_count m ≤ room
      → AllBest memo
      → ExploredOk m s (search m s memo)

  refused_first :
      (x y : Selected F) (s : SearchState) (t : RunState) (ys : List (Selected F))
      → not (can_append x.candidate.issue s.runs) ≡ true
      → some x ≡ some y
      → Runs s.runs (batch_issues (y ∷ ys)) t
      → ⊥
  refused_first x y s t ys refused same runs =
      let first = some-injective x y same in
      let can = subst (λ z. can_append z.candidate.issue s.runs ≡ true) (sym first) runs.0 in
      absurd (ground arith)

  after_first :
      (x y : Selected F) (s : SearchState) (t : RunState) (ys : List (Selected F))
      → some x ≡ some y
      → Runs s.runs (batch_issues (y ∷ ys)) t
      → Runs (advance_search_state x s).runs (batch_issues ys) t
  unfolding advance_search_state
  after_first x y s t ys same runs =
      let first = some-injective x y same in
      subst (λ z. Runs (advance_run_state z.candidate.issue s.runs) (batch_issues ys) t) (sym first)
        runs.1

  explore-Ok :
      (room : ℕ) (search : Mask → SearchState → Memo n → Explored n)
      → Searches room search
      → (mask : Mask) (state : SearchState) (xs : List (Selected F)) (index : ℕ) (best : Found F)
      → (memo : Memo n) → bit_count mask ≤ suc room
      → ((k : ℕ) → get_elem? xs k ≡ get_elem? cs (index + k))
      → Good n cs mask state best
      → LongestBelow index mask state best
      → AllBest memo
      → ExploredOk mask state (explore n search mask state xs index best memo)
  unfolding explore
  explore-Ok room search ok mask state [] index best memo few at good below memo_ok = record {
    best = record { good = good; longest = LongestBelow-end index mask state best at below };
    memo = memo_ok;
  }
  explore-Ok room search ok mask state (x ∷ xs) index best memo few at good below memo_ok =
      let IsOk : Explored n → Type 0 = ExploredOk mask state in
      let here : get_elem? cs index ≡ some x =
        ap (get_elem? cs) (let e : index ≡ index + 0 = omega arith in e) ∙ sym (at 0) in
      let later : (k : ℕ) → get_elem? xs k ≡ get_elem? cs (index + 1 + k) =
        λ k. at (suc k) ∙ ap (get_elem? cs) (omega arith) in
      if-cases IsOk (not (has_bit mask index)) _ _
        (λ unset.
          explore-Ok room search ok mask state xs (index + 1) best memo few later good
            (LongestBelow-suc index mask state best below
              (λ y ys t bit stands picked runs. absurd (ground (arith, unset, bit))))
            memo_ok)
        (λ set.
          if-cases IsOk (not (can_append x.candidate.issue state.runs)) _ _
            (λ refused.
              explore-Ok room search ok mask state xs (index + 1) best memo few later good
                (LongestBelow-suc index mask state best below (λ y ys t bit stands picked runs.
                  absurd (refused_first x y state t ys refused (sym here ∙ stands) runs)))
                memo_ok)
            (λ can.
              let bit : has_bit mask index ≡ true = ground arith in
              let r : Explored n =
                search (clear_bit mask index) (advance_search_state x state) memo in
              let left = bit_count-clear_bit mask index bit in
              let suffix =
                ok (clear_bit mask index) (advance_search_state x state) memo
                  (omega (arith, left, few)) memo_ok in
              let longer = better_of-length x r.best best in
              let best' : Found F = better_of n x r.best best in
              explore-Ok room search ok mask state xs (index + 1) best' r.memo few later
                (better_of-Good n cs mask state index x r.best best bit here (ground arith)
                  suffix.best.good good)
                (LongestBelow-suc index mask state best'
                  (LongestBelow-le index mask state best best' longer.1 below)
                  (λ y ys t set_bit stands picked runs. omega (
                    arith,
                    longer.0,
                    suffix.best.longest ys t picked
                        (after_first x y state t ys (sym here ∙ stands) runs),
                  )))
                suffix.memo))

  nothing-Best :
      (mask : Mask) (state : SearchState) → is_zero mask ≡ true → Best mask state (nothing n state)
  nothing-Best mask state empty = record {
    good = nothing-Good n cs mask state;
    longest = none_longer;
  }
    where
      none_longer : IsLongest mask state (nothing n state)
      none_longer [] t picked runs = omega arith
      none_longer (x ∷ xs) t picked runs =
          let set = has_bit-is_zero mask picked.0 picked.1 in absurd (cc (set, empty))

  learn-Ok :
      (mask : Mask) (state : SearchState) (r : Explored n)
      → ExploredOk mask state r
      → ExploredOk mask state (learn n mask state r)
  learn-Ok mask state r ok = record { best = ok.best; memo = (ok.best, ok.memo) }

  known_or-Ok :
      (mask : Mask) (state : SearchState) (memo : Memo n) (fresh : Explored n)
      → AllBest memo
      → ExploredOk mask state fresh
      → ExploredOk mask state (known_or n (recall n mask state memo) memo fresh)
  known_or-Ok mask state memo fresh ok explored = elim (Option-cases (recall n mask state memo)) [
    | inl e ↦ rw e explored
    | inr (r, e) ↦ rw e (record { best = recall-holds n cs Best mask state memo ok e; memo = ok })
  ]

  -- `searchOrder` finds a longest order of the candidates at the bits of its mask.
  pub search_order-Searches : (room : ℕ) → Searches room (search_order n cs room)
  unfolding search_order
  search_order-Searches zero mask state memo few ok = record {
    best = nothing-Best mask state (bit_count-is_zero mask (omega (arith, few)));
    memo = ok;
  }
  search_order-Searches (suc room) mask state memo few ok =
      if-cases (ExploredOk mask state) (is_zero mask) _ _
        (λ empty. record { best = nothing-Best mask state empty; memo = ok })
        (λ _. known_or-Ok mask state memo _ ok (
          learn-Ok mask state _ (
            explore-Ok room (search_order n cs room) (search_order-Searches room) mask state cs 0
              (nothing n state) memo few (λ k. ap (get_elem? cs) (omega arith))
              (nothing-Good n cs mask state)
              (λ i x xs t less bit at picked runs. absurd (omega (arith, less))) ok)))
