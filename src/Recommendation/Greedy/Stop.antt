-- ===== src/Recommendation/Greedy/Stop.antt =====
-- The transitions that `greedyOrder` may use, and when it may stop early.
use newtine_backend.Prelude.{
  ℕ, zero, suc, ◌+◌, ◌≤◌, ◌<◌, true, false, ◌&&◌, ◌||◌, none, some, List, [], ◌∷◌, ◌++◌, ltb,
  head?-sort, sort, Memᴰ-sort, length-append, length, ◌≡◌, ◌≢◌, sym, subst, Memᴰ, Memᴰ-cons, arith,
  Bool-cases, Option-cases, if-cases, inl, inr,
}
use newtine_backend.Recommendation.Types.{
  Numbers, Selection, batch_size, Candidate, Selected, RunState, Budget,
}
use newtine_backend.Recommendation.Runs.{can_append}
use newtine_backend.Recommendation.Score.{ranks_before}
use newtine_backend.Recommendation.Greedy.{
  Counts, Best, type_before, select_greedy_type, type_for, priority_of, keep_better, consider,
  is_chosen, seed_by_id, inspect, fill, greedy_order, Priority, precedes, is_same,
}

module _ {F : Type 0} (n : Numbers F) where
  inspect-transitions :
      (seed chosen : List (Selected F)) (counts : Counts) (s : RunState) (most : ℕ)
      → (cs : List (Candidate F)) → (next : Best n) → (b : Budget) → b.transitions ≤ most
      → (inspect n seed chosen counts s most cs next b).1.transitions ≤ most
  unfolding inspect
  inspect-transitions seed chosen counts s most [] next b h = h
  inspect-transitions seed chosen counts s most (c ∷ cs) next b h =
      let within : Best n × Budget → Type 0 = λ r. r.1.transitions ≤ most in
      if-cases within (is_chosen n chosen c) _ _
        (λ _. inspect-transitions seed chosen counts s most cs next b h)
        (λ _.
          if-cases within (ltb most (b.transitions + 1)) _ _ (λ _. h)
            (λ e. inspect-transitions seed chosen counts s most cs _ _ (ground arith)))

  fill-transitions :
      (room : ℕ) (seed : List (Selected F)) (cs : List (Candidate F)) (most : ℕ)
      → (chosen : List (Selected F)) → (counts : Counts) → (s : RunState) → (b : Budget)
      → b.transitions ≤ most
      → (fill n room seed cs most chosen counts s b).2.transitions ≤ most
  unfolding fill
  fill-transitions zero seed cs most chosen counts s b h = h
  fill-transitions (suc room) seed cs most chosen counts s b h =
      let here = inspect-transitions seed chosen counts s most cs none b h in
      elim (Option-cases (inspect n seed chosen counts s most cs none b).0) [
        | inl e ↦ rw (e, fill) here
        | inr (p, e) ↦
            rw (e, fill) (fill-transitions room seed cs most (chosen ++ (p.0 ∷ [])) _ _ _ here)
      ]

  -- `greedyOrder` counts no transition beyond the number that it is given.
  pub greedy_order-transitions :
      (cs : List (Candidate F)) (seed : List (Selected F)) (s : RunState) (b : Budget) (most : ℕ)
      → b.transitions ≤ most
      → (greedy_order n cs seed s b most).2.transitions ≤ most
  unfolding greedy_order
  greedy_order-transitions cs seed s b most h =
      fill-transitions batch_size seed (sort (ranks_before n) cs) most [] (λ _. 0) s b h

  keep_better-ne-none :
      (next : Best n) (c : Candidate F) (t : Selection) (q : Priority)
      → keep_better n next c t q ≢ none
  unfolding keep_better
  keep_better-ne-none none c t q h = absurd (cc)
  keep_better-ne-none (some (x, best)) c t q h =
      let is_some : Best n → Type 0 = λ r. r ≢ none in
      if-cases is_some (precedes q best || (is_same q best && ranks_before n c x.candidate)) _ _
        (λ _ e. cc) (λ _ e. cc) h

  consider-none :
      (seed : List (Selected F)) (counts : Counts) (c : Candidate F) (next : Best n)
      → consider n seed counts c next ≡ none
      → (next ≡ none) × (type_for n seed counts c ≡ none)
  unfolding consider
  consider-none seed counts c next h = elim (Option-cases (type_for n seed counts c)) [
    | inl e ↦ (rw (e, consider) at h, e)
    | inr (t, e) ↦
        absurd
          (keep_better-ne-none next c t (priority_of n seed counts c t) (rw (e, consider) at h))
  ]

  type_for-none :
      (seed : List (Selected F)) (counts : Counts) (c : Candidate F)
      → type_for n seed counts c ≡ none
      → c.eligible_types ≡ []
  unfolding type_for select_greedy_type
  type_for-none seed counts c h = elim (Option-cases (seed_by_id n seed c.issue.id)) [
    | inl e ↦ head?-sort (type_before counts) c.eligible_types (rw (e, type_for) at h)
    | inr (x, e) ↦
        let impossible : some x.selected_type ≡ none = rw (e, type_for) at h in absurd (cc)
  ]

  -- No candidate that is left could be appended.
  abbrev pub Stuck : List (Candidate F) → List (Selected F) → RunState → Type 0
  Stuck cs chosen s =
      (c : Candidate F)
      → Memᴰ c cs
      → is_chosen n chosen c ≡ false
      → can_append c.issue s ≡ true
      → c.eligible_types ≡ []

  Stuck-cons :
      (c : Candidate F) (cs : List (Candidate F)) (chosen : List (Selected F)) (s : RunState)
      → (is_chosen n chosen c ≡ false → can_append c.issue s ≡ true → c.eligible_types ≡ [])
      → Stuck cs chosen s
      → Stuck (c ∷ cs) chosen s
  Stuck-cons c cs chosen s here later d m =
      Memᴰ-cons
        (λ e.
          subst
            (λ x.
              is_chosen n chosen x ≡ false → can_append x.issue s ≡ true → x.eligible_types ≡ [])
            (sym e) here)
        (λ k. later d k) m

  inspect-none :
      (seed chosen : List (Selected F)) (counts : Counts) (s : RunState) (most : ℕ)
      → (cs : List (Candidate F)) → (next : Best n) → (b : Budget)
      → (inspect n seed chosen counts s most cs next b).0 ≡ none
      → (inspect n seed chosen counts s most cs next b).1.cut ≡ false
      → (next ≡ none) × Stuck cs chosen s
  unfolding inspect
  inspect-none seed chosen counts s most [] next b e h = (e, λ c m. elim m [ ])
  inspect-none seed chosen counts s most (c ∷ cs) next b e h =
      elim (Bool-cases (is_chosen n chosen c)) [
        | inl old ↦
            let (none_yet, stuck) =
              inspect-none seed chosen counts s most cs next b (rw (old, inspect) at e)
                (rw (old, inspect) at h) in
            (none_yet, Stuck-cons c cs chosen s (λ known _. absurd (cc)) stuck)
        | inr fresh ↦ elim (Bool-cases (ltb most (b.transitions + 1))) [
          | inl over ↦ let cut : true ≡ false = rw over at (rw (fresh, inspect) at h) in absurd (cc)
          | inr room ↦
              let (none_yet, stuck) =
                inspect-none seed chosen counts s most cs _ _
                  (rw room at (rw (fresh, inspect) at e)) (rw room at (rw (fresh, inspect) at h)) in
              elim (Bool-cases (can_append c.issue s)) [
                | inl can ↦
                    let (was_none, untyped) =
                      consider-none seed counts c next (rw can at none_yet) in
                    (
                      was_none,
                      Stuck-cons c cs chosen s (λ _ _. type_for-none seed counts c untyped) stuck,
                    )
                | inr cannot ↦
                    (rw cannot at none_yet, Stuck-cons c cs chosen s (λ _ can. absurd (cc)) stuck)
              ]
        ]
      ]

  fill-Stuck :
      (room : ℕ) (seed : List (Selected F)) (cs : List (Candidate F)) (most : ℕ)
      → (chosen : List (Selected F)) → (counts : Counts) → (s : RunState) → (b : Budget)
      → let r = fill n room seed cs most chosen counts s b in
        r.2.cut ≡ false → length r.0 < length chosen + room → Stuck cs r.0 r.1
  unfolding fill
  fill-Stuck zero seed cs most chosen counts s b = λ h short. absurd (omega (arith, short))
  fill-Stuck (suc room) seed cs most chosen counts s b =
      elim (Option-cases (inspect n seed chosen counts s most cs none b).0) [
        | inl e ↦ rw (e, fill) (λ h short. (inspect-none seed chosen counts s most cs none b e h).1)
        | inr (p, e) ↦
            rw (e, fill)
              (λ h short.
                fill-Stuck room seed cs most (chosen ++ (p.0 ∷ [])) _ _ _ h
                  (omega (arith, short, length-append chosen (p.0 ∷ []))))
      ]

  -- Where `greedyOrder` returns fewer than ten items and did not cut the search, no candidate that
  -- has a type to be shown under and whose id is not among the items could be appended to them.
  pub greedy_order-Stuck :
      (cs : List (Candidate F)) (seed : List (Selected F)) (s : RunState) (b : Budget) (most : ℕ)
      → (greedy_order n cs seed s b most).2.cut ≡ false
      → length (greedy_order n cs seed s b most).0 < batch_size
      → (c : Candidate F) → Memᴰ c cs
      → is_chosen n (greedy_order n cs seed s b most).0 c ≡ false
      → c.eligible_types ≢ []
      → can_append c.issue (greedy_order n cs seed s b most).1 ≡ false
  unfolding greedy_order
  greedy_order-Stuck cs seed s b most h short c m fresh typed =
      let stuck =
        fill-Stuck batch_size seed (sort (ranks_before n) cs) most [] (λ _. 0) s b h short in
      elim (Bool-cases (can_append c.issue (greedy_order n cs seed s b most).1)) [
        | inl can ↦ absurd (typed (stuck c (Memᴰ-sort (ranks_before n) c cs m) fresh can))
        | inr cannot ↦ cannot
      ]
