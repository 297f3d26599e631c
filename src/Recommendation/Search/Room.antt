-- ===== src/Recommendation/Search/Room.antt =====
-- The bounded search needs no more room than its mask has bits.
use newtine_backend.Prelude.{
  ℕ, zero, suc, ◌+◌, ◌≤◌, not, ◌||◌, List, [], ◌∷◌, ◌≡◌, refl, ap, ◌∙◌, ltb, leb, if◌then◌else◌,
  if-agree, arith,
}
use newtine_backend.Recommendation.Types.{Numbers, Selected, Budget}
use newtine_backend.Recommendation.Runs.{can_append}
use newtine_backend.Recommendation.Search.{
  SearchState, Found, Mask, is_zero, has_bit, clear_bit, Memo, recall, Outcome, nothing, spend,
  better_of, attempt, remember, cached_or, bounded_search_order, advance_search_state,
  max_transitions,
}
use newtine_backend.Recommendation.Search.Picks.{bit_count, bit_count-clear_bit, bit_count-is_zero}

module _ {F : Type 0} (n : Numbers F) where
  abbrev Call : Type 0
  Call = Mask → SearchState → Memo n → Budget → Outcome n

  -- Two searches agree on masks that have room in both.
  abbrev Agree : ℕ → ℕ → Call → Call → Type 0
  Agree room other f g =
      (m : Mask) (s : SearchState) (memo : Memo n) (b : Budget)
      → bit_count m ≤ room
      → bit_count m ≤ other
      → f m s memo b ≡ g m s memo b

  attempt-Agree :
      (room other : ℕ) (f g : Call)
      → Agree room other f g
      → (mask : Mask) (state : SearchState) (xs : List (Selected F)) (index : ℕ) (best : Found F)
      → (memo : Memo n) (b : Budget) → bit_count mask ≤ suc room
      → bit_count mask ≤ suc other
      → attempt n f mask state xs index best memo b ≡ attempt n g mask state xs index best memo b
  unfolding attempt
  attempt-Agree room other f g agree mask state [] index best memo b few fits = refl
  attempt-Agree room other f g agree mask state (x ∷ xs) index best memo b few fits =
      if-agree (not (has_bit mask index))
        (λ _. attempt-Agree room other f g agree mask state xs (index + 1) best memo b few fits)
        (λ set.
          if-agree (ltb max_transitions (b.transitions + 1)) (λ _. refl)
            (λ _.
              if-agree (not (can_append x.candidate.issue state.runs))
                (λ _.
                  attempt-Agree room other f g agree mask state xs (index + 1) best memo (spend n b)
                    few fits)
                (λ _.
                  let left = bit_count-clear_bit mask index (ground (arith, set)) in
                  let same =
                    agree (clear_bit mask index) (advance_search_state x state) memo (spend n b)
                      (omega (arith, left, few)) (omega (arith, left, fits)) in
                  let after : Call → Outcome n → Outcome n = λ h r.
                    if r.budget.cut
                    then record {
                      best = better_of n x r.best best;
                      memo = r.memo;
                      budget = r.budget;
                    }
                    else attempt n h mask state xs (index + 1) (better_of n x r.best best) r.memo
                        r.budget in
                  let r : Outcome n =
                    f (clear_bit mask index) (advance_search_state x state) memo (spend n b) in
                  let loops : after f r ≡ after g r =
                    if-agree r.budget.cut (λ _. refl)
                      (λ _.
                        attempt-Agree room other f g agree mask state xs (index + 1)
                          (better_of n x r.best best) r.memo r.budget few fits) in
                  loops ∙ ap (after g) same)))

  -- However much room there is for the bits of its mask, a call of `boundedSearchOrder` gives the
  -- same: the room that the model passes is never what ends it.
  pub bounded_search_order-room :
      (cs : List (Selected F)) (room other : ℕ) (mask : Mask) (state : SearchState)
      → (memo : Memo n) (b : Budget) → bit_count mask ≤ room
      → bit_count mask ≤ other
      → bounded_search_order n cs room mask state memo b
        ≡ bounded_search_order n cs other mask state memo b
  unfolding bounded_search_order
  bounded_search_order-room cs zero zero mask state memo b few fits = refl
  bounded_search_order-room cs zero (suc other) mask state memo b few fits =
      rw (bit_count-is_zero mask (omega (arith, few))) refl
  bounded_search_order-room cs (suc room) zero mask state memo b few fits =
      rw (bit_count-is_zero mask (omega (arith, fits))) refl
  bounded_search_order-room cs (suc room) (suc other) mask state memo b few fits =
      if-agree (is_zero mask || leb max_transitions b.transitions) (λ _. refl)
        (λ _.
          ap (λ r. cached_or n (recall n mask state memo) memo b (remember n mask state r))
            (attempt-Agree room other (bounded_search_order n cs room)
              (bounded_search_order n cs other)
              (λ m s memo' b' le le'. bounded_search_order-room cs room other m s memo' b' le le')
              mask state cs 0 (nothing n state) memo b few fits))
