-- ===== src/Recommendation/Better/Laws.antt =====
-- The better of two batches is a batch.
use newtine_backend.Prelude.{
  false, List, [], ◌∷◌, ◌≡◌, ◌⊎◌, inl, inr, nat_eq, if-cases, arith, refl, subst, sym,
}
use newtine_backend.Recommendation.Types.{Numbers, Candidate, Selected, RunState, Order}
use newtine_backend.Recommendation.Batch.{IsBatch}
use newtine_backend.Recommendation.Better.{is_better_order, quota_score, join_ids, better}

-- What the choice asks of the platform: `0 !== 0` and `'' < ''` are false.
pub record IsStrict {F : Type 0} (n : Numbers F) : Type 0 where
  pub nought_same : n.differ n.nought n.nought ≡ false
  pub empty_same : n.text_before "" "" ≡ false

module _ {F : Type 0} (n : Numbers F) where
  -- An order without items is never better.
  no_items-not_better :
      (s t : RunState) (xs : List (Selected F))
      → IsStrict n
      → is_better_order n (record { items = []; state = s }) (record { items = xs; state = t })
        ≡ false
  unfolding is_better_order join_ids quota_score
  no_items-not_better s t [] strict = rw (strict.nought_same, strict.empty_same) refl
  no_items-not_better s t (x ∷ xs) strict = ground arith

  pub better-IsBatch :
      (pool : List (Candidate F)) (s : RunState) (candidate current : Order F)
      → IsStrict n
      → (candidate.items ≡ []) ⊎ IsBatch pool s candidate
      → IsBatch pool s current
      → IsBatch pool s (better n candidate current)
  better-IsBatch pool s candidate current strict (inr batch) old =
      if-cases (IsBatch pool s) (is_better_order n candidate current) candidate current (λ _. batch)
        (λ _. old)
  better-IsBatch pool s candidate current strict (inl empty) old =
      if-cases (IsBatch pool s) (is_better_order n candidate current) candidate current
        (λ e.
          let worse =
            subst
              (λ xs.
                is_better_order n (record { items = xs; state = candidate.state }) current ≡ false)
              (sym empty)
              (no_items-not_better candidate.state current.state current.items strict) in
          absurd (cc (e, worse)))
        (λ _. old)
