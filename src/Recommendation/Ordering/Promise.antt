-- ===== src/Recommendation/Ordering/Promise.antt =====
-- What `orderWithoutViolatingRuns` promises of its order.
use newtine_backend.Prelude.{
  ℕ, ◌≤◌, String, List, [], take, length, length-take-le, take-Memᴰ, All, All-Memᴰ, All-of_Memᴰ,
  Memᴰ, Distinct, Distinct-of_count, count-Distinct, count-take, string_eq, arith,
}
use newtine_backend.Recommendation.Types.{Numbers, batch_size, Candidate, Selected, RunState}
use newtine_backend.Recommendation.Runs.Laws.{Runs}
use newtine_backend.Recommendation.Batch.{ids_of, batch_issues, Offered, IsBatch}
use newtine_backend.Recommendation.Search.{full_mask, start_state}
use newtine_backend.Recommendation.Search.Promise.{Good-IsBatch}
use newtine_backend.Recommendation.Search.Picks.{
  bit_count-full_mask, StandsAt, Picked-of_Distinct, full_mask-StandsAt,
}
use newtine_backend.Recommendation.Ordering.{search_order, order_without_violating_runs}
use newtine_backend.Recommendation.Ordering.Laws.{search_order-Searches, Best}

module _ {F : Type 0} (n : Numbers F) where
  best_order :
      (cs : List (Selected F)) (previous : RunState)
      → Best n cs
          (full_mask cs)
          (start_state n previous)
          (search_order n cs (length cs) (full_mask cs) (start_state n previous) []).best
  best_order cs previous =
      (search_order-Searches n cs (length cs) (full_mask cs) (start_state n previous) []
        (omega (arith, bit_count-full_mask cs)) tt).best

  take-Distinct :
      (k : ℕ) (xs : List (Selected F)) → Distinct (ids_of xs) → Distinct (ids_of (take k xs))
  take-Distinct k xs distinct =
      let id : Selected F → String = λ x. x.candidate.issue.id in
      Distinct-of_count id (take k xs)
        (λ a. omega (arith, count-take id a k xs, count-Distinct id a xs distinct))

  -- From candidates of the pool, none twice, it makes a batch of the first ten.
  pub order_without_violating_runs-IsBatch :
      (pool : List (Candidate F)) (selected : List (Selected F)) (previous : RunState)
      → Distinct (ids_of selected)
      → All (Offered pool) selected
      → IsBatch pool previous (order_without_violating_runs n selected previous)
  unfolding order_without_violating_runs
  order_without_violating_runs-IsBatch pool selected previous distinct offered =
      let cs = take batch_size selected in
      Good-IsBatch n pool cs previous _ (take-Distinct batch_size selected distinct)
        (length-take-le batch_size selected).0
        (All-of_Memᴰ (Offered pool) cs
          (λ x m. All-Memᴰ (Offered pool) selected offered (take-Memᴰ batch_size selected m)))
        (best_order cs previous).good

  -- No order of the first ten candidates that the run rule admits, none of them twice, is longer than
  -- the one that `orderWithoutViolatingRuns` returns.
  pub order_without_violating_runs-longest :
      (selected xs : List (Selected F)) (previous t : RunState)
      → Distinct (ids_of xs)
      → ((x : Selected F) → Memᴰ x xs → Memᴰ x (take batch_size selected))
      → Runs previous (batch_issues xs) t
      → length xs ≤ length (order_without_violating_runs n selected previous).items
  unfolding order_without_violating_runs
  order_without_violating_runs-longest selected xs previous t distinct sub runs =
      let cs = take batch_size selected in
      (best_order cs previous).longest xs t
        (Picked-of_Distinct n cs (full_mask cs) xs distinct (
          All-of_Memᴰ (StandsAt n cs (full_mask cs)) xs
            (λ x m. full_mask-StandsAt n cs x (sub x m))))
        runs
