-- ===== src/Recommendation/Search/Promise.antt =====
-- The order of the bounded search is a batch, where it is given candidates of the pool.
use newtine_backend.Prelude.{
  ◌≤◌, List, [], All, All-Memᴰ, All-of_Memᴰ, length, Distinct, get_elem?-Memᴰ, string_eq, arith,
}
use newtine_backend.Recommendation.Types.{
  Numbers, batch_size, Candidate, Selected, RunState, Budget,
}
use newtine_backend.Recommendation.Batch.{ids_of, Offered, IsBatch}
use newtine_backend.Recommendation.Search.{Found, full_mask, start_state, bounded_order}
use newtine_backend.Recommendation.Search.Laws.{Good, bounded_search_order-OutcomeOk}
use newtine_backend.Recommendation.Search.Picks.{
  bit_count-full_mask, Picked-length, Picked-StandsAt, Picked-Distinct, StandsAt,
}

-- What is found among at most ten candidates of the pool, none twice, is a batch.
pub Good-IsBatch :
    {F : Type 0} (n : Numbers F) (pool : List (Candidate F)) (cs : List (Selected F))
    → (previous : RunState) (r : Found F) → Distinct (ids_of cs)
    → length cs ≤ batch_size
    → All (Offered pool) cs
    → Good n cs (full_mask cs) (start_state n previous) r
    → IsBatch pool previous (record { items = r.items; state = r.state.runs })
Good-IsBatch n pool cs previous r distinct few offered found =
    let stands = Picked-StandsAt n cs (full_mask cs) r.items found.picked in
    record {
      runs = found.runs;
      fits = omega (
        arith,
        Picked-length n cs (full_mask cs) r.items found.picked,
        bit_count-full_mask cs,
        few,
      );
      distinct = Picked-Distinct n cs (full_mask cs) r.items distinct found.picked;
      offered = All-of_Memᴰ (Offered pool) r.items (λ x m.
          let (i, set, at) = All-Memᴰ (StandsAt n cs (full_mask cs)) r.items stands m in
          All-Memᴰ (Offered pool) cs offered (get_elem?-Memᴰ cs i at));
    }

-- From at most ten candidates of the pool, none twice, `boundedOrder` makes a batch: no id twice, each
-- candidate under its type, in an order that the run rule admits up to the state returned, whatever
-- is left of the budget.
pub bounded_order-IsBatch :
    {F : Type 0} (n : Numbers F) (pool : List (Candidate F)) (cs : List (Selected F))
    → (previous : RunState) → (b : Budget) → Distinct (ids_of cs)
    → length cs ≤ batch_size
    → All (Offered pool) cs
    → IsBatch pool previous (bounded_order n cs previous b).0
unfolding bounded_order
bounded_order-IsBatch n pool cs previous b distinct few offered =
    Good-IsBatch n pool cs previous _ distinct few offered
      (bounded_search_order-OutcomeOk n cs (length cs) (full_mask cs) (start_state n previous) [] b
        tt).best
