-- ===== src/Recommendation/Version2/Limited.antt =====
-- What `recommendFeedV2` promises where it says CONSTRAINT_LIMITED.
use newtine_backend.Prelude.{
  ◌≤◌, ◌<◌, not, ◌&&◌, none, List, [], ◌∷◌, length, take, ◌≡◌, refl, ap, ◌∙◌, string_eq, Memᴰ,
  Memᴰ-cons, All-of_Memᴰ, All-Memᴰ, Distinct, if-cases, sort, length-sort, Memᴰ-sort, arith,
}
use newtine_backend.Recommendation.Types.{
  Numbers, Issue, Candidate, RunState, Continuation, batch_size,
}
use newtine_backend.Recommendation.Score.{ranks_before}
use newtine_backend.Recommendation.Targets.{select_by_target}
use newtine_backend.Recommendation.Better.Laws.{IsStrict}
use newtine_backend.Recommendation.Continuation.Laws.{
  issues_of, Feasible, resolve_v2_continuation-longest,
}
use newtine_backend.Recommendation.Version2.{
  Input, Greedy, Search, budget_of, scored_pool, greedy_best, full_pool_proof, search_v2,
  recommend_feed_v2,
}
use newtine_backend.Recommendation.Version2.Laws.{issue_ids, search_v2-IsBatch}
use newtine_backend.Recommendation.Version2.Promise.{take-all, output_items-length}

module _ {F : Type 0} where
  issues_of-Memᴰ :
      (cs ds : List (Candidate F))
      → ((c : Candidate F) → Memᴰ c cs → Memᴰ c ds)
      → (i : Issue F) → Memᴰ i (issues_of cs)
      → Memᴰ i (issues_of ds)
  issues_of-Memᴰ [] ds sub i m = elim m [ ]
  issues_of-Memᴰ (c ∷ cs) ds sub i m =
      Memᴰ-cons (λ e. lists c ds i e (sub c (Memᴰ.head refl)))
        (λ n. issues_of-Memᴰ cs ds (λ d k. sub d (Memᴰ.tail k)) i n) m
    where
      lists :
          (c : Candidate F) (ds : List (Candidate F)) (i : Issue F)
          → i ≡ c.issue
          → Memᴰ c ds
          → Memᴰ i (issues_of ds)
      lists c [] i e m = elim m [ ]
      lists c (d ∷ ds) i e m =
          Memᴰ-cons (λ q. Memᴰ.head (e ∙ ap (λ k. k.issue) q)) (λ n. Memᴰ.tail (lists c ds i e n)) m

  -- The order of the candidates does not matter to what could be shown.
  Feasible-sorted :
      (n : Numbers F) (cs : List (Candidate F)) (s : RunState) (xs : List (Issue F))
      → Feasible cs s xs
      → Feasible (sort (ranks_before n) cs) s xs
  Feasible-sorted n cs s xs f = record {
    end = f.end;
    runs = f.runs;
    among = All-of_Memᴰ _ xs (λ i m.
        issues_of-Memᴰ cs (sort (ranks_before n) cs) (λ c k. Memᴰ-sort (ranks_before n) c cs k) i
          (All-Memᴰ _ xs f.among m));
    enough = omega (arith, f.enough, length-sort (ranks_before n) cs);
    fits = f.fits;
  }

module _ {F : Type 0} (n : Numbers F) (input : Input F) where
  full_pool_proof-many :
      (g : Greedy n)
      → batch_size < length (scored_pool n input)
      → (full_pool_proof n input (scored_pool n input) g).0 ≡ none
  unfolding full_pool_proof
  full_pool_proof-many g many = ground (arith, many)

  -- The search keeps the candidates, and proves no length where there are more than ten.
  search_v2-many :
      (xs : List (Issue F))
      → batch_size < length (scored_pool n input)
      → Feasible (scored_pool n input) input.previous_session xs
      → ((search_v2 n input).max_length ≡ none)
        × Feasible (search_v2 n input).scored input.previous_session xs
  unfolding search_v2
  search_v2-many xs many f =
      let pool = scored_pool n input in
      let g = greedy_best n input (select_by_target n pool) pool in
      let unproven = full_pool_proof-many g many in
      if-cases
        (λ (r : Search n). (r.max_length ≡ none) × Feasible r.scored input.previous_session xs)
        (g.both_short && not (full_pool_proof n input pool g).1.cut) _ _
        (λ _. (rw unproven refl, Feasible-sorted n pool input.previous_session xs f))
        (λ _. (rw unproven refl, f))

  -- Where `recommendFeedV2` says CONSTRAINT_LIMITED and more than ten issues have a score, no batch is
  -- longer than the one that it shows: no order of at most ten of the scored issues that the run rule
  -- admits from the state of the session.
  pub recommend_feed_v2-limited :
      (xs : List (Issue F))
      → IsStrict n
      → Distinct (issue_ids n input.issues)
      → batch_size < length (scored_pool n input)
      → (recommend_feed_v2 n input).continuation ≡ Continuation.constraint_limited
      → Feasible (scored_pool n input) input.previous_session xs
      → length xs ≤ length (recommend_feed_v2 n input).items
  unfolding recommend_feed_v2
  recommend_feed_v2-limited xs strict no_repeat many limited f =
      let found = search_v2 n input in
      let batch = search_v2-IsBatch n input strict no_repeat in
      let (unproven, f') = search_v2-many xs many f in
      let shown =
        output_items-length 0 (take batch_size found.best.items)
        ∙ ap length (take-all batch_size found.best.items batch.fits) in
      let longest =
        resolve_v2_continuation-longest (length input.issues) (budget_of input) found.scored
          found.best.items input.previous_session found.budget.cut xs (rw unproven at limited) f' in
      omega (arith, shown, longest)
