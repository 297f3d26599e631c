-- ===== src/Recommendation/Version2/Promise.antt =====
-- What `recommendFeedV2` promises of its output.
use newtine_backend.Prelude.{
  ℕ, zero, suc, ◌+◌, ◌≤◌, ◌↔◌, String, true, false, List, [], ◌∷◌, ◌++◌, ◌≡◌, refl, sym, ap, ◌∙◌,
  subst, take, length, keys, length-keys, includes, includes-Memᴰ, Memᴰ-of_includes,
  includes-all_of_Distinct, Memᴰ, Distinct, string_eq, nat_eq, Option, arith, ==_iff,
}
use newtine_backend.Recommendation.Types.{
  Numbers, batch_size, Issue, Candidate, Selected, RunState, Order, Continuation,
}
use newtine_backend.Recommendation.Runs.Laws.{
  Runs, Runs-append, topics_of, entities_of, topics-RunsOf, entities-RunsOf, has_three,
  RunsOf-has_three,
}
use newtine_backend.Recommendation.Batch.{
  batch_issues, ids_of, candidate_ids, candidate_ids-Memᴰ, Offered, IsBatch,
}
use newtine_backend.Recommendation.Search.Picks.{ids_of-Memᴰ}
use newtine_backend.Recommendation.Better.Laws.{IsStrict}
use newtine_backend.Recommendation.Continuation.{resolve_v2_continuation}
use newtine_backend.Recommendation.Version2.{
  Input, Item, Output, budget_of, output_items, scored_pool, search_v2, recommend_feed_v2,
}
use newtine_backend.Recommendation.Version2.Laws.{issue_ids, search_v2-IsBatch, search_v2-scored}

abbrev pub shown_ids : List Item → List String
shown_ids items = keys (λ i. i.issue_id) items

module _ {F : Type 0} where
  pub take-all : (k : ℕ) (xs : List (Selected F)) → length xs ≤ k → take k xs ≡ xs
  take-all zero [] h = refl
  take-all zero (x ∷ xs) h = absurd (omega (arith, h))
  take-all (suc k) [] h = refl
  take-all (suc k) (x ∷ xs) h = ap (λ l. x ∷ l) (take-all k xs (omega (arith, h)))

  pub output_items-length :
      (k : ℕ) (xs : List (Selected F)) → length (output_items k xs) ≡ length xs
  output_items-length k [] = refl
  output_items-length k (x ∷ xs) = ap suc (output_items-length (k + 1) xs)

  output_items-ids : (k : ℕ) (xs : List (Selected F)) → shown_ids (output_items k xs) ≡ ids_of xs
  output_items-ids k [] = refl
  output_items-ids k (x ∷ xs) = ap (λ l. x.candidate.issue.id ∷ l) (output_items-ids (k + 1) xs)

module _ {F : Type 0} (n : Numbers F) where
  -- The output shows a batch of the scored issues, with the positions 1, 2 and so on, and the state
  -- is the one after it.
  pub record IsFeed (input : Input F) (out : Output) : Type 0 where
    pub order : Order F
    pub batch : IsBatch (scored_pool n input) input.previous_session order
    pub items_are : out.items ≡ output_items 0 order.items
    pub state_is : out.state ≡ order.state

  -- Where no issue of the input comes twice, `recommendFeedV2` shows ten issues at most, none twice,
  -- each with a score and a selection type that it is eligible for, numbered from 1, in an order
  -- that the run rule admits from the state of the session; the state that it returns is the one
  -- after them.
  pub recommend_feed_v2-IsFeed :
      (input : Input F)
      → IsStrict n
      → Distinct (issue_ids n input.issues)
      → IsFeed input (recommend_feed_v2 n input)
  unfolding recommend_feed_v2
  recommend_feed_v2-IsFeed input strict no_repeat =
      let batch = search_v2-IsBatch n input strict no_repeat in
      record {
        order = (search_v2 n input).best;
        batch = batch;
        items_are = ap (output_items 0) (take-all batch_size _ batch.fits);
        state_is = refl;
      }

  -- A reader's feed over several batches: where the run rule admitted the issues shown so far, up to
  -- the state of the session, the batch of `recommendFeedV2` leaves no topic and no entity three
  -- times in a row, and the session goes on from a state that the whole feed leads to.
  pub recommend_feed_v2-no_three :
      (input : Input F) (start : RunState) (past : List (Issue F))
      → IsStrict n
      → Distinct (issue_ids n input.issues)
      → Runs start past input.previous_session
      → (new : List (Issue F)) × (keys (λ i. i.id) new
          ≡ shown_ids (recommend_feed_v2 n input).items)
        × Runs start (past ++ new) (recommend_feed_v2 n input).state
        × (has_three (topics_of (past ++ new)) ≡ false)
        × (has_three (entities_of (past ++ new)) ≡ false)
  recommend_feed_v2-no_three input start past strict no_repeat h =
      let feed = recommend_feed_v2-IsFeed input strict no_repeat in
      let new = batch_issues feed.order.items in
      let all_runs = Runs-append start _ _ past new h feed.batch.runs in
      (
        new,
        ids-batch_issues feed.order.items
            ∙ sym (output_items-ids 0 feed.order.items)
            ∙ ap shown_ids (sym feed.items_are),
        subst (λ s. Runs start (past ++ new) s) (sym feed.state_is) all_runs,
        RunsOf-has_three start.last_topic start.topic_run _ (topics-RunsOf start _ _ all_runs),
        RunsOf-has_three start.last_representative_entity_id start.entity_run _
            (entities-RunsOf start _ _ all_runs),
      )
    where
      ids-batch_issues : (xs : List (Selected F)) → keys (λ i. i.id) (batch_issues xs) ≡ ids_of xs
      ids-batch_issues [] = refl
      ids-batch_issues (x ∷ xs) = ap (λ l. x.candidate.issue.id ∷ l) (ids-batch_issues xs)

  resolve-go_on :
      (inputs budget : ℕ) (scored : List (Candidate F)) (ordered : List (Selected F)) (s : RunState)
      → (cut : _) (most : Option ℕ)
      → (resolve_v2_continuation inputs budget scored ordered s cut most ≡ Continuation.go_on)
        ↔ (batch_size ≤ length ordered)
  unfolding resolve_v2_continuation
  resolve-go_on inputs budget scored ordered s cut most = ground arith

  -- `recommendFeedV2` says CONTINUE exactly where it shows ten issues.
  pub recommend_feed_v2-go_on :
      (input : Input F)
      → IsStrict n
      → Distinct (issue_ids n input.issues)
      → ((recommend_feed_v2 n input).continuation ≡ Continuation.go_on)
        ↔ (length (recommend_feed_v2 n input).items ≡ batch_size)
  unfolding recommend_feed_v2
  recommend_feed_v2-go_on input strict no_repeat =
      let found = search_v2 n input in
      let batch = search_v2-IsBatch n input strict no_repeat in
      let shown =
        output_items-length 0 (take batch_size found.best.items)
        ∙ ap length (take-all batch_size _ batch.fits) in
      let (full, rest) =
        resolve-go_on (length input.issues) (budget_of input) found.scored found.best.items
          input.previous_session found.budget.cut found.max_length in
      (λ e. omega (arith, full e, shown, batch.fits), λ e. rest (omega (arith, shown, e)))

  resolve-exhausted :
      (inputs budget : ℕ) (scored : List (Candidate F)) (ordered : List (Selected F)) (s : RunState)
      → (cut : _) (most : Option ℕ)
      → resolve_v2_continuation inputs budget scored ordered s cut most ≡ Continuation.exhausted
      → (inputs ≤ budget) × (length scored ≤ length ordered)
  unfolding resolve_v2_continuation
  resolve-exhausted inputs budget scored ordered s cut most h =
      ground (arith, ==_iff (length scored) 0, ==_iff (length ordered) (length scored))

  all_shown :
      (pool : List (Candidate F)) (s : RunState) (o : Order F) (c : Candidate F)
      → IsBatch pool s o
      → length pool ≤ length o.items
      → Memᴰ c pool
      → includes (ids_of o.items) c.issue.id ≡ true
  all_shown pool s o c batch enough m =
      includes-all_of_Distinct (ids_of o.items) (candidate_ids pool) c.issue.id batch.distinct
        (λ a there.
          let (x, offered, e) =
            ids_of-Memᴰ (Offered pool) o.items a batch.offered
              (Memᴰ-of_includes a (ids_of o.items) there) in
          includes-Memᴰ a (candidate_ids pool) (
            subst (λ i. Memᴰ i (candidate_ids pool)) (sym e)
              (candidate_ids-Memᴰ pool x.candidate offered.listed)))
        (omega (
          arith,
          enough,
          length-keys (λ d. d.issue.id) pool,
          length-keys (λ x. x.candidate.issue.id) o.items,
        ))
        (includes-Memᴰ c.issue.id (candidate_ids pool) (candidate_ids-Memᴰ pool c m))

  -- Where `recommendFeedV2` says EXHAUSTED, every issue of the input was looked at, and the batch
  -- shows each of those that have a score.
  pub recommend_feed_v2-exhausted :
      (input : Input F)
      → IsStrict n
      → Distinct (issue_ids n input.issues)
      → (recommend_feed_v2 n input).continuation ≡ Continuation.exhausted
      → (length input.issues ≤ budget_of input)
        × ((c : Candidate F)
            → Memᴰ c (scored_pool n input)
            → includes (shown_ids (recommend_feed_v2 n input).items) c.issue.id ≡ true)
  unfolding recommend_feed_v2
  recommend_feed_v2-exhausted input strict no_repeat h =
      let found = search_v2 n input in
      let batch = search_v2-IsBatch n input strict no_repeat in
      let (read, enough) =
        resolve-exhausted (length input.issues) (budget_of input) found.scored found.best.items
          input.previous_session found.budget.cut found.max_length h in
      let shown =
        ap (λ xs. shown_ids (output_items 0 xs)) (take-all batch_size found.best.items batch.fits)
        ∙ output_items-ids 0 found.best.items in
      (
        read,
        λ c m.
            subst (λ ids. includes ids c.issue.id ≡ true) (sym shown)
              (all_shown (scored_pool n input) input.previous_session found.best c batch
                (omega (arith, enough, search_v2-scored n input)) m),
      )
