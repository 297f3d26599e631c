-- ===== src/Recommendation/Feed.antt =====
-- A reader's feed over several batches.
use newtine_backend.Prelude.{ℕ, List, ◌++◌, ◌≡◌, false}
use newtine_backend.Recommendation.Types.{Numbers, Issue, Candidate, Selected, RunState, Budget}
use newtine_backend.Recommendation.Runs.Laws.{
  Runs, Runs-append, topics_of, entities_of, topics-RunsOf, entities-RunsOf, has_three,
  RunsOf-has_three,
}
use newtine_backend.Recommendation.Greedy.{greedy_order}
use newtine_backend.Recommendation.Greedy.Laws.{greedy_order-FeedOrder}
use newtine_backend.Recommendation.Batch.{batch_issues}

-- In a feed whose past issues the run rule admitted, up to the state that the session keeps, the
-- batch that `greedyOrder` adds leaves no topic and no entity three times in a row, in the past
-- issues and the new ones together.
pub greedy_order-no_three :
    {F : Type 0} (n : Numbers F) (start s : RunState) (past : List (Issue F))
    → (cs : List (Candidate F)) → (seed : List (Selected F)) → (b : Budget) → (most : ℕ)
    → Runs start past s
    → let feed = past ++ batch_issues (greedy_order n cs seed s b most).0 in
      (has_three (topics_of feed) ≡ false) × (has_three (entities_of feed) ≡ false)
greedy_order-no_three n start s past cs seed b most h =
    let order = greedy_order-FeedOrder n cs seed s b most in
    let all_runs = Runs-append start s _ past _ h order.runs in
    (
      RunsOf-has_three start.last_topic start.topic_run _ (topics-RunsOf start _ _ all_runs),
      RunsOf-has_three start.last_representative_entity_id start.entity_run _
          (entities-RunsOf start _ _ all_runs),
    )
