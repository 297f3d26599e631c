-- ===== src/Pipeline/Tests/Parts.antt =====
-- Limits, articles and embedding tasks on concrete values.
use newtine_backend.Prelude.{
  length, String, true, false, Option, none, some, [], ◌≡◌, ◌≢◌, refl, inl, ==_iff, string_eq,
  nat_eq, option_eq,
}
use newtine_backend.Prelude.Map.{get, set, values}
use newtine_backend.Prelude.Result.{ok}
use newtine_backend.Pipeline.Articles.{save_article}
use newtine_backend.Pipeline.Articles.Again.{save_article_again}
use newtine_backend.Pipeline.Embedding.{
  SaveResult, task_by_id, fail_embedding_task, release_embedding_claim, save_embedding,
}
use newtine_backend.Pipeline.Embedding.Claims.{not_held-no_change}
use newtine_backend.Pipeline.Types.{Article, EmbeddingTask, TaskStatus, Limits}
use newtine_backend.Pipeline.Limits.{default_limits, PartialLimits, normalize_limits}
use newtine_backend.Pipeline.Limits.Bounds.{InRange, normalize_limits-InRange}
use newtine_backend.Pipeline.Store.{Store, empty_store}
use newtine_backend.Pipeline.Tests.{platform}

abbrev asked : PartialLimits
asked = record {
  discovery_queries = none;
  discovery_news = some 10;
  max_candidates = none;
  max_new_issues = some 2;
  issue_search_queries = none;
  related_articles_per_query = some 4;
  max_body_attempts = some 4;
  valid_bodies_target = some 2;
  transient_retries = none;
}

abbrev granted : Limits
granted = record default_limits {
  discovery_news = 10;
  max_new_issues = 2;
  related_articles_per_query = 4;
  max_body_attempts = 4;
  valid_bodies_target = 2;
}

asked-granted : normalize_limits asked ≡ ok granted
unfolding normalize_limits
asked-granted = refl

normalize_limits-InRange_example : InRange granted
normalize_limits-InRange_example = normalize_limits-InRange asked granted asked-granted

abbrev article : String → Article
article title = record {
  id = none;
  title = title;
  description = title;
  source_url = "example/1";
  naver_url = none;
  publisher_name = "press";
  published_at = none;
}

save_article_again_example :
    let first = save_article platform "a1" (article "first") empty_store in
    let second = save_article platform "a2" (article "first") first.1 in
    (second.0.id ≡ first.0.id)
    × (length (values second.1.articles) ≡ length (values first.1.articles))
unfolding get
save_article_again_example =
    save_article_again platform "a1" "a2" (article "first") empty_store tt refl

abbrev task : EmbeddingTask
task = record {
  id = "e1";
  issue_id = "i1";
  run_id = "r1";
  job_id = "j1";
  run_attempt = 1;
  run_execution_id = some "x";
  claim_token = some "k1";
  claimed_by = some "w1";
  claimed_at = some "t1";
  input_hash = "h";
  model = "m";
  status = TaskStatus.running;
  attempts = 1;
  title = "title";
  integrated_summary = "summary";
  last_error = none;
}

abbrev task_store : Store
task_store = record empty_store { embedding_tasks = set "i1" task [] }

task-found : task_by_id "e1" task_store ≡ some task
unfolding set values
task-found = refl

task-stored : get "i1" task_store.embedding_tasks ≡ some task
unfolding set get
task-stored = refl

tokens_differ : task.claim_token ≢ some "k2"
tokens_differ e = absurd (cc ((==_iff {A = Option String} (some "k1") (some "k2")).1 e))

not_held-no_change_example :
    (fail_embedding_task "e1" "k2" "down" task_store ≡ (false, task_store))
    × (release_embedding_claim "e1" "k2" task_store ≡ (false, task_store))
    × (save_embedding platform "i1" "title" "summary"
          (record { dimension = 1536; all_finite = true })
          "m"
          (some "e1")
          (some "k2")
          none
          task_store
        ≡ ok (SaveResult.stale, task_store))
not_held-no_change_example =
    not_held-no_change platform task "k2" "title" "summary" "m" "down"
      (record { dimension = 1536; all_finite = true }) none task_store task-found task-stored refl
      refl (inl tokens_differ)
