-- ===== src/Pipeline/Tests/Publish.antt =====
-- A job that is published, and the calls of a worker whose run was put back into the queue.
use newtine_backend.Prelude.{String, true, none, List, [], ◌∷◌, ◌≡◌, refl}
use newtine_backend.Prelude.Map.{get, set, values}
use newtine_backend.Prelude.Text.{is_blank}
use newtine_backend.Prelude.Result.{ok}
use newtine_backend.Pipeline.Types.{
  Run, Job, JobStatus, RetryScope, Stage, Publication, FetchedArticle,
}
use newtine_backend.Pipeline.Validator.{
  Content, Semantic, Verdict, validate_generated_content, validate_semantic_result,
  validate_article_references,
}
use newtine_backend.Pipeline.Store.{
  Store, put_run, put_job, find_job_owner, find_issue, owns_run, owner_among,
}
use newtine_backend.Pipeline.Lifecycle.{new_run, retried_run, requeue_job}
use newtine_backend.Pipeline.Jobs.{save_job_success, publish, owns_job, succeeded_job}
use newtine_backend.Pipeline.Publication.{Published, save_job_success-Published}
use newtine_backend.Pipeline.Tests.{platform, running_run, store_with, failed_run, retry_input}

abbrev evidence : List FetchedArticle
evidence = fetched "a1" ∷ fetched "a2" ∷ []
  where
    fetched : String → FetchedArticle
    fetched id = record {
      article_id = id;
      title = id;
      source_url = id;
      publisher_name = "press";
      published_at = none;
      body = "text";
    }

abbrev content : Content
content = record {
  integrated_summary = "summary";
  summary_lines = "one" ∷ "two" ∷ "three" ∷ [];
  viewpoints = none;
  glossary = [];
  impacts = [];
}

abbrev validation : Semantic
validation = record {
  status = Verdict.pass;
  reason = "consistent";
  independent_evidence_groups = ("a1" ∷ []) ∷ ("a2" ∷ []) ∷ [];
  conflicts = [];
}

abbrev before : Store
before = record (store_with running_run) {
  issues =
      record {
        id = "j3";
        title = "rents";
        integrated_summary = none;
        publication = Publication.unpublished;
      }
      ∷ [];
}

abbrev after : Store
after =
    publish platform "e1" "j3" 1 "model" running_run (find_issue "j3" before.issues) "summary"
      (put_run (record (put_job "j3" succeeded_job running_run) { updated_at = "t4" }) before)

saved :
    save_job_success platform "t4" "e1" "j3" 1 "x" content validation evidence "model" before
    ≡ ok (true, after)
unfolding save_job_success validate_generated_content validate_semantic_result
    validate_article_references find_job_owner find_issue owns_job owns_run new_run put_run get set
    values is_blank owner_among
saved = refl

save_job_success-Published_example :
    Published platform "j3" 1 "x" content validation evidence before after
save_job_success-Published_example =
    save_job_success-Published platform "t4" "e1" "j3" 1 "x" content validation evidence "model"
      before after saved

abbrev queued_again : Run
queued_again = retried_run "t9" retry_input [] failed_run

abbrev job_again : Job
job_again = requeue_job RetryScope.content ("j2" ∷ []) 2 [] (record {
  id = "j2";
  run_id = "r1";
  issue_id = "j2";
  status = JobStatus.failed;
  stage = Stage.validate;
  failure_kind = none;
  last_error = none;
  attempt = 1;
})
