-- ===== src/Pipeline/Publication.antt =====
-- What `saveJobSuccess` of inMemoryPipeline.repository.ts publishes.
use newtine_backend.Prelude.{
  ℕ, String, true, false, none, some, List, [], ◌∷◌, ◌≡◌, refl, sym, ap, ◌∙◌, subst, Option-cases,
  Bool-cases, inl, inr, find, find-Memᴰ, ◌==◌, string_eq, arith, ==_iff,
}
use newtine_backend.Prelude.Map.{get, get-set_self}
use newtine_backend.Prelude.Result.{ok}
use newtine_backend.Pipeline.Types.{Run, Job, Issue, Publication, EmbeddingTask, FetchedArticle}
use newtine_backend.Pipeline.Validator.{
  Content, Semantic, validate_generated_content, validate_semantic_result,
}
use newtine_backend.Pipeline.Store.{
  Platform, Store, find_job_owner, find_issue, found_withdrawn, update_first, put_run, put_job,
  recompute_embedding_pending_counts,
}
use newtine_backend.Pipeline.Jobs.{
  save_job_success, owns_job, publish, published_task, succeeded_job, embedding_input_hash,
}

find-update_first :
    (id : String) (f : Issue → Issue) (issues : List Issue) (issue : Issue)
    → ((i : Issue) → (f i).id ≡ i.id)
    → find (λ item. item.id == id) issues ≡ some issue
    → find (λ item. item.id == id) (update_first (λ item. item.id == id) f issues) ≡ some (f issue)
unfolding update_first
find-update_first id f [] issue keeps h = absurd (cc)
find-update_first id f (i ∷ issues) issue keeps h = elim (Bool-cases (i.id == id)) [
  | inl here ↦
      let same : i ≡ issue = ground (arith, here, h) in
      let still : ((f i).id == id) ≡ true =
        (==_iff (f i).id id).1 (keeps i ∙ (==_iff i.id id).0 here) in
      rw here (ground (arith, still, ap f same))
  | inr later ↦
      rw later (ground (arith, later, find-update_first id f issues issue keeps (rw later at h)))
]

-- The issue is public with this summary, and its embedding is on the list for it, unclaimed.
pub record IsPublic (p : Platform) (issue : Issue) (summary : String) (s : Store) : Type 0 where
  pub stored : Issue
  pub found : find_issue issue.id s.issues ≡ some stored
  pub publication : stored.publication ≡ Publication.published
  pub integrated_summary : stored.integrated_summary ≡ some summary
  pub title : stored.title ≡ issue.title
  pub task : EmbeddingTask
  pub task_found : get issue.id s.embedding_tasks ≡ some task
  pub input_hash : task.input_hash ≡ embedding_input_hash p issue.title summary
  pub unclaimed : task.claim_token ≡ none

publish-IsPublic :
    (p : Platform) (fresh job_id : String) (attempt : ℕ) (model : String) (run : Run)
    → (id : String) → (issue : Issue) → (summary : String) → (s : Store)
    → find_issue id s.issues ≡ some issue
    → IsPublic p issue summary (publish p fresh job_id attempt model run (some issue) summary s)
unfolding publish published_task recompute_embedding_pending_counts find_issue
publish-IsPublic p fresh job_id attempt model run id issue summary s h =
    let named = (==_iff issue.id id).0 (find-Memᴰ (λ item. item.id == id) s.issues h).1 in
    let again : find (λ item. item.id == issue.id) s.issues ≡ some issue =
      subst (λ k. find (λ item. item.id == k) s.issues ≡ some issue) (sym named) h in
    record {
      stored = record issue {
        publication = Publication.published;
        integrated_summary = some summary;
      };
      found =
          find-update_first issue.id
            (λ item. record item {
              publication = Publication.published;
              integrated_summary = some summary;
            })
            s.issues issue (λ item. refl) again;
      publication = refl;
      integrated_summary = refl;
      title = refl;
      task =
          published_task p fresh job_id attempt model run issue summary
            (get issue.id s.embedding_tasks);
      task_found =
          get-set_self issue.id
            (published_task p fresh job_id attempt model run issue summary
              (get issue.id s.embedding_tasks))
            s.embedding_tasks;
      input_hash = refl;
      unclaimed = refl;
    }

-- What a save that was accepted has checked, and what it has done for the issue of the job.
pub record Published (p : Platform) (job_id : String) (attempt : ℕ) (x : String) (content : Content)
    (validation : Semantic) (evidence : List FetchedArticle) (s s' : Store) : Type 0 where
  pub content_ok : validate_generated_content content evidence ≡ none
  pub evidence_ok : validate_semantic_result validation evidence ≡ none
  pub run : Run
  pub job : Job
  pub owner : find_job_owner job_id s ≡ some (run, job)
  pub held : owns_job run job attempt x ≡ true
  pub not_withdrawn : found_withdrawn (find_issue job.issue_id s.issues) ≡ false
  pub is_public :
      (issue : Issue)
      → find_issue job.issue_id s.issues ≡ some issue
      → IsPublic p issue content.integrated_summary s'

-- Where `saveJobSuccess` answers `true`, the content and the evidence are valid, the caller held the
-- running job of the current attempt, the issue of the job was not withdrawn, and it is published now
-- with the summary of the content, its embedding listed under the hash of that summary, unclaimed.
pub save_job_success-Published :
    (p : Platform) (now fresh job_id : String) (attempt : ℕ) (x : String) (content : Content)
    (validation : Semantic) (evidence : List FetchedArticle) (model : String) (s s' : Store)
    → save_job_success p now fresh job_id attempt x content validation evidence model s
      ≡ ok (true, s')
    → Published p job_id attempt x content validation evidence s s'
unfolding save_job_success put_run
save_job_success-Published p now fresh job_id attempt x content validation evidence model s s' h =
    elim (Option-cases (find_job_owner job_id s)) [
      | inl e ↦ absurd (ground (arith, e))
      | inr ((run, job), e) ↦ elim (Bool-cases (owns_job run job attempt x)) [
        | inr stopped ↦ absurd (ground (arith, e, stopped))
        | inl held ↦
            let written : Store =
              put_run (record (put_job job_id succeeded_job run) { updated_at = now }) s in
            let state : publish p fresh job_id attempt model run (find_issue job.issue_id s.issues)
                  content.integrated_summary written
                ≡ s' =
              ground (arith, e, held) in
            record {
              content_ok = ground (arith, e, held);
              evidence_ok = ground (arith, e, held);
              run = run;
              job = job;
              owner = e;
              held = held;
              not_withdrawn = ground (arith, e, held);
              is_public = λ issue found.
                  subst (IsPublic p issue content.integrated_summary)
                    (ap
                        (λ o.
                          publish p fresh job_id attempt model run o content.integrated_summary
                            written)
                        (sym found)
                      ∙ state)
                    (publish-IsPublic p fresh job_id attempt model run job.issue_id issue
                      content.integrated_summary written found);
            }
      ]
    ]
