-- ===== src/Pipeline/Invariant.antt =====
-- What holds in every state that the repository can reach, and across every one of its steps.
use newtine_backend.Prelude.{subst, sym}
use newtine_backend.Prelude.Map.{get}
use newtine_backend.Pipeline.Store.{Platform, Store}
use newtine_backend.Pipeline.Steps.{
  Step, enqueues, retries, interrupts, claims, completes_discovery, fails, stages, completes,
  records, registers, claims_job, stages_job, fails_job, succeeds_job, embeds, marks, claims_tasks,
  fails_task, releases_task, releases_tasks, requeues_tasks, saves_articles, Reachable, starts,
  continues,
}
use newtine_backend.Pipeline.Embedding.{release_embedding_claims, requeue_embedding_claims}
use newtine_backend.Pipeline.Articles.{save_discovered_articles-runs}
use newtine_backend.Pipeline.Evolution.{Evolution}
use newtine_backend.Pipeline.Evolution.Writes.{
  Writes, unchanged, RunsKeyed, AtMostOneActive, Writes-Evolution, Writes-IsKeyed,
  Writes-AtMostOneActive,
}
use newtine_backend.Pipeline.Evolution.Runs.{enqueue-Writes, retry-Writes, interrupt-Writes}
use newtine_backend.Pipeline.Evolution.Worker.{
  claim_next-Writes, complete_discovery-Writes, fail_run-Writes, update_run_stage-Writes,
  complete_run-Writes, record_usage-Writes,
}
use newtine_backend.Pipeline.Evolution.Jobs.{
  register_issue-Writes, claim_job-Writes, update_job_stage-Writes, save_job_failure-Writes,
  save_job_success-Writes,
}
use newtine_backend.Pipeline.Evolution.Tasks.{
  save_embedding-Writes, mark_embedding_pending-Writes, claim_pending_embedding_tasks-Writes,
  fail_embedding_task-Writes, release_embedding_claim-Writes, put_back_all-Writes,
}

module _ (p : Platform) where
  Step-Writes : {s s' : Store} → RunsKeyed s → Step p s s' → Writes s.runs s'.runs
  unfolding release_embedding_claims requeue_embedding_claims
  Step-Writes {s} w (enqueues id now input out s' fresh h) = enqueue-Writes id now input s fresh h
  Step-Writes {s} w (retries now input out s' h) = retry-Writes now input s w h
  Step-Writes {s} w (interrupts now input out s' h) = interrupt-Writes now input s w h
  Step-Writes {s} w (claims now x) = claim_next-Writes p now x s w
  Step-Writes {s} w (completes_discovery now run_id attempt x outcome s' h) =
      complete_discovery-Writes now run_id attempt x s w outcome h
  Step-Writes {s} w (fails now run_id attempt x message s' h) =
      fail_run-Writes now run_id attempt x s w message h
  Step-Writes {s} w (stages run_id attempt x stage s' h) =
      update_run_stage-Writes "" run_id attempt x s w stage h
  Step-Writes {s} w (completes now run_id attempt x s' h) =
      complete_run-Writes now run_id attempt x s w h
  Step-Writes {s} w (records now input) = record_usage-Writes now input s w
  Step-Writes {s} w (registers now issue_id job_id input out s' h) =
      register_issue-Writes p now issue_id job_id input s w h
  Step-Writes {s} w (claims_job job_id attempt x) = claim_job-Writes job_id s w attempt x
  Step-Writes {s} w (stages_job job_id attempt x stage) =
      update_job_stage-Writes job_id s w attempt x stage
  Step-Writes {s} w (fails_job now job_id attempt x kind message) =
      save_job_failure-Writes job_id s w now attempt x kind message
  Step-Writes {s} w (succeeds_job now fresh job_id attempt x content v evidence model done s' h) =
      save_job_success-Writes job_id s w p now fresh attempt x content v evidence model h
  Step-Writes {s} w (embeds issue_id title summary v model task_id token expected out s' h) =
      save_embedding-Writes s p issue_id title summary v model task_id token expected h
  Step-Writes {s} w (marks now run_id attempt x job_id message) =
      mark_embedding_pending-Writes now run_id attempt x job_id message s w
  Step-Writes {s} w (claims_tasks now limit process token) =
      claim_pending_embedding_tasks-Writes s now limit process token
  Step-Writes {s} w (fails_task task_id token message) =
      fail_embedding_task-Writes s task_id token message
  Step-Writes {s} w (releases_task task_id token) = release_embedding_claim-Writes s task_id token
  Step-Writes {s} w (releases_tasks process) = put_back_all-Writes s _
  Step-Writes {s} w (saves_articles found) =
      subst (Writes s.runs) (sym (save_discovered_articles-runs p found s)) unchanged
  Step-Writes {s} w (requeues_tasks dead) = put_back_all-Writes s _

  -- Every run of a repository is stored once, under its own id.
  pub Reachable-RunsKeyed : {s : Store} → Reachable p s → RunsKeyed s
  Reachable-RunsKeyed starts = tt
  Reachable-RunsKeyed (continues r st) =
      let w = Reachable-RunsKeyed r in Writes-IsKeyed (Step-Writes w st) w

  -- In every reachable state, every operation keeps each stored run: its id, idempotency key, request
  -- and creation time stay, its status and attempt stay or move along the state machine (claimed,
  -- finished, or put back into the queue as the next attempt), and its succeeded jobs stay unchanged.
  pub Step-Evolution : (s s' : Store) → Reachable p s → Step p s s' → Evolution s.runs s'.runs
  Step-Evolution s s' r st = Writes-Evolution (Step-Writes (Reachable-RunsKeyed r) st)

  -- In every reachable state at most one run is `QUEUED` or `RUNNING`: two ids of such runs are equal.
  pub Reachable-AtMostOneActive : (s : Store) → Reachable p s → AtMostOneActive s.runs
  unfolding get
  Reachable-AtMostOneActive s starts = λ j k r q e. absurd (cc)
  Reachable-AtMostOneActive s (continues {s = before} r st) =
      Writes-AtMostOneActive (Step-Writes (Reachable-RunsKeyed r) st)
        (Reachable-AtMostOneActive before r)
