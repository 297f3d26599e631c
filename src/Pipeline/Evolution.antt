-- ===== src/Pipeline/Evolution.antt =====
-- The life of a run: how its status and attempt may change, and what a step must keep. These are the
-- specifications; the modules below show that each operation of the repository meets them.
pub mod Writes
pub mod Runs
pub mod Worker
pub mod Jobs
pub mod Tasks
use newtine_backend.Prelude.{
  ℕ, ◌+◌, String, Bool, true, false, Option, none, some, List, [], ◌∷◌, ◌++◌, find, ◌≡◌, refl, ◌⊎◌,
  inl, inr, map, Memᴰ, Memᴰ-cons, arith, Bool-cases, ◌==◌, string_eq, ==_iff, subst, sym, ap, ◌∙◌,
  if◌then◌else◌,
}
use newtine_backend.Prelude.Map.{Map, get, set, get-set, IsKeyed, set-IsKeyed}
use newtine_backend.Pipeline.Types.{
  Run, RunStatus, RunRequest, Job, Issue, EmbeddingTask, is_active, is_running, is_queued,
  is_retryable, is_succeeded,
}
use newtine_backend.Pipeline.Store.{Store, recount, update_first, put_job, pending_count}

-- A status that ends an attempt.
abbrev pub is_final : RunStatus → Bool
is_final RunStatus.succeeded = true
is_final RunStatus.partially_succeeded = true
is_final RunStatus.failed = true
is_final _ = false

-- The state machine of a run.
pub data Phase (r r' : Run) : Type 0 where
  stays : r'.status ≡ r.status → r'.attempt ≡ r.attempt → Phase r r'
  claimed :
      r.status ≡ RunStatus.queued
      → r'.status ≡ RunStatus.running
      → r'.attempt ≡ r.attempt
      → Phase r r'
  finished :
      r.status ≡ RunStatus.running → is_final r'.status ≡ true → r'.attempt ≡ r.attempt → Phase r r'
  requeued :
      is_retryable r.status ≡ true
      → r'.status ≡ RunStatus.queued
      → r'.attempt ≡ r.attempt + 1
      → Phase r r'

-- A job that has succeeded is still there, unchanged.
abbrev pub KeepsJobs : List Job → List Job → Type 0
KeepsJobs jobs jobs' = (j : Job) → Memᴰ j jobs → is_succeeded j.status ≡ true → Memᴰ j jobs'

pub record Evolves (r r' : Run) : Type 0 where
  pub id : r'.id ≡ r.id
  pub idempotency_key : r'.idempotency_key ≡ r.idempotency_key
  pub request_hash : r'.request_hash ≡ r.request_hash
  pub request : r'.request ≡ r.request
  pub created_at : r'.created_at ≡ r.created_at
  pub phase : Phase r r'
  pub jobs : KeepsJobs r.jobs r'.jobs

-- No run is lost, and each one evolves.
abbrev pub Evolution : Map Run → Map Run → Type 0
Evolution m m' =
    (k : String) (r : Run) → get k m ≡ some r → (r' : Run) × (get k m' ≡ some r') × Evolves r r'

pub KeepsJobs-refl : (jobs : List Job) → KeepsJobs jobs jobs
KeepsJobs-refl jobs j m e = m

pub Evolves-refl : (r : Run) → Evolves r r
Evolves-refl r = record {
  id = refl;
  idempotency_key = refl;
  request_hash = refl;
  request = refl;
  created_at = refl;
  phase = stays refl refl;
  jobs = KeepsJobs-refl r.jobs;
}

pub map-KeepsJobs :
    (f : Job → Job) (jobs : List Job)
    → ((j : Job) → is_succeeded j.status ≡ true → f j ≡ j)
    → KeepsJobs jobs (map f jobs)
map-KeepsJobs f [] h j m e = elim m [ ]
map-KeepsJobs f (x ∷ jobs) h j m e =
    Memᴰ-cons (λ (p : j ≡ x). Memᴰ.head (sym (h j e) ∙ ap f p))
      (λ n. Memᴰ.tail (map-KeepsJobs f jobs h j n e)) m

pub append-KeepsJobs : (jobs more : List Job) → KeepsJobs jobs (jobs ++ more)
append-KeepsJobs [] more j m e = elim m [ ]
append-KeepsJobs (x ∷ jobs) more j m e =
    Memᴰ-cons (λ p. Memᴰ.head p) (λ n. Memᴰ.tail (append-KeepsJobs jobs more j n e)) m

-- The first job that passes changes, and it has not succeeded.
pub update_first-KeepsJobs :
    (p : Job → Bool) (f : Job → Job) (jobs : List Job) (job : Job)
    → find p jobs ≡ some job
    → is_succeeded job.status ≡ false
    → KeepsJobs jobs (update_first p f jobs)
unfolding update_first
update_first-KeepsJobs p f [] job found h j m e = absurd (cc)
update_first-KeepsJobs p f (x ∷ jobs) job found h j m e = elim (Bool-cases (p x)) [
  | inl hit ↦
      let same : x ≡ job = ground arith in
      rw hit (
        Memᴰ-cons
          (λ (q : j ≡ x).
            absurd (ground (arith, h, e, ap (λ (y : Job). is_succeeded y.status) (q ∙ same))))
          (λ n. Memᴰ.tail n) m)
  | inr miss ↦ rw miss (
      Memᴰ-cons (λ q. Memᴰ.head q)
        (λ n. Memᴰ.tail (update_first-KeepsJobs p f jobs job (rw miss at found) h j n e)) m)
]

pub recounted : Map EmbeddingTask → List Issue → Run → Run
recounted tasks issues run = record run {
  embedding_pending_count = pending_count run.id tasks issues;
}

pub get-recount :
    (tasks : Map EmbeddingTask) (issues : List Issue) (k : String) (m : Map Run) (r : Run)
    → get k m ≡ some r
    → get k (recount tasks issues m) ≡ some (recounted tasks issues r)
unfolding recount recounted get
get-recount tasks issues k [] r e = absurd (cc)
get-recount tasks issues k ((j, q) ∷ m) r e = ground (arith, get-recount tasks issues k m r)
