-- ===== src/Pipeline/Idempotency.antt =====
-- A request that is sent again: `enqueue` of inMemoryPipeline.repository.ts and its idempotency key.
use newtine_backend.Prelude.{
  String, Bool, none, some, [], ◌∷◌, ◌++◌, ◌≡◌, ◌≢◌, inl, inr, arith, find, Option-cases,
  Bool-cases, ◌==◌, string_eq, ==_iff, ==_refl, subst, sym, ap, ◌∙◌,
}
use newtine_backend.Prelude.Map.{get, set, values, values-set_new, find-append_new}
use newtine_backend.Prelude.Result.{ok, err}
use newtine_backend.Pipeline.Types.{Run, EnqueueInput, ExceptionCode}
use newtine_backend.Pipeline.Store.{Store}
use newtine_backend.Pipeline.Lifecycle.{enqueue, new_run}

abbrev with_key : String → Run → Bool
with_key key run = run.idempotency_key == key

-- The key of an answered request finds the run that was answered.
enqueued-found :
    (id now : String) (input : EnqueueInput) (s : Store) (run : Run) (s' : Store)
    → get id s.runs ≡ none
    → enqueue id now input s ≡ ok (run, s')
    → (find (with_key input.idempotency_key) (values s'.runs) ≡ some run)
      × (run.request_hash ≡ input.request_hash)
unfolding enqueue new_run
enqueued-found id now input s run s' fresh h =
    elim (Option-cases (find (with_key input.idempotency_key) (values s.runs))) [
      | inr (old, e) ↦ elim (Bool-cases (old.request_hash == input.request_hash)) [
        | inl same ↦
            let out : old ≡ run = ground (arith, e, same) in
            let state : s.runs ≡ s'.runs = ground (arith, e, same) in
            (
              subst (λ m. find (with_key input.idempotency_key) (values m) ≡ some run) state
                  (e ∙ ap some out),
              sym (ap (λ (r : Run). r.request_hash) out) ∙ (==_iff _ _).0 same,
            )
        | inr other ↦ absurd (ground (arith, e, other))
      ]
      | inl e ↦
          let out : new_run id now input ≡ run = ground (arith, e) in
          let state : set id (new_run id now input) s.runs ≡ s'.runs = ground (arith, e) in
          let listed : values s'.runs ≡ values s.runs ++ (new_run id now input ∷ []) =
            ap values (sym state) ∙ values-set_new id (new_run id now input) s.runs fresh in
          (
            subst (λ l. find (with_key input.idempotency_key) l ≡ some run) (sym listed)
                (find-append_new (with_key input.idempotency_key) (values s.runs)
                    (new_run id now input) e (==_refl input.idempotency_key)
                  ∙ ap some out),
            sym (ap (λ (r : Run). r.request_hash) out),
          )
    ]

-- After a request has been accepted under a new id, sending it again, at any time, is answered with the
-- same run and changes nothing.
pub enqueue_again :
    (id id' now now' : String) (input : EnqueueInput) (s : Store) (run : Run) (s' : Store)
    → get id s.runs ≡ none
    → enqueue id now input s ≡ ok (run, s')
    → enqueue id' now' input s' ≡ ok (run, s')
unfolding enqueue
enqueue_again id id' now now' input s run s' fresh h =
    let (found, hash) = enqueued-found id now input s run s' fresh h in
    ground (arith, found, ==_iff run.request_hash input.request_hash, hash)

-- After a request has been accepted under a new id, another request with its idempotency key and a
-- different request hash is refused with an idempotency conflict.
pub enqueue_conflict :
    (id id' now now' : String) (input other : EnqueueInput) (s : Store) (run : Run) (s' : Store)
    → get id s.runs ≡ none
    → enqueue id now input s ≡ ok (run, s')
    → other.idempotency_key ≡ input.idempotency_key
    → other.request_hash ≢ input.request_hash
    → enqueue id' now' other s' ≡ err ExceptionCode.idempotency_conflict
unfolding enqueue
enqueue_conflict id id' now now' input other s run s' fresh h key differs =
    let (found, hash) = enqueued-found id now input s run s' fresh h in
    let same : find (with_key other.idempotency_key) (values s'.runs) ≡ some run =
      subst (λ k. find (with_key k) (values s'.runs) ≡ some run) (sym key) found in
    ground (
      arith,
      same,
      ==_iff run.request_hash other.request_hash,
      λ (e : run.request_hash ≡ other.request_hash). differs (sym e ∙ hash),
    )
