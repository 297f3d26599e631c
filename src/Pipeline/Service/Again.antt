-- ===== src/Pipeline/Service/Again.antt =====
-- A request that a caller sends again, pipeline.run.service.ts.
use newtine_backend.Prelude.{String, none, ◌≡◌, refl, ◌∙◌}
use newtine_backend.Prelude.Text.{trim}
use newtine_backend.Prelude.Map.{get}
use newtine_backend.Prelude.Result.{ok, first_of_chain}
use newtine_backend.Pipeline.Types.{Run, RunRequest}
use newtine_backend.Pipeline.Limits.{normalize_limits}
use newtine_backend.Pipeline.Store.{Platform, Store}
use newtine_backend.Pipeline.Idempotency.{enqueue_again}
use newtine_backend.Pipeline.Service.{normalize_required, no_limits, service_enqueue}

normalize_required-trim :
    (value other : String)
    → trim other ≡ trim value
    → normalize_required other ≡ normalize_required value
unfolding normalize_required
normalize_required-trim value other same = rw same refl

-- After the service has accepted a request under a new id, the same request, whose key and query may
-- differ in the blanks around them, is answered with the same run and changes nothing.
pub service_enqueue_again :
    (p : Platform) (stringify : RunRequest → String) (id id' now now' : String)
    (key key' query query' : String) (s : Store) (run : Run) (s' : Store)
    → get id s.runs ≡ none
    → trim key' ≡ trim key
    → trim query' ≡ trim query
    → service_enqueue p stringify id now key query s ≡ ok (run, s')
    → service_enqueue p stringify id' now' key' query' s' ≡ ok (run, s')
unfolding service_enqueue
service_enqueue_again p stringify id id' now now' key key' query query' s run s' fresh k q h =
    let (kept, after_key, key_ok) = first_of_chain (normalize_required key) _ (run, s') h in
    let (text, after_query, query_ok) =
      first_of_chain (normalize_required query) _ (run, s') after_key in
    let (limits, enqueued, limits_ok) =
      first_of_chain (normalize_limits no_limits) _ (run, s') after_query in
    let key_again : normalize_required key' ≡ ok kept =
      normalize_required-trim key key' k ∙ key_ok in
    let query_again : normalize_required query' ≡ ok text =
      normalize_required-trim query query' q ∙ query_ok in
    rw (key_again, query_again, limits_ok) (enqueue_again id id' now now' _ s run s' fresh enqueued)
