-- ===== src/Pipeline/Tests/Requests.antt =====
-- A request that goes through the service twice.
use newtine_backend.Prelude.{String, ◌≡◌, refl}
use newtine_backend.Prelude.Map.{get, set, values}
use newtine_backend.Prelude.Result.{ok}
use newtine_backend.Prelude.Text.{trim, text_length}
use newtine_backend.Pipeline.Types.{Run, RunRequest, EnqueueInput}
use newtine_backend.Pipeline.Limits.{default_limits, normalize_limits}
use newtine_backend.Pipeline.Store.{empty_store, put_run}
use newtine_backend.Pipeline.Lifecycle.{new_run, enqueue}
use newtine_backend.Pipeline.Service.{normalize_required, service_enqueue}
use newtine_backend.Pipeline.Service.Again.{service_enqueue_again}
use newtine_backend.Pipeline.Tests.{platform}

abbrev query_of : RunRequest → String
query_of r = r.query

abbrev stored_input : EnqueueInput
stored_input = record {
  idempotency_key = "daily";
  request_hash = "housing";
  request = record { query = "housing"; limits = default_limits };
}

abbrev stored_run : Run
stored_run = new_run "r1" "t0" stored_input

accepted :
    service_enqueue platform query_of "r1" "t0" "daily" "housing" empty_store
    ≡ ok (stored_run, put_run stored_run empty_store)
unfolding service_enqueue normalize_required normalize_limits enqueue put_run new_run set values
    trim text_length
accepted = refl

trims : (trim " daily" ≡ trim "daily") × (trim "housing " ≡ trim "housing")
unfolding trim
trims = (refl, refl)

service_enqueue_again_example :
    service_enqueue platform query_of "r2" "t7" " daily" "housing " (put_run stored_run empty_store)
    ≡ ok (stored_run, put_run stored_run empty_store)
unfolding get
service_enqueue_again_example =
    service_enqueue_again platform query_of "r1" "r2" "t0" "t7" "daily" " daily" "housing"
      "housing " empty_store stored_run (put_run stored_run empty_store) refl trims.0 trims.1
      accepted
