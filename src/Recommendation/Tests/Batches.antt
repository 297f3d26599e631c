-- ===== src/Recommendation/Tests/Batches.antt =====
-- The searches of the recommendation on a few candidates.
use newtine_backend.Prelude.{
  ℕ, ◌≤◌, true, none, some, List, [], ◌∷◌, ◌≡◌, ◌⊎◌, refl, length, Memᴰ, Memᴰ-cons, string_eq,
  arith,
}
use newtine_backend.Recommendation.Types.{Selected}
use newtine_backend.Recommendation.Runs.{
  Signature, can_append, can_append_signature, advance_run_state, advance_run_state_signature,
}
use newtine_backend.Recommendation.Search.{full_mask, start_state, bounded_search_order}
use newtine_backend.Recommendation.Search.Room.{bounded_search_order-room}
use newtine_backend.Recommendation.Targets.{slots_for, try_assign}
use newtine_backend.Recommendation.Targets.Room.{try_assign-room}
use newtine_backend.Recommendation.Ordering.{order_without_violating_runs}
use newtine_backend.Recommendation.Ordering.Promise.{order_without_violating_runs-longest}
use newtine_backend.Recommendation.Pool.{
  Bucket, maximum_compressed_run_length, reconstruct_maximum_run_order,
}
use newtine_backend.Recommendation.Pool.Room.{maximum_compressed_run_length-room}
use newtine_backend.Recommendation.Pool.Laws.{RunsOver, reconstruct_maximum_run_order-RunsOver}
use newtine_backend.Recommendation.Tests.{
  numbers, rents, new_session, unused, shown, candidate, batch, after_batch,
}

abbrev all_rents : List (Selected ℕ)
all_rents =
    shown (candidate "i1" "rent" 50)
    ∷ shown (candidate "i2" "rent" 60)
    ∷ shown (candidate "i3" "rent" 40)
    ∷ []

bounded_search_order-room_example :
    bounded_search_order numbers all_rents 3
      (full_mask all_rents)
      (start_state numbers new_session)
      []
      unused
    ≡ bounded_search_order numbers all_rents 9
        (full_mask all_rents)
        (start_state numbers new_session)
        []
        unused
bounded_search_order-room_example =
    bounded_search_order-room numbers all_rents 3 9 (full_mask all_rents)
      (start_state numbers new_session) [] unused (omega arith) (omega arith)

batch_in : (x : Selected ℕ) → Memᴰ x batch → Memᴰ x all_rents
batch_in x m =
    Memᴰ-cons (λ e. Memᴰ.tail (Memᴰ.head e)) (λ k. Memᴰ-cons (λ e. Memᴰ.head e) (λ l. elim l [ ]) k)
      m

batch_runs :
    (can_append (candidate "i2" "rent" 60).issue new_session ≡ true)
    × (can_append
          (candidate "i1" "rent" 50).issue
          (advance_run_state (candidate "i2" "rent" 60).issue new_session)
        ≡ true)
    × (advance_run_state
          (candidate "i1" "rent" 50).issue
          (advance_run_state (candidate "i2" "rent" 60).issue new_session)
        ≡ after_batch)
unfolding can_append can_append_signature advance_run_state advance_run_state_signature
batch_runs = (refl, refl, refl)

order_without_violating_runs-longest_example :
    2 ≤ length (order_without_violating_runs numbers all_rents new_session).items
order_without_violating_runs-longest_example =
    order_without_violating_runs-longest numbers all_rents batch new_session after_batch
      (refl, (refl, tt)) batch_in (batch_runs.0, (batch_runs.1, batch_runs.2))

try_assign-room_example :
    try_assign numbers rents (slots_for numbers rents) 3 0 [] []
    ≡ try_assign numbers rents (slots_for numbers rents) 8 0 [] []
try_assign-room_example =
    try_assign-room numbers rents (slots_for numbers rents) 3 8 0 [] [] (omega arith) (omega arith)

abbrev rent_signature : Signature
rent_signature = record { main_topic = some "rent"; representative_entity_id = none }

abbrev rent_buckets : List Bucket
rent_buckets = record { signature = rent_signature; remaining = 3 } ∷ []

maximum_compressed_run_length-room_example :
    maximum_compressed_run_length 3 rent_buckets new_session [] unused
    ≡ maximum_compressed_run_length 10 rent_buckets new_session [] unused
maximum_compressed_run_length-room_example =
    maximum_compressed_run_length-room 3 10 rent_buckets new_session [] unused (omega arith)
      (omega arith)

reconstruct_maximum_run_order-RunsOver_example :
    let memo = (maximum_compressed_run_length 3 rent_buckets new_session [] unused).memo in
    let order = reconstruct_maximum_run_order rent_buckets new_session memo 2 in
    (order ≡ []) ⊎ ((length order ≡ 2) × RunsOver new_session order)
reconstruct_maximum_run_order-RunsOver_example =
    reconstruct_maximum_run_order-RunsOver rent_buckets new_session
      (maximum_compressed_run_length 3 rent_buckets new_session [] unused).memo 2
