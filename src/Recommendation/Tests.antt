-- ===== src/Recommendation/Tests.antt =====
-- The recommendation on a few candidates, with natural numbers for scores.
mod Batches
mod Versions
mod Limited
use newtine_backend.Prelude.{
  ℕ, ◌+◌, ◌-◌, ◌*◌, ◌≤◌, ◌<◌, min, max, String, true, false, not, none, some, List, [], ◌∷◌, ◌++◌,
  ◌≡◌, ◌≢◌, refl, length, Memᴰ, sort, leb, ltb, ◌==◌, nat_eq, string_eq, if◌then◌else◌, arith,
}
use newtine_backend.Recommendation.Types.{
  Numbers, Selection, Continuation, Candidate, Selected, RunState, Budget, batch_size,
}
use newtine_backend.Recommendation.Runs.{
  can_append, can_append_signature, advance_run_state, advance_run_state_signature,
}
use newtine_backend.Recommendation.Runs.Laws.{topics_of, entities_of, has_three}
use newtine_backend.Recommendation.Score.{compare_candidate}
use newtine_backend.Recommendation.Greedy.{
  greedy_order, fill, inspect, consider, type_for, select_greedy_type, priority_of, keep_better,
  precedes, is_quota_available, increment_quota, is_chosen,
}
use newtine_backend.Recommendation.Greedy.Laws.{FeedOrder, greedy_order-FeedOrder}
use newtine_backend.Recommendation.Batch.{batch_issues}
use newtine_backend.Recommendation.Greedy.Stop.{greedy_order-transitions, greedy_order-Stuck}
use newtine_backend.Recommendation.Feed.{greedy_order-no_three}
use newtine_backend.Recommendation.Continuation.{
  resolve_v2_continuation, is_provably_constraint_limited, proven_limit,
}
use newtine_backend.Recommendation.Continuation.Laws.{Feasible, resolve_v2_continuation-longest}

-- Differences are shifted by 100, so that one below 100 is negative.
abbrev pub numbers : Numbers ℕ
numbers = record {
  nought = 0;
  unit = 100;
  seven_tenths = 70;
  quarter = 25;
  fifth = 20;
  three_twentieths = 15;
  tenth = 10;
  add = λ a b. a + b;
  sub = λ a b. 100 + a - b;
  mul = λ a b. a * b;
  min = λ a b. min a b;
  max = λ a b. max a b;
  ge = λ a b. leb b a;
  is_finite = λ a. true;
  is_nonzero = λ a. not (a == 100);
  is_negative = λ a. ltb a 100;
  locale_compare = λ a b. if a == b then 100 else 99;
  differ = λ a b. not (a == b);
  gt = λ a b. ltb b a;
  text_before = λ a b. false;
}

abbrev pub candidate : String → String → ℕ → Candidate ℕ
candidate id topic score = record {
  issue = record {
    id = id;
    category_code = "housing";
    main_topic = some topic;
    representative_entity_id = none;
    entity_ids = [];
    region_codes = [];
    age_groups = [];
    freshness_score = 0;
    importance_score = 0;
    connected = none;
  };
  score = score;
  eligible_types = Selection.major ∷ [];
  reason_codes = [];
}

-- Three issues of one topic.
abbrev pub rents : List (Candidate ℕ)
rents = candidate "i1" "rent" 50 ∷ candidate "i2" "rent" 60 ∷ candidate "i3" "rent" 40 ∷ []

abbrev pub new_session : RunState
new_session = record {
  last_topic = none;
  last_representative_entity_id = none;
  topic_run = 0;
  entity_run = 0;
}

abbrev pub unused : Budget
unused = record { transitions = 0; proposals = 0; cut = false }

abbrev pub shown : Candidate ℕ → Selected ℕ
shown c = record { candidate = c; selected_type = Selection.major }

abbrev pub batch : List (Selected ℕ)
batch = shown (candidate "i2" "rent" 60) ∷ shown (candidate "i1" "rent" 50) ∷ []

abbrev pub after_batch : RunState
after_batch = record {
  last_topic = some "rent";
  last_representative_entity_id = none;
  topic_run = 2;
  entity_run = 0;
}

batch_chosen :
    greedy_order numbers rents [] new_session unused 2000
    ≡ (batch, after_batch, record { transitions = 6; proposals = 0; cut = false })
unfolding greedy_order fill inspect consider type_for select_greedy_type priority_of keep_better
    precedes is_quota_available increment_quota can_append can_append_signature advance_run_state
    advance_run_state_signature compare_candidate sort
batch_chosen = refl

greedy_order-FeedOrder_example :
    let r = greedy_order numbers rents [] new_session unused 2000 in
    FeedOrder numbers rents [] new_session r.0 r.1
greedy_order-FeedOrder_example = greedy_order-FeedOrder numbers rents [] new_session unused 2000

greedy_order-transitions_example :
    (greedy_order numbers rents [] new_session unused 2000).2.transitions ≤ 2000
greedy_order-transitions_example =
    greedy_order-transitions numbers rents [] new_session unused 2000 (omega arith)

stops_uncut : (greedy_order numbers rents [] new_session unused 2000).2.cut ≡ false
stops_uncut = rw batch_chosen refl

stops_short : length (greedy_order numbers rents [] new_session unused 2000).0 < batch_size
stops_short = rw batch_chosen (omega arith)

left_out :
    is_chosen numbers
      (greedy_order numbers rents [] new_session unused 2000).0
      (candidate "i3" "rent" 40)
    ≡ false
left_out = rw batch_chosen refl

has_types : Selection.major ∷ [] ≢ []
has_types e = absurd (cc)

greedy_order-Stuck_example :
    can_append
      (candidate "i3" "rent" 40).issue
      (greedy_order numbers rents [] new_session unused 2000).1
    ≡ false
greedy_order-Stuck_example =
    greedy_order-Stuck numbers rents [] new_session unused 2000 stops_uncut stops_short
      (candidate "i3" "rent" 40) (Memᴰ.tail (Memᴰ.tail (Memᴰ.head refl))) left_out has_types

greedy_order-no_three_example :
    let feed = [] ++ batch_issues (greedy_order numbers rents [] new_session unused 2000).0 in
    (has_three (topics_of feed) ≡ false) × (has_three (entities_of feed) ≡ false)
greedy_order-no_three_example =
    greedy_order-no_three numbers new_session new_session [] rents [] unused 2000 refl
