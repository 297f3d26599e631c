-- ===== src/Limiter/Tests.antt =====
-- The rate limit on a small rule.
use newtine_backend.Prelude.{
  ℕ, ◌+◌, ◌*◌, ◌-◌, ◌≤◌, String, Option, none, true, false, [], ◌∷◌, length, ◌≡◌, refl, arith,
}
use newtine_backend.Prelude.Map.{get, set}
use newtine_backend.Prelude.Result.{ok}
use newtine_backend.Prelude.Text.{is_blank}
use newtine_backend.Limiter.Store.{
  Rule, TokenBucket, Decision, RateStore, full_bucket, is_allowed, spend_token, decision_of,
  wait_seconds, state_key, cleanup, evict_if_full, oldest, consume,
}
use newtine_backend.Limiter.Middleware.{Options, Request, Reply, limit_request}
use newtine_backend.Limiter.Environment.{
  rule, overrides_for, read_positive_integer, read_non_negative_integer, create_rate_limit_options,
}
use newtine_backend.Limiter.Configured.{limit_request-answers}
use newtine_backend.Limiter.Laws.{admitted, admitted-le, retry_after-margin, consume-fits}

abbrev two_a_second : Rule
two_a_second = record { name = "feed-ip"; max_requests = 2; window_ms = 1000 }

admitted-le_example :
    admitted two_a_second (full_bucket two_a_second 0) (0 ∷ 10 ∷ 20 ∷ 600 ∷ []) * 1000
    ≤ 2000 + (600 - 0) * 2
admitted-le_example =
    admitted-le two_a_second (full_bucket two_a_second 0) (0 ∷ 10 ∷ 20 ∷ 600 ∷ []) 600
      (omega arith, (omega arith, (omega arith, (omega arith, tt)))) (omega arith)

abbrev empty_bucket : TokenBucket
empty_bucket = record { parts = 40; updated_at = 20; last_seen_at = 20 }

-- What the refusal leaves, one part short.
abbrev rounded_bucket : TokenBucket
rounded_bucket = record { parts = 59; updated_at = 30; last_seen_at = 30 }

loses : (spend_token two_a_second empty_bucket 30).parts ≤ rounded_bucket.parts + 2
unfolding spend_token
loses = omega arith

waits :
    (spend_token two_a_second empty_bucket 30).updated_at
      + (decision_of
          (is_allowed two_a_second empty_bucket 30)
          two_a_second
          (spend_token two_a_second empty_bucket 30)).retry_after_seconds
        * 1000
      + 1
    ≤ 1031
unfolding decision_of wait_seconds spend_token
waits = omega arith

retry_after-margin_example : is_allowed two_a_second rounded_bucket 1031 ≡ true
unfolding spend_token
retry_after-margin_example =
    retry_after-margin two_a_second empty_bucket rounded_bucket 30 1031 (omega arith) refl refl
      loses waits

abbrev one_key : RateStore
one_key = record {
  states = (state_key two_a_second "ip:a", full_bucket two_a_second 5) ∷ [];
  max_keys = 1;
  idle_ttl_ms = 1000;
  last_cleanup_at = 0;
  evictions = 0;
}

abbrev evicted : Decision × RateStore
evicted = (
  record {
    allowed = true;
    limit = 2;
    remaining = 1;
    reset_after_seconds = 1;
    retry_after_seconds = 0;
  },
  record {
    states =
        (state_key two_a_second "ip:b", record { parts = 1000; updated_at = 10; last_seen_at = 10 })
        ∷ [];
    max_keys = 1;
    idle_ttl_ms = 1000;
    last_cleanup_at = 0;
    evictions = 1;
  },
)

evicts : consume two_a_second "ip:b" 10 one_key ≡ ok evicted
unfolding consume cleanup evict_if_full oldest spend_token decision_of wait_seconds get set is_blank
evicts = refl

consume-fits_example :
    (length evicted.1.states ≤ evicted.1.max_keys) × (evicted.1.max_keys ≡ one_key.max_keys)
consume-fits_example =
    consume-fits two_a_second "ip:b" 10 one_key evicted (omega arith) (omega arith) evicts

-- An environment that sets nothing.
abbrev no_env : String → Option String
no_env name = none

abbrev no_number : String → Option ℕ
no_number text = none

abbrev default_options : Options
default_options = record {
  global = rule "global-ip" 120 60000;
  overrides = overrides_for no_number no_env 10 20 30 60 60000;
  account = rule "auth-account" 5 60000;
  max_keys = 10000;
  idle_ttl_ms = 120000;
  trust_proxy_hops = 0;
}

defaults : create_rate_limit_options no_number no_env ≡ ok default_options
unfolding create_rate_limit_options read_positive_integer read_non_negative_integer
defaults = refl

abbrev sign_in : Request
sign_in = record {
  is_health = false;
  client_key = "ip:a";
  route_key = "POST /api/auth/login";
  account_key = none;
}

limit_request-answers_example :
    (q : Reply × RateStore) × (limit_request default_options sign_in 10 11 one_key ≡ ok q)
limit_request-answers_example =
    limit_request-answers no_number no_env default_options sign_in 10 11 one_key defaults
