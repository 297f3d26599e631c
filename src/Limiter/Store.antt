-- ===== src/Limiter/Store.antt =====
-- `InMemoryRateLimitStore` of apps/api/src/common/middleware/rateLimit.middleware.ts. Tokens are
-- counted in parts of which a window has as many as milliseconds: `parts` is `tokens * windowMs`, an
-- exact number, where the source computes `tokens` with double precision and rounds. Times are whole milliseconds.
use newtine_backend.Prelude.{
  ℕ, ◌+◌, ◌-◌, ◌*◌, ◌/◌, min, max, String, Bool, true, false, not, ◌||◌, Option, none, some, [],
  ◌∷◌, keep, length, ltb, leb, ◌==◌, nat_eq, string_eq, if◌then◌else◌,
}
use newtine_backend.Prelude.Map.{Map, get, set}
use newtine_backend.Prelude.Result.{Result, ok, err, ◌>>◌}
use newtine_backend.Prelude.Text.{append, is_blank}

-- `RateLimitRule`
pub record Rule : Type 0 where
  pub name : String
  pub max_requests : ℕ
  pub window_ms : ℕ

-- `BucketState`
pub record TokenBucket : Type 0 where
  pub parts : ℕ
  pub updated_at : ℕ
  pub last_seen_at : ℕ

-- `RateLimitDecision`
pub record Decision : Type 0 where
  pub allowed : Bool
  pub limit : ℕ
  pub remaining : ℕ
  pub reset_after_seconds : ℕ
  pub retry_after_seconds : ℕ

-- `InMemoryRateLimitStore`
pub record RateStore : Type 0 where
  pub states : Map TokenBucket
  pub max_keys : ℕ
  pub idle_ttl_ms : ℕ
  pub last_cleanup_at : ℕ
  pub evictions : ℕ

pub data RateError : Type 0 where
  range_error : RateError

-- `Number.MAX_SAFE_INTEGER`
abbrev pub max_safe_integer : ℕ
max_safe_integer = 9007199254740991

-- `!Number.isSafeInteger(value) || value <= 0`, of a natural number.
abbrev pub is_not_positive : ℕ → Bool
is_not_positive n = ltb max_safe_integer n || n == 0

-- `assertPositiveInteger`, on natural numbers.
abbrev pub assert_positive : ℕ → Result RateError (Unit {0})
assert_positive n = if is_not_positive n then err RateError.range_error else ok tt

abbrev pub assert_rule : Rule → Result RateError (Unit {0})
assert_rule r =
    (if is_blank r.name then err RateError.range_error else ok tt)
    >> assert_positive r.max_requests
    >> assert_positive r.window_ms

-- The constructor.
abbrev pub new_store : ℕ → ℕ → Result RateError RateStore
new_store max_keys idle_ttl_ms =
    assert_positive max_keys
    >> assert_positive idle_ttl_ms
    >> ok (record {
      states = [];
      max_keys = max_keys;
      idle_ttl_ms = idle_ttl_ms;
      last_cleanup_at = 0;
      evictions = 0;
    })

abbrev pub cleanup_interval : RateStore → ℕ
cleanup_interval s = max 1000 (min s.idle_ttl_ms 60000)

-- `states.delete(key)`
abbrev pub delete : String → Map TokenBucket → Map TokenBucket
delete key m = keep (λ e. not (e.0 == key)) m

-- `cleanup`
unfoldable pub cleanup : ℕ → RateStore → RateStore
cleanup now s =
    if ltb now s.last_cleanup_at || ltb (now - s.last_cleanup_at) (cleanup_interval s)
    then s
    else record s {
      states = keep (λ e. not (leb s.idle_ttl_ms (now - e.1.last_seen_at))) s.states;
      last_cleanup_at = now;
    }

-- `state.lastSeenAtMs < oldestAtMs`, where nothing found yet stands for infinity.
abbrev pub is_older : TokenBucket → Option (String × ℕ) → Bool
is_older b none = true
is_older b (some o) = ltb b.last_seen_at o.1

unfoldable pub oldest : Option (String × ℕ) → Map TokenBucket → Option (String × ℕ)
oldest found [] = found
oldest found ((key, b) ∷ m) =
    oldest (if is_older b found then some (key, b.last_seen_at) else found) m

abbrev pub evict : Option (String × ℕ) → RateStore → RateStore
evict none s = s
evict (some o) s = record s { states = delete o.0 s.states; evictions = s.evictions + 1 }

-- `evictIfFull`
unfoldable pub evict_if_full : RateStore → RateStore
unfolding oldest
evict_if_full s = if ltb (length s.states) s.max_keys then s else evict (oldest none s.states) s

abbrev pub full_bucket : Rule → ℕ → TokenBucket
full_bucket r now = record {
  parts = r.max_requests * r.window_ms;
  updated_at = now;
  last_seen_at = now;
}

-- `tokens`, at a time that is not before the last one.
abbrev pub refilled : Rule → TokenBucket → ℕ → ℕ
refilled r b now =
    min (r.max_requests * r.window_ms)
      (b.parts + (max now b.updated_at - b.updated_at) * r.max_requests)

-- `allowed`
abbrev pub is_allowed : Rule → TokenBucket → ℕ → Bool
is_allowed r b now = leb r.window_ms (refilled r b now)

-- What a call leaves in the bucket.
unfoldable pub spend_token : Rule → TokenBucket → ℕ → TokenBucket
spend_token r b now = record {
  parts = if is_allowed r b now then refilled r b now - r.window_ms else refilled r b now;
  updated_at = max now b.updated_at;
  last_seen_at = max now b.updated_at;
}

-- `Math.ceil(a / b)`
abbrev pub ceil_div : ℕ → ℕ → ℕ
ceil_div a b = (a + (b - 1)) / b

-- The seconds to wait: for a full bucket where the call is allowed, or for a token.
unfoldable pub wait_seconds : Bool → Rule → ℕ → ℕ
wait_seconds true r parts =
    max 1 (ceil_div (r.max_requests * r.window_ms - parts) (r.max_requests * 1000))
wait_seconds false r parts =
    max 1 (ceil_div (max r.max_requests (r.window_ms - parts)) (r.max_requests * 1000))

unfoldable pub decision_of : Bool → Rule → TokenBucket → Decision
unfolding wait_seconds
decision_of allowed r b = record {
  allowed = allowed;
  limit = r.max_requests;
  remaining = if allowed then b.parts / r.window_ms else 0;
  reset_after_seconds = wait_seconds allowed r b.parts;
  retry_after_seconds = if allowed then 0 else wait_seconds allowed r b.parts;
}

-- `${rule.name}\u0000${key}`
abbrev pub state_key : Rule → String → String
state_key r key = append r.name (append "\0" key)

-- The bucket that a call works on, and the store without it.
abbrev pub take_bucket :
    Rule → String → ℕ → RateStore → Option TokenBucket → TokenBucket × RateStore
take_bucket r key now s none = (full_bucket r now, evict_if_full s)
take_bucket r key now s (some b) = (b, record s { states = delete key s.states })

abbrev pub consume_from : Rule → String → ℕ → TokenBucket × RateStore → Decision × RateStore
consume_from r key now p = (
  decision_of (is_allowed r p.0 now) r (spend_token r p.0 now),
  record p.1 { states = set key (spend_token r p.0 now) p.1.states },
)

-- `consume`. A time is a finite number.
unfoldable pub consume : Rule → String → ℕ → RateStore → Result RateError (Decision × RateStore)
unfolding cleanup evict_if_full spend_token decision_of
consume r key now s =
    assert_rule r
    >> ok (
        let s' = cleanup now s in
        consume_from r (state_key r key) now
          (take_bucket r (state_key r key) now s' (get (state_key r key) s'.states)))
