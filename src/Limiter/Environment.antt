-- ===== src/Limiter/Environment.antt =====
-- apps/api/src/common/middleware/rateLimit.options.ts: the rules that the environment sets. How the
-- runtime reads a number is a parameter: `number_of` gives an integer that is not negative, if the text
-- stands for one.
use newtine_backend.Prelude.{ℕ, String, Option, none, some, [], ◌∷◌, ltb, if◌then◌else◌}
use newtine_backend.Prelude.Map.{Map}
use newtine_backend.Prelude.Result.{Result, ok, err, ◌>>=◌}
use newtine_backend.Prelude.Text.{is_blank, trim}
use newtine_backend.Limiter.Store.{Rule, RateError, max_safe_integer, is_not_positive}
use newtine_backend.Limiter.Middleware.{Options}

abbrev pub rule : String → ℕ → ℕ → Rule
rule name max_requests window_ms = record {
  name = name;
  max_requests = max_requests;
  window_ms = window_ms;
}

module _ (number_of : String → Option ℕ) (env : String → Option String) where
  -- The value, unless it is not a safe integer or below the least one.
  abbrev pub at_least_one : Option ℕ → Result RateError ℕ
  at_least_one none = err RateError.range_error
  at_least_one (some n) = if is_not_positive n then err RateError.range_error else ok n

  abbrev pub at_least_zero : Option ℕ → Result RateError ℕ
  at_least_zero none = err RateError.range_error
  at_least_zero (some n) = if ltb max_safe_integer n then err RateError.range_error else ok n

  abbrev pub value_or : (Option ℕ → Result RateError ℕ) → Option String → ℕ → Result RateError ℕ
  value_or check none default = ok default
  value_or check (some raw) default =
      if is_blank raw then ok default else check (number_of (trim raw))

  unfoldable pub read_positive_integer : String → ℕ → Result RateError ℕ
  read_positive_integer name default = value_or at_least_one (env name) default

  unfoldable pub read_non_negative_integer : String → ℕ → Result RateError ℕ
  read_non_negative_integer name default = value_or at_least_zero (env name) default

  -- The rules by route, from the limits for sign-in, refresh, feed and search.
  abbrev pub overrides_for : ℕ → ℕ → ℕ → ℕ → ℕ → Map Rule
  overrides_for auth refresh feed search_limit window =
      ("POST /api/auth/signup", rule "auth-ip" auth window)
      ∷ ("POST /api/auth/login", rule "auth-ip" auth window)
      ∷ ("POST /api/auth/logout", rule "auth-ip" auth window)
      ∷ ("POST /api/auth/withdraw", rule "auth-ip" auth window)
      ∷ ("POST /api/auth/refresh", rule "refresh-ip" refresh window)
      ∷ ("GET /api/feed", rule "feed-ip" feed window)
      ∷ ("POST /api/issues/search", rule "search-ip" search_limit window)
      ∷ []

  -- `createRateLimitOptions`. The source reads the limit for sign-in once for each of its routes.
  unfoldable pub create_rate_limit_options : Result RateError Options
  create_rate_limit_options = read_positive_integer "RATE_LIMIT_WINDOW_MS" 60000 >>= λ window.
      read_positive_integer "RATE_LIMIT_MAX_REQUESTS" 120 >>= λ most.
      read_positive_integer "RATE_LIMIT_AUTH_MAX_REQUESTS" 10 >>= λ auth.
      read_positive_integer "RATE_LIMIT_REFRESH_MAX_REQUESTS" 20 >>= λ refresh.
      read_positive_integer "RATE_LIMIT_FEED_MAX_REQUESTS" 30 >>= λ feed.
      read_positive_integer "RATE_LIMIT_SEARCH_MAX_REQUESTS" 60 >>= λ search_limit.
      read_positive_integer "RATE_LIMIT_AUTH_ACCOUNT_MAX_REQUESTS" 5 >>= λ account.
      read_positive_integer "RATE_LIMIT_MAX_KEYS" 10000 >>= λ max_keys.
      read_positive_integer "RATE_LIMIT_IDLE_TTL_MS" 120000 >>= λ idle_ttl.
      read_non_negative_integer "RATE_LIMIT_TRUST_PROXY_HOPS" 0 >>= λ hops. ok (record {
        global = rule "global-ip" most window;
        overrides = overrides_for auth refresh feed search_limit window;
        account = rule "auth-account" account window;
        max_keys = max_keys;
        idle_ttl_ms = idle_ttl;
        trust_proxy_hops = hops;
      })
