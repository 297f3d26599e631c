-- ===== src/Limiter/Middleware.antt =====
-- `createRateLimitMiddleware` and `createAuthAccountRateLimitMiddleware` of
-- apps/api/src/common/middleware/rateLimit.middleware.ts, on what they read of a request: the key of
-- its client, its route, and the key of the account that it names.
use newtine_backend.Prelude.{ℕ, String, Bool, Option, none, some, if◌then◌else◌}
use newtine_backend.Prelude.Map.{Map, get}
use newtine_backend.Prelude.Result.{Result, ok, ◌>>=◌}
use newtine_backend.Limiter.Store.{Rule, Decision, RateStore, RateError, consume}

-- `RateLimitOptions`
pub record Options : Type 0 where
  pub global : Rule
  pub overrides : Map Rule
  pub account : Rule
  pub max_keys : ℕ
  pub idle_ttl_ms : ℕ
  pub trust_proxy_hops : ℕ

-- `isHealthRequest`, `ip:${resolveClientIp(request)}`, `routeKey` and `resolveAuthAccountKey`.
pub record Request : Type 0 where
  pub is_health : Bool
  pub client_key : String
  pub route_key : String
  pub account_key : Option String

-- `next()`, or the response 429 with a decision.
pub data Reply : Type 0 where
  pass : Reply
  too_many : Decision → Reply

abbrev pub reply_to : Decision → Reply
reply_to d = if d.allowed then Reply.pass else Reply.too_many d

abbrev pub check_override :
    Option Rule → String → ℕ → RateStore → Result RateError (Reply × RateStore)
check_override none key now s = ok (Reply.pass, s)
check_override (some r) key now s = consume r key now s >>= λ q. ok (reply_to q.0, q.1)

-- The early middleware: the second time is that of the second look at the clock.
unfoldable pub limit_request :
    Options → Request → ℕ → ℕ → RateStore → Result RateError (Reply × RateStore)
limit_request o request now later s =
    if request.is_health
    then ok (Reply.pass, s)
    else consume o.global request.client_key now s >>= λ p.
        if p.0.allowed
        then check_override (get request.route_key o.overrides) request.client_key later p.1
        else ok (Reply.too_many p.0, p.1)

abbrev pub check_account :
    Rule → Option String → ℕ → RateStore → Result RateError (Reply × RateStore)
check_account r none now s = ok (Reply.pass, s)
check_account r (some key) now s = consume r key now s >>= λ q. ok (reply_to q.0, q.1)

-- The middleware for accounts.
unfoldable pub limit_account :
    Options → Request → ℕ → RateStore → Result RateError (Reply × RateStore)
limit_account o request now s = check_account o.account request.account_key now s
