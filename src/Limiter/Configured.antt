-- ===== src/Limiter/Configured.antt =====
-- A limit that is configured never throws.
use newtine_backend.Prelude.{
  ℕ, String, false, Option, none, some, nat_eq, string_eq, All, All-Memᴰ, ◌≡◌, refl, subst,
  Bool-cases, Option-cases, inl, inr,
}
use newtine_backend.Prelude.Map.{get, values, All-values, get-Memᴰ}
use newtine_backend.Prelude.Result.{ok, err, first_of_chain, ok-injective}
use newtine_backend.Prelude.Text.{is_blank, trim}
use newtine_backend.Limiter.Store.{
  Rule, Decision, RateStore, RateError, is_not_positive, assert_positive, assert_rule, state_key,
  cleanup, take_bucket, consume_from, consume,
}
use newtine_backend.Limiter.Middleware.{
  Options, Request, Reply, reply_to, check_override, limit_request,
}
use newtine_backend.Limiter.Environment.{
  at_least_one, value_or, read_positive_integer, read_non_negative_integer,
  create_rate_limit_options,
}

pub record IsRule (r : Rule) : Type 0 where
  pub named : is_blank r.name ≡ false
  pub some_requests : is_not_positive r.max_requests ≡ false
  pub some_window : is_not_positive r.window_ms ≡ false

at_least_one-positive :
    (number_of : String → Option ℕ) (env : String → Option String) (n : Option ℕ) (v : ℕ)
    → at_least_one number_of env n ≡ ok v
    → is_not_positive v ≡ false
at_least_one-positive number_of env none v h = absurd (cc)
at_least_one-positive number_of env (some n) v h = elim (Bool-cases (is_not_positive n)) [
  | inl e ↦ let failed : err RateError.range_error ≡ ok v = rw e at h in absurd (cc)
  | inr e ↦
      let same : n ≡ v = ok-injective n v (rw e at h) in
      subst (λ x. is_not_positive x ≡ false) same e
]

value_or-positive :
    (number_of : String → Option ℕ) (env : String → Option String) (raw : Option String) (d v : ℕ)
    → is_not_positive d ≡ false
    → value_or number_of env (at_least_one number_of env) raw d ≡ ok v
    → is_not_positive v ≡ false
value_or-positive number_of env none d v positive h =
    subst (λ x. is_not_positive x ≡ false) (ok-injective d v h) positive
value_or-positive number_of env (some raw) d v positive h = elim (Bool-cases (is_blank raw)) [
  | inl e ↦ subst (λ x. is_not_positive x ≡ false) (ok-injective d v (rw e at h)) positive
  | inr e ↦ at_least_one-positive number_of env (number_of (trim raw)) v (rw e at h)
]

read_positive_integer-positive :
    (number_of : String → Option ℕ) (env : String → Option String) (name : String) (d v : ℕ)
    → is_not_positive d ≡ false
    → read_positive_integer number_of env name d ≡ ok v
    → is_not_positive v ≡ false
unfolding read_positive_integer
read_positive_integer-positive number_of env name d v positive h =
    value_or-positive number_of env (env name) d v positive h

-- Every rule of the options can be applied.
pub record IsConfigured (o : Options) : Type 0 where
  pub global_rule : IsRule o.global
  pub override_rules : All (λ e. IsRule e.1) o.overrides
  pub account_rule : IsRule o.account
  pub some_keys : is_not_positive o.max_keys ≡ false
  pub some_ttl : is_not_positive o.idle_ttl_ms ≡ false

create_rate_limit_options-IsConfigured :
    (number_of : String → Option ℕ) (env : String → Option String) (o : Options)
    → create_rate_limit_options number_of env ≡ ok o
    → IsConfigured o
unfolding create_rate_limit_options is_blank
create_rate_limit_options-IsConfigured number_of env o h =
    let positive = read_positive_integer-positive number_of env in
    let (window, h1, r1) =
      first_of_chain (read_positive_integer number_of env "RATE_LIMIT_WINDOW_MS" 60000) _ o h in
    let (most, h2, r2) =
      first_of_chain (read_positive_integer number_of env "RATE_LIMIT_MAX_REQUESTS" 120) _ o h1 in
    let (auth, h3, r3) =
      first_of_chain (read_positive_integer number_of env "RATE_LIMIT_AUTH_MAX_REQUESTS" 10) _ o
        h2 in
    let (refresh, h4, r4) =
      first_of_chain (read_positive_integer number_of env "RATE_LIMIT_REFRESH_MAX_REQUESTS" 20) _ o
        h3 in
    let (feed, h5, r5) =
      first_of_chain (read_positive_integer number_of env "RATE_LIMIT_FEED_MAX_REQUESTS" 30) _ o
        h4 in
    let (found, h6, r6) =
      first_of_chain (read_positive_integer number_of env "RATE_LIMIT_SEARCH_MAX_REQUESTS" 60) _ o
        h5 in
    let (account, h7, r7) =
      first_of_chain (read_positive_integer number_of env "RATE_LIMIT_AUTH_ACCOUNT_MAX_REQUESTS" 5)
        _ o h6 in
    let (max_keys, h8, r8) =
      first_of_chain (read_positive_integer number_of env "RATE_LIMIT_MAX_KEYS" 10000) _ o h7 in
    let (ttl, h9, r9) =
      first_of_chain (read_positive_integer number_of env "RATE_LIMIT_IDLE_TTL_MS" 120000) _ o h8 in
    let (hops, last, r10) =
      first_of_chain (read_non_negative_integer number_of env "RATE_LIMIT_TRUST_PROXY_HOPS" 0) _ o
        h9 in
    let w = positive "RATE_LIMIT_WINDOW_MS" 60000 window refl r1 in
    let a = positive "RATE_LIMIT_AUTH_MAX_REQUESTS" 10 auth refl r3 in
    let sign_in : IsRule (record { name = "auth-ip"; max_requests = auth; window_ms = window }) =
      record { named = refl; some_requests = a; some_window = w } in
    let same = ok-injective _ o last in
    subst IsConfigured same (record {
      global_rule = record {
        named = refl;
        some_requests = positive "RATE_LIMIT_MAX_REQUESTS" 120 most refl r2;
        some_window = w;
      };
      override_rules = (
        sign_in,
        (
          sign_in,
          (
            sign_in,
            (
              sign_in,
              (
                record {
                  named = refl;
                  some_requests = positive "RATE_LIMIT_REFRESH_MAX_REQUESTS" 20 refresh refl r4;
                  some_window = w;
                },
                (
                  record {
                    named = refl;
                    some_requests = positive "RATE_LIMIT_FEED_MAX_REQUESTS" 30 feed refl r5;
                    some_window = w;
                  },
                  (
                    record {
                      named = refl;
                      some_requests = positive "RATE_LIMIT_SEARCH_MAX_REQUESTS" 60 found refl r6;
                      some_window = w;
                    },
                    tt,
                  ),
                ),
              ),
            ),
          ),
        ),
      );
      account_rule = record {
        named = refl;
        some_requests = positive "RATE_LIMIT_AUTH_ACCOUNT_MAX_REQUESTS" 5 account refl r7;
        some_window = w;
      };
      some_keys = positive "RATE_LIMIT_MAX_KEYS" 10000 max_keys refl r8;
      some_ttl = positive "RATE_LIMIT_IDLE_TTL_MS" 120000 ttl refl r9;
    })

assert_positive-ok : (n : ℕ) → is_not_positive n ≡ false → assert_positive n ≡ ok tt
assert_positive-ok n positive = rw positive refl

assert_rule-ok : (r : Rule) → IsRule r → assert_rule r ≡ ok tt
assert_rule-ok r valid =
    rw
      (
        valid.named,
        assert_positive-ok r.max_requests valid.some_requests,
        assert_positive-ok r.window_ms valid.some_window,
      )
      refl

consume-ok :
    (r : Rule) (key : String) (now : ℕ) (s : RateStore)
    → IsRule r
    → (p : Decision × RateStore) × (consume r key now s ≡ ok p)
unfolding consume
consume-ok r key now s valid =
    let k : String = state_key r key in
    let s' : RateStore = cleanup now s in
    (
      consume_from r k now (take_bucket r k now s' (get k s'.states)),
      rw (assert_rule-ok r valid) refl,
    )

check_override-ok :
    (o : Options) (route key : String) (now : ℕ) (s : RateStore)
    → IsConfigured o
    → (q : Reply × RateStore) × (check_override (get route o.overrides) key now s ≡ ok q)
check_override-ok o route key now s valid = elim (Option-cases (get route o.overrides)) [
  | inl e ↦ ((Reply.pass, s), rw e refl)
  | inr (r, e) ↦
      let r_valid =
        All-Memᴰ IsRule (values o.overrides) (All-values IsRule o.overrides valid.override_rules)
          (get-Memᴰ route o.overrides r e) in
      let (p, consumed) = consume-ok r key now s r_valid in
      ((reply_to p.0, p.1), rw (e, consumed) refl)
]

-- With the options that `createRateLimitOptions` makes of an environment that it accepts, the
-- middleware answers every request: it never throws.
pub limit_request-answers :
    (number_of : String → Option ℕ) (env : String → Option String) (o : Options)
    → (request : Request) (now later : ℕ) (s : RateStore)
    → create_rate_limit_options number_of env ≡ ok o
    → (q : Reply × RateStore) × (limit_request o request now later s ≡ ok q)
unfolding limit_request
limit_request-answers number_of env o request now later s h =
    let valid = create_rate_limit_options-IsConfigured number_of env o h in
    let (p, consumed) = consume-ok o.global request.client_key now s valid.global_rule in
    elim (Bool-cases request.is_health) [
      | inl e ↦ ((Reply.pass, s), rw e refl)
      | inr e ↦ elim (Bool-cases p.0.allowed) [
        | inr refused ↦ ((Reply.too_many p.0, p.1), rw (e, consumed, refused) refl)
        | inl passed ↦
            let (q, checked) =
              check_override-ok o request.route_key request.client_key later p.1 valid in
            (q, rw (e, consumed, passed) checked)
      ]
    ]
