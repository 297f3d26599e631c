-- ===== src/Limiter/Laws.antt =====
-- What the rate limit promises: how many requests a bucket admits, that a refused client is served
-- after the time that it is told, and how many buckets are kept. The source rounds its tokens, so that
-- the time is stated with a millisecond more, which stands for more than the rounding takes.
use native.Mathlib.Nat.{add-mul, mul-le-mul_right, mul_assoc, div-add-mod, mod-lt, mul_comm}
use newtine_backend.Prelude.{
  some-injective, ◌||◌, ℕ, suc, ◌+◌, ◌-◌, ◌*◌, ◌/◌, ◌≤◌, min, max, String, true, false, not, Option,
  none, some, List, [], ◌∷◌, length, length-keep-le, All, ltb, leb, ◌==◌, nat_eq, string_eq,
  if◌then◌else◌, if-cases, ◌≡◌, ◌⊎◌, refl, sym, ap, ◌∙◌, subst, Bool-cases, Option-cases, inl, inr,
  ==_refl, arith,
}
use newtine_backend.Prelude.Map.{Map, get, set}
use newtine_backend.Prelude.Result.{ok, first_of_chain, ok-injective}
use newtine_backend.Limiter.Store.{
  Rule, TokenBucket, Decision, RateStore, delete, cleanup, is_older, oldest, evict_if_full,
  refilled, is_allowed, spend_token, ceil_div, wait_seconds, decision_of, state_key,
  cleanup_interval, assert_rule, take_bucket, consume_from, consume,
}

-- How many calls at the given times the bucket admits.
abbrev pub admitted : Rule → TokenBucket → List ℕ → ℕ
admitted r b [] = 0
admitted r b (t ∷ ts) = (if is_allowed r b t then 1 else 0) + admitted r (spend_token r b t) ts

-- One call: what it takes is no more than there was and what came in.
spend_token-parts :
    (r : Rule) (b : TokenBucket) (t : ℕ)
    → (if is_allowed r b t then 1 else 0) * r.window_ms + (spend_token r b t).parts
      ≤ b.parts + (max t b.updated_at - b.updated_at) * r.max_requests
unfolding spend_token
spend_token-parts r b t = elim (Bool-cases (is_allowed r b t)) [
  | inl e ↦
      let enough : r.window_ms ≤ refilled r b t = ground (arith, e) in
      rw e (
        omega (
          arith,
          enough,
          min_le (r.max_requests * r.window_ms)
              (b.parts + (max t b.updated_at - b.updated_at) * r.max_requests),
        ))
  | inr e ↦ rw e (
      omega (
        arith,
        min_le (r.max_requests * r.window_ms)
            (b.parts + (max t b.updated_at - b.updated_at) * r.max_requests),
      ))
]
  where
    min_le : (a c : ℕ) → min a c ≤ c
    min_le a c = omega arith

-- Over calls at times up to `until`, the tokens that a bucket gives out are no more than it held and
-- what the rate gives in that time: `n` requests take `n * windowMs` parts, and a millisecond brings
-- `maxRequests`.
pub admitted-le :
    (r : Rule) (b : TokenBucket) (ts : List ℕ) (until : ℕ)
    → All (λ t. t ≤ until) ts
    → b.updated_at ≤ until
    → admitted r b ts * r.window_ms ≤ b.parts + (until - b.updated_at) * r.max_requests
unfolding spend_token
admitted-le r b [] until before past = omega arith
admitted-le r b (t ∷ ts) until before past =
    let m = r.max_requests in
    let now : ℕ = max t b.updated_at in
    let one : ℕ = if is_allowed r b t then 1 else 0 in
    let step = spend_token-parts r b t in
    let rest =
      admitted-le r (spend_token r b t) ts until before.1 (omega (arith, before.0, past)) in
    let split : (until - b.updated_at) * m ≡ (until - now) * m + (now - b.updated_at) * m =
      ap (λ x. x * m) (omega (arith, before.0, past))
      ∙ add-mul (until - now) (now - b.updated_at) m in
    let served = add-mul one (admitted r (spend_token r b t) ts) r.window_ms in
    omega (arith, step, rest, split, served)

ceil_div-mul : (a d : ℕ) → 1 ≤ d → a ≤ ceil_div a d * d
ceil_div-mul a d positive =
    let whole = div-add-mod (a + (d - 1)) d in
    let small = mod-lt (a + (d - 1)) {m = d} (omega (arith, positive)) in
    let swap = mul_comm d ((a + (d - 1)) / d) in omega (arith, whole, small, swap, positive)

-- Where a call is refused, a call later than `retryAfterSeconds` by a millisecond or more is admitted,
-- also from a bucket that holds less than the refusal left, by no more than what a millisecond brings.
pub retry_after-margin :
    (r : Rule) (b b' : TokenBucket) (now later : ℕ)
    → 1 ≤ r.max_requests
    → is_allowed r b now ≡ false
    → b'.updated_at ≡ (spend_token r b now).updated_at
    → (spend_token r b now).parts ≤ b'.parts + r.max_requests
    → (spend_token r b now).updated_at
        + (decision_of (is_allowed r b now) r (spend_token r b now)).retry_after_seconds * 1000
        + 1
      ≤ later
    → is_allowed r b' later ≡ true
unfolding decision_of wait_seconds spend_token
retry_after-margin r b b' now later positive refused same_time kept waited =
    let m = r.max_requests in
    let w = r.window_ms in
    let left = refilled r b now in
    let seconds : ℕ = max 1 (ceil_div (max m (w - left)) (m * 1000)) in
    let u : ℕ = max now b.updated_at in
    let kept' : left ≤ b'.parts + m = rw refused at kept in
    let long : u + seconds * 1000 + 1 ≤ later = rw refused at waited in
    let elapsed : seconds * 1000 + 1 ≤ max later b'.updated_at - b'.updated_at =
      omega (arith, long, same_time) in
    let brought = mul-le-mul_right m elapsed in
    let split = add-mul (seconds * 1000) 1 m in
    let same : seconds * 1000 * m ≡ seconds * (m * 1000) =
      mul_assoc seconds 1000 m ∙ ap (λ x. seconds * x) (mul_comm 1000 m) in
    let at_least =
      mul-le-mul_right {m = ceil_div (max m (w - left)) (m * 1000)} {n = seconds} (m * 1000)
        (omega arith) in
    let rounded = ceil_div-mul (max m (w - left)) (m * 1000) (omega (arith, positive)) in
    let capacity : w ≤ m * w = omega (arith, mul-le-mul_right w positive) in
    let enough : w ≤ b'.parts + (max later b'.updated_at - b'.updated_at) * m =
      omega (arith, brought, split, same, at_least, rounded, kept') in
    ground (arith, capacity, enough)

length-set-le :
    (key : String) (b : TokenBucket) (m : Map TokenBucket) → length (set key b m) ≤ suc (length m)
unfolding set
length-set-le key b [] = omega arith
length-set-le key b ((k, v) ∷ m) = ground (arith, length-set-le key b m)

length-delete :
    (key : String) (m : Map TokenBucket) {b : TokenBucket}
    → get key m ≡ some b
    → suc (length (delete key m)) ≤ length m
unfolding get
length-delete key [] h = absurd (cc)
length-delete key ((k, v) ∷ m) {b} h = elim (Bool-cases (k == key)) [
  | inl e ↦ rw e (omega (arith, length-keep-le (λ p. not (p.0 == key)) m))
  | inr e ↦ rw e (omega (arith, length-delete key m {b = b} (rw e at h)))
]

-- The store has a bucket under the key.
abbrev HasBucket : String → Map TokenBucket → Type 0
HasBucket key m = (b : TokenBucket) × (get key m ≡ some b)

HasBucket-later :
    (key k : String) (v : TokenBucket) (m : Map TokenBucket)
    → HasBucket key m
    → HasBucket key ((k, v) ∷ m)
unfolding get
HasBucket-later key k v m (b, h) = elim (Bool-cases (k == key)) [
  | inl e ↦ (v, rw e refl)
  | inr e ↦ (b, rw e h)
]

HasBucket-here : (k : String) (v : TokenBucket) (m : Map TokenBucket) → HasBucket k ((k, v) ∷ m)
unfolding get
HasBucket-here k v m = (v, rw (==_refl k) refl)

oldest-HasBucket :
    (found : Option (String × ℕ)) (m : Map TokenBucket) (o : String × ℕ)
    → oldest found m ≡ some o
    → (found ≡ some o) ⊎ HasBucket o.0 m
unfolding oldest
oldest-HasBucket found [] o h = inl h
oldest-HasBucket found ((k, v) ∷ m) o h = elim (Bool-cases (is_older v found)) [
  | inl e ↦ elim (oldest-HasBucket (some (k, v.last_seen_at)) m o (rw e at h)) [
    | inl q ↦
        let first : String × ℕ = (k, v.last_seen_at) in
        let same = ap (λ p. p.0) (some-injective first o q) in
        inr (subst (λ j. HasBucket j ((k, v) ∷ m)) same (HasBucket-here k v m))
    | inr q ↦ inr (HasBucket-later o.0 k v m q)
  ]
  | inr e ↦ elim (oldest-HasBucket found m o (rw e at h)) [
    | inl q ↦ inl q
    | inr q ↦ inr (HasBucket-later o.0 k v m q)
  ]
]

oldest-some :
    (p : String × ℕ) (m : Map TokenBucket) → (o : String × ℕ) × (oldest (some p) m ≡ some o)
unfolding oldest
oldest-some p [] = (p, refl)
oldest-some p ((k, v) ∷ m) = elim (Bool-cases (is_older v (some p))) [
  | inl e ↦ let (o, q) = oldest-some (k, v.last_seen_at) m in (o, rw e q)
  | inr e ↦ let (o, q) = oldest-some p m in (o, rw e q)
]

oldest-none : (m : Map TokenBucket) → oldest none m ≡ none → length m ≡ 0
unfolding oldest
oldest-none [] h = refl
oldest-none ((k, v) ∷ m) h =
    let (o, found) = oldest-some (k, v.last_seen_at) m in absurd (cc (found, h))

-- Room for one more bucket is made where there is none.
evict_if_full-room :
    (s : RateStore)
    → 1 ≤ s.max_keys
    → length s.states ≤ s.max_keys
    → (suc (length (evict_if_full s).states) ≤ s.max_keys)
      × ((evict_if_full s).max_keys ≡ s.max_keys)
unfolding evict_if_full
evict_if_full-room s positive fits = elim (Bool-cases (ltb (length s.states) s.max_keys)) [
  | inl e ↦ rw e (ground (arith, e), refl)
  | inr e ↦ elim (Option-cases (oldest none s.states)) [
    | inl q ↦ rw (e, q) (omega (arith, oldest-none s.states q, positive), refl)
    | inr (o, q) ↦ elim (oldest-HasBucket none s.states o q) [
      | inl impossible ↦ absurd (cc)
      | inr (b, there) ↦
          rw (e, q) (omega (arith, length-delete o.0 s.states {b = b} there, fits), refl)
    ]
  ]
]

cleanup-length :
    (now : ℕ) (s : RateStore)
    → (length (cleanup now s).states ≤ length s.states) × ((cleanup now s).max_keys ≡ s.max_keys)
unfolding cleanup
cleanup-length now s =
    if-cases (λ (t : RateStore). (length t.states ≤ length s.states) × (t.max_keys ≡ s.max_keys))
      (ltb now s.last_cleanup_at || ltb (now - s.last_cleanup_at) (cleanup_interval s)) s _
      (λ _. (omega arith, refl))
      (λ _. (length-keep-le (λ e. not (leb s.idle_ttl_ms (now - e.1.last_seen_at))) s.states, refl))

take_bucket-room :
    (r : Rule) (key : String) (now : ℕ) (s : RateStore)
    → 1 ≤ s.max_keys
    → length s.states ≤ s.max_keys
    → let p = take_bucket r key now s (get key s.states) in
      (suc (length p.1.states) ≤ s.max_keys) × (p.1.max_keys ≡ s.max_keys)
take_bucket-room r key now s positive fits = elim (Option-cases (get key s.states)) [
  | inl e ↦ rw e (evict_if_full-room s positive fits)
  | inr (b, e) ↦ rw e (omega (arith, length-delete key s.states {b = b} e, fits), refl)
]

-- However many clients come, the store keeps at most `maxKeys` buckets.
pub consume-fits :
    (r : Rule) (key : String) (now : ℕ) (s : RateStore) (p : Decision × RateStore)
    → 1 ≤ s.max_keys
    → length s.states ≤ s.max_keys
    → consume r key now s ≡ ok p
    → (length p.1.states ≤ p.1.max_keys) × (p.1.max_keys ≡ s.max_keys)
unfolding consume
consume-fits r key now s p positive fits h =
    let s' : RateStore = cleanup now s in
    let k : String = state_key r key in
    let (done, last, valid) = first_of_chain (assert_rule r) _ p h in
    let taken = take_bucket r k now s' (get k s'.states) in
    let same = ok-injective (consume_from r k now taken) p last in
    let (fewer, most) = cleanup-length now s in
    let (room, most') =
      take_bucket-room r k now s' (subst (λ n. 1 ≤ n) (sym most) positive)
        (omega (arith, fewer, most, fits)) in
    let grown = length-set-le k (spend_token r taken.0 now) taken.1.states in
    subst (λ q. (length q.1.states ≤ q.1.max_keys) × (q.1.max_keys ≡ s.max_keys)) same
      (omega (arith, grown, room, most', most), most' ∙ most)
