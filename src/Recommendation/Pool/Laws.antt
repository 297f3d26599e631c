-- ===== src/Recommendation/Pool/Laws.antt =====
-- The order that the memo of the pool search leads to.
use newtine_backend.Prelude.{
  ℕ, zero, suc, ◌+◌, true, not, ◌||◌, Option, none, some, some-injective, List, [], ◌∷◌, ◌≡◌, ◌⊎◌,
  inl, inr, refl, ap, subst, length, ◌==◌, nat_eq, option_eq, if◌then◌else◌, Bool-cases,
  Option-cases, arith,
}
use newtine_backend.Prelude.Map.{Map, get}
use newtine_backend.Recommendation.Types.{RunState}
use newtine_backend.Recommendation.Runs.{
  Signature, can_append_signature, advance_run_state_signature,
}
use newtine_backend.Recommendation.Pool.{
  Bucket, is_used_up, count_down, compressed_run_state_key, next_bucket, then_on, follow_memo,
  reconstruct_maximum_run_order,
}

-- The run rule admits the signatures one after another.
abbrev pub RunsOver : RunState → List Signature → Type 0
RunsOver s [] = Unit
RunsOver s (g ∷ gs) =
    (can_append_signature g s ≡ true) × RunsOver (advance_run_state_signature g s) gs

next_bucket-can_append :
    (memo : Map ℕ) (k : ℕ) (ks : List Bucket) (s : RunState) (rest : List Bucket) (index : ℕ)
    → (p : Bucket × List Bucket) → next_bucket memo k ks s rest index ≡ some p
    → can_append_signature p.0.signature s ≡ true
unfolding next_bucket
next_bucket-can_append memo k ks s [] index p h = absurd (cc)
next_bucket-can_append memo k ks s (d ∷ rest) index p h =
    elim (Bool-cases (d.remaining == 0 || not (can_append_signature d.signature s))) [
      | inl e ↦ next_bucket-can_append memo k ks s rest (index + 1) p (rw e at h)
      | inr e ↦
          let can : can_append_signature d.signature s ≡ true = ground (arith, e) in
          let suffix : Option ℕ =
            if is_used_up (count_down ks index d)
            then some 0
            else get
                (compressed_run_state_key (count_down ks index d)
                  (advance_run_state_signature d.signature s))
                memo in
          elim (Bool-cases (suffix == some k)) [
            | inl hit ↦
                let chosen : Bucket × List Bucket = (d, count_down ks index d) in
                let same = some-injective chosen p (rw hit at (rw e at h)) in
                subst (λ q. can_append_signature q.0.signature s ≡ true) same can
            | inr miss ↦
                next_bucket-can_append memo k ks s rest (index + 1) p (rw miss at (rw e at h))
          ]
    ]

abbrev IsOrder : ℕ → RunState → Option (List Signature) → Type 0
IsOrder k s none = Unit
IsOrder k s (some gs) = (length gs ≡ k) × RunsOver s gs

then_on-IsOrder :
    (k : ℕ) (s : RunState) (g : Signature) (o : Option (List Signature))
    → can_append_signature g s ≡ true
    → IsOrder k (advance_run_state_signature g s) o
    → IsOrder (suc k) s (then_on g o)
then_on-IsOrder k s g none can h = tt
then_on-IsOrder k s g (some gs) can h = (ap suc h.0, (can, h.1))

follow_memo-IsOrder :
    (memo : Map ℕ) (k : ℕ) (ks : List Bucket) (s : RunState) → IsOrder k s (follow_memo memo k ks s)
unfolding follow_memo
follow_memo-IsOrder memo zero ks s = (refl, tt)
follow_memo-IsOrder memo (suc k) ks s =
    elim (Bool-cases (get (compressed_run_state_key ks s) memo == some (suc k))) [
      | inr e ↦ rw (follow_memo, e) tt
      | inl e ↦ elim (Option-cases (next_bucket memo k ks s ks 0)) [
        | inl q ↦ rw (follow_memo, e, q) tt
        | inr (p, q) ↦
            rw (follow_memo, e, q)
              (then_on-IsOrder k s p.0.signature _ (next_bucket-can_append memo k ks s ks 0 p q)
                (follow_memo-IsOrder memo k p.1 (advance_run_state_signature p.0.signature s)))
      ]
    ]

-- Whatever the memo holds, `reconstructMaximumRunOrder` returns nothing or an order of just the
-- length asked for that the run rule admits from the state.
pub reconstruct_maximum_run_order-RunsOver :
    (ks : List Bucket) (s : RunState) (memo : Map ℕ) (most : ℕ)
    → let order = reconstruct_maximum_run_order ks s memo most in
      (order ≡ []) ⊎ ((length order ≡ most) × RunsOver s order)
unfolding reconstruct_maximum_run_order
reconstruct_maximum_run_order-RunsOver ks s memo most =
    elim (Option-cases (follow_memo memo most ks s)) [
      | inl e ↦ rw e (inl refl)
      | inr (gs, e) ↦ rw e (inr (subst (IsOrder most s) e (follow_memo-IsOrder memo most ks s)))
    ]
