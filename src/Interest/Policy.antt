-- ===== src/Interest/Policy.antt =====
-- libs/core/src/interest/interest.policy.ts. Scores of reading time are counted in halves. A `number`
-- of milliseconds is an integer or not finite; fractions are left out.
use newtine_backend.Prelude.{
  ℕ, zero, suc, ◌+◌, ◌-◌, min, Option, none, some, leb, ltb, if◌then◌else◌,
}

-- `pos n` is n, `negsuc n` is -(n + 1).
pub data ℤ : Type 0 where
  pos negsuc : ℕ → ℤ

-- `m - n`
abbrev pub ℕ_sub : ℕ → ℕ → ℤ
ℕ_sub m n = if ltb m n then negsuc (n - m - 1) else pos (m - n)

abbrev pub negate : ℤ → ℤ
negate (pos zero) = pos 0
negate (pos (suc n)) = negsuc n
negate (negsuc n) = pos (n + 1)

infixl 65 ◌+ℤ◌
abbrev pub ◌+ℤ◌ : ℤ → ℤ → ℤ
pos m +ℤ pos n = pos (m + n)
pos m +ℤ negsuc n = ℕ_sub m (n + 1)
negsuc m +ℤ pos n = ℕ_sub n (m + 1)
negsuc m +ℤ negsuc n = negsuc (m + n + 1)

-- `InterestEventType`
pub data Action : Type 0 where
  like skip pass : Action

unfoldable pub action_score : Option Action → ℤ
action_score (some like) = pos 2
action_score (some skip) = negsuc 2
action_score (some pass) = pos 0
action_score none = pos 0

unfoldable pub action_delta : Option Action → Action → ℤ
unfolding action_score
action_delta previous next = action_score (some next) +ℤ negate (action_score previous)

pub data Milliseconds : Type 0 where
  finite : ℤ → Milliseconds
  not_finite : Milliseconds

-- `Math.max(0, Number.isFinite(value) ? value : 0)`
abbrev pub counted : Milliseconds → ℕ
counted (finite (pos n)) = n
counted (finite (negsuc n)) = 0
counted not_finite = 0

-- In halves: 0, 0.5 or 1.
unfoldable pub detail_dwell_score : ℕ → ℕ
detail_dwell_score active = if leb 30000 active then 2 else if leb 10000 active then 1 else 0

pub record Contribution : Type 0 where
  pub credited : ℕ
  pub dwell_score : ℕ

unfoldable pub detail_dwell_contribution : Milliseconds → Milliseconds → Milliseconds → Contribution
unfolding detail_dwell_score
detail_dwell_contribution stored current accepted =
    let credited = min 30000 (counted stored + (counted accepted - counted current)) in
    record { credited = credited; dwell_score = detail_dwell_score credited }
