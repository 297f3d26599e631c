-- ===== src/Prelude/Tests.antt =====
-- Boolean tests, the conditional, and `===` as an interface.
use Prim.Native.Nat.{ℕ, compare, Ordering}
use Prim.Native.String.{String}
use mathlib.Core.Path.{◌≡◌, refl}
use mathlib.Core.Logic.{◌↔◌, ◌⊎◌, inl, inr}
use mathlib.Core.Bool.{Bool, true, false}
use mathlib.Core.Option.{Option, none, some}
use native.Mathlib.Omega.{arith}
use text.Mathlib.Text.{◌==◌ as str_eq}
use text.Mathlib.TextEquality.{eq_iff}

abbrev pub ltb : ℕ → ℕ → Bool
ltb a b = elim (compare a b) [ Ordering.lt ↦ true | _ ↦ false ]

abbrev pub leb : ℕ → ℕ → Bool
leb a b = elim (compare a b) [ Ordering.gt ↦ false | _ ↦ true ]

abbrev nat_beq : ℕ → ℕ → Bool
nat_beq a b = elim (compare a b) [ Ordering.eq ↦ true | _ ↦ false ]

pub nat_beq_iff : (a b : ℕ) → (nat_beq a b ≡ true) ↔ (a ≡ b)
nat_beq_iff a b = ground arith

infix 1 if◌then◌else◌
abbrev pub if◌then◌else◌ {ℓ} : {A : Type ℓ} → Bool → A → A → A
if true then x else y = x
if false then x else y = y

pub Bool-cases : (b : Bool) → (b ≡ true) ⊎ (b ≡ false)
Bool-cases true = inl refl
Bool-cases false = inr refl

-- A property of a conditional, from that of each branch under its test.
pub if-cases {ℓ κ} :
    {A : Type ℓ} (P : A → Type κ) (b : Bool) (x y : A)
    → (b ≡ true → P x)
    → (b ≡ false → P y)
    → P (if b then x else y)
if-cases P true x y f g = f refl
if-cases P false x y f g = g refl

pub Option-cases {ℓ} : {A : Type ℓ} (o : Option A) → (o ≡ none) ⊎ ((a : A) × (o ≡ some a))
Option-cases none = inl refl
Option-cases (some a) = inr (a, refl)

-- A Boolean test that decides equality, as `===` does on numbers, texts and `null`.
pub record Comparable {ℓ} (T : Type ℓ) : Type ℓ where
  pub same : T → T → Bool
  pub same_iff : (x y : T) → (same x y ≡ true) ↔ (x ≡ y)

instance abbrev pub string_eq : Comparable String
string_eq = record { same_iff = eq_iff; same = str_eq }

instance abbrev pub nat_eq : Comparable ℕ
nat_eq = record { same_iff = nat_beq_iff; same = nat_beq }

-- The source's `===`.
infix 50 ◌==◌
abbrev pub ◌==◌ {ℓ} : {T : Type ℓ} ⦃by : Comparable T⦄ → T → T → Bool
◌==◌ ⦃by⦄ x y = by.same x y

module _ {ℓ} {A : Type ℓ} ⦃e : Comparable A⦄ where
  abbrev opt_beq : Option A → Option A → Bool
  opt_beq none none = true
  opt_beq none (some b) = false
  opt_beq (some a) none = false
  opt_beq (some a) (some b) = a == b

  pub opt_beq_iff : (a b : Option A) → (opt_beq a b ≡ true) ↔ (a ≡ b)
  opt_beq_iff none none = (λ _. refl, λ _. refl)
  opt_beq_iff none (some b) = (λ h. cc, λ h. cc)
  opt_beq_iff (some a) none = (λ h. cc, λ h. cc)
  opt_beq_iff (some a) (some b) = (λ h. cc ((e.same_iff a b).0 h), λ h. (e.same_iff a b).1 (cc))

  -- An optional value is `===` to another, absent ones to each other.
  instance abbrev pub option_eq : Comparable (Option A)
  option_eq = record { same_iff = opt_beq_iff; same = opt_beq }

  pub ==_iff : (a b : A) → ((a == b) ≡ true) ↔ (a ≡ b)
  ==_iff a b = e.same_iff a b

  pub ==_refl : (a : A) → (a == a) ≡ true
  ==_refl a = (e.same_iff a a).1 refl

-- Conditionals agree where their branches do.
pub if-agree {ℓ} :
    {A : Type ℓ} (b : Bool) {x y u v : A}
    → (b ≡ true → x ≡ u)
    → (b ≡ false → y ≡ v)
    → (if b then x else y) ≡ (if b then u else v)
if-agree true f g = f refl
if-agree false f g = g refl
