-- ===== src/Prelude/Result.antt =====
-- A result with an error code of a component: `err` is a thrown exception.
use mathlib.Core.Path.{◌≡◌, refl}

pub data Result {ℓ κ} (E : Type κ) (A : Type ℓ) : Type (ℓ ⊔ κ) where
  ok : A → Result E A
  err : E → Result E A

-- The rest runs on the value of the first part; an exception goes past it.
infixl 5 ◌>>=◌
abbrev pub ◌>>=◌ {κ ℓ η} :
    {B : Type κ} {A : Type ℓ} {E : Type η} → Result E A → (A → Result E B) → Result E B
err code >>= rest = err code
ok value >>= rest = rest value

infixl 5 ◌>>◌
abbrev pub ◌>>◌ {ℓ η} : {B : Type ℓ} {E : Type η} → Result E (Unit {0}) → Result E B → Result E B
first >> rest = first >>= λ _. rest

-- A chain that succeeds has succeeded in its first part.
pub first_of_chain :
    {E A B : Type 0} (first : Result E A) (rest : A → Result E B) (b : B)
    → (first >>= rest) ≡ ok b
    → (value : A) × (rest value ≡ ok b) × (first ≡ ok value)
first_of_chain (err code) rest b failed = absurd (cc)
first_of_chain (ok value) rest b done = (value, done, refl)

pub ok-injective {ℓ κ} :
    {E : Type κ} {A : Type ℓ} (a b : A) → ◌≡◌ {A = Result E A} (ok a) (ok b) → a ≡ b
ok-injective a b h = cc
