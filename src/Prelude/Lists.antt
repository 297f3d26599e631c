-- ===== src/Prelude/Lists.antt =====
-- Lists measured by native numbers, the array methods of the source, and membership.
use Prim.Native.Nat.{ℕ, zero, suc, ◌+◌, ◌≤◌}
use mathlib.Core.Path.{◌≡◌, refl, ap, sym, subst}
use mathlib.Core.Logic.{inl, inr}
use mathlib.Core.Bool.{Bool, true, false, ◌&&◌, ◌||◌}
use mathlib.Core.Option.{Option, none, some}
use mathlib.Core.List.{List, [], ◌∷◌, ◌++◌, Memᴰ}
use native.Mathlib.Omega.{arith}
use newtine_backend.Prelude.Tests.{if◌then◌else◌, Bool-cases}

module _ {ℓ} {A : Type ℓ} where
  abbrev pub length : List A → ℕ
  length [] = 0
  length (x ∷ xs) = suc (length xs)

  abbrev pub take : ℕ → List A → List A
  take zero xs = []
  take (suc n) [] = []
  take (suc n) (x ∷ xs) = x ∷ take n xs

  -- `xs.some(p)`
  abbrev pub any : (A → Bool) → List A → Bool
  any p [] = false
  any p (x ∷ xs) = p x || any p xs

  -- `xs.every(p)`
  abbrev pub all : (A → Bool) → List A → Bool
  all p [] = true
  all p (x ∷ xs) = p x && all p xs

  -- `xs.filter(p)`
  abbrev pub keep : (A → Bool) → List A → List A
  keep p [] = []
  keep p (x ∷ xs) = if p x then x ∷ keep p xs else keep p xs

  -- `xs.find(p)`
  abbrev pub find : (A → Bool) → List A → Option A
  find p [] = none
  find p (x ∷ xs) = if p x then some x else find p xs

  -- `xs.slice(n)`
  abbrev pub drop : ℕ → List A → List A
  drop zero xs = xs
  drop (suc n) [] = []
  drop (suc n) (x ∷ xs) = drop n xs

  abbrev pub head? : List A → Option A
  head? [] = none
  head? (x ∷ xs) = some x

  abbrev pub get_elem? : List A → ℕ → Option A
  get_elem? [] i = none
  get_elem? (x ∷ xs) zero = some x
  get_elem? (x ∷ xs) (suc i) = get_elem? xs i

  abbrev pub get_or : List A → ℕ → A → A
  get_or [] i d = d
  get_or (x ∷ xs) zero d = x
  get_or (x ∷ xs) (suc i) d = get_or xs i d

  -- A write past the end changes nothing.
  abbrev pub set_at : List A → ℕ → A → List A
  set_at [] i v = []
  set_at (x ∷ xs) zero v = v ∷ xs
  set_at (x ∷ xs) (suc i) v = x ∷ set_at xs i v

  -- Every item satisfies a predicate.
  abbrev pub All {κ} : (A → Type κ) → List A → Type κ
  All P [] = Unit
  All P (x ∷ xs) = P x × All P xs

module _ {ℓ} {A : Type ℓ} where
  -- Cases on a membership.
  pub Memᴰ-cons {κ} :
      {C : Type κ} {a x : A} {xs : List A} → (a ≡ x → C) → (Memᴰ a xs → C) → Memᴰ a (x ∷ xs) → C
  Memᴰ-cons here later (Memᴰ.head e) = here e
  Memᴰ-cons here later (Memᴰ.tail m) = later m

  pub length-append : (xs ys : List A) → length (xs ++ ys) ≡ length xs + length ys
  length-append [] ys = omega arith
  length-append (x ∷ xs) ys = omega (arith, length-append xs ys)

  pub length-take-le :
      (n : ℕ) (xs : List A) → (length (take n xs) ≤ n) × (length (take n xs) ≤ length xs)
  length-take-le zero xs = omega arith
  length-take-le (suc n) [] = omega arith
  length-take-le (suc n) (x ∷ xs) = omega (arith, length-take-le n xs)

  pub take-Memᴰ : (n : ℕ) (xs : List A) {a : A} → Memᴰ a (take n xs) → Memᴰ a xs
  take-Memᴰ zero xs m = elim m [ ]
  take-Memᴰ (suc n) [] m = elim m [ ]
  take-Memᴰ (suc n) (x ∷ xs) m = Memᴰ-cons (λ e. Memᴰ.head e) (λ k. Memᴰ.tail (take-Memᴰ n xs k)) m

  pub length-keep-le : (p : A → Bool) (xs : List A) → length (keep p xs) ≤ length xs
  length-keep-le p [] = omega arith
  length-keep-le p (x ∷ xs) = ground (arith, length-keep-le p xs)

  pub All-Memᴰ {κ} : (P : A → Type κ) {a : A} (xs : List A) → All P xs → Memᴰ a xs → P a
  All-Memᴰ P [] h m = elim m [ ]
  All-Memᴰ P (x ∷ xs) h m = Memᴰ-cons (λ e. subst P (sym e) h.0) (λ n. All-Memᴰ P xs h.1 n) m

  pub All-of_Memᴰ {κ} : (P : A → Type κ) (xs : List A) → ((a : A) → Memᴰ a xs → P a) → All P xs
  All-of_Memᴰ P [] h = tt
  All-of_Memᴰ P (x ∷ xs) h = (h x (Memᴰ.head refl), All-of_Memᴰ P xs (λ a m. h a (Memᴰ.tail m)))

  pub All-set_at {κ} :
      (P : A → Type κ) (xs : List A) (i : ℕ) (x : A) → P x → All P xs → All P (set_at xs i x)
  All-set_at P [] i x p h = tt
  All-set_at P (y ∷ ys) zero x p h = (p, h.1)
  All-set_at P (y ∷ ys) (suc i) x p h = (h.0, All-set_at P ys i x p h.1)

  pub any-Memᴰ : (p : A → Bool) (a : A) (xs : List A) → Memᴰ a xs → any p xs ≡ false → p a ≡ false
  any-Memᴰ p a [] m h = elim m [ ]
  any-Memᴰ p a (x ∷ xs) (Memᴰ.head e) h = ground (arith, ap p e)
  any-Memᴰ p a (x ∷ xs) (Memᴰ.tail m) h = any-Memᴰ p a xs m (ground arith)

  pub any-eq-true :
      (p : A → Bool) (xs : List A) → any p xs ≡ true → (a : A) × Memᴰ a xs × (p a ≡ true)
  any-eq-true p [] h = cc
  any-eq-true p (x ∷ xs) h = elim (Bool-cases (p x)) [
    | inl e ↦ (x, Memᴰ.head refl, e)
    | inr e ↦ let (a, m, q) = any-eq-true p xs (ground arith) in (a, Memᴰ.tail m, q)
  ]

  pub find-Memᴰ :
      (p : A → Bool) (xs : List A) {a : A} → find p xs ≡ some a → Memᴰ a xs × (p a ≡ true)
  find-Memᴰ p [] h = cc
  find-Memᴰ p (x ∷ xs) {a} h = elim (Bool-cases (p x)) [
    | inl e ↦
        let same : x ≡ a = ground arith in (Memᴰ.head (sym same), subst (λ y. p y ≡ true) same e)
    | inr e ↦ let (m, q) = find-Memᴰ p xs {a = a} (ground arith) in (Memᴰ.tail m, q)
  ]

  pub keep-Memᴰ :
      (p : A → Bool) (xs : List A) (a : A) → Memᴰ a (keep p xs) → Memᴰ a xs × (p a ≡ true)
  keep-Memᴰ p [] a m = elim m [ ]
  keep-Memᴰ p (x ∷ xs) a m = elim (Bool-cases (p x)) [
    | inl e ↦
        Memᴰ-cons (λ h. (Memᴰ.head h, subst (λ y. p y ≡ true) (sym h) e))
          (λ n. let (k, q) = keep-Memᴰ p xs a n in (Memᴰ.tail k, q)) (rw e at m)
    | inr e ↦ let (n, q) = keep-Memᴰ p xs a (rw e at m) in (Memᴰ.tail n, q)
  ]

  pub get_elem?-Memᴰ : (xs : List A) (i : ℕ) {a : A} → get_elem? xs i ≡ some a → Memᴰ a xs
  get_elem?-Memᴰ [] i h = absurd (cc)
  get_elem?-Memᴰ (x ∷ xs) zero h = Memᴰ.head (cc)
  get_elem?-Memᴰ (x ∷ xs) (suc i) h = Memᴰ.tail (get_elem?-Memᴰ xs i h)

  pub head?-Memᴰ : (xs : List A) {a : A} → head? xs ≡ some a → Memᴰ a xs
  head?-Memᴰ [] h = cc
  head?-Memᴰ (x ∷ xs) h = Memᴰ.head (cc)
