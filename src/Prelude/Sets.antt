-- ===== src/Prelude/Sets.antt =====
-- Lists as sets: `includes`, `new Set(list)`, and what repeats nothing.
use Prim.Native.Nat.{ℕ, zero, suc, ◌+◌, ◌≤◌}
use mathlib.Core.Path.{◌≡◌, refl, ap, sym, subst, ◌∙◌}
use mathlib.Core.Logic.{inl, inr, ◌≢◌}
use mathlib.Core.Bool.{Bool, true, false, ◌||◌}
use mathlib.Core.Option.{some}
use mathlib.Core.List.{append-nil, append_assoc, List, [], ◌∷◌, ◌++◌, Memᴰ}
use native.Mathlib.Omega.{arith}
use newtine_backend.Prelude.Tests.{if◌then◌else◌, Comparable, ◌==◌, Bool-cases}
use newtine_backend.Prelude.Lists.{
  length, length-append, any, any-eq-true, get_elem?, get_elem?-Memᴰ,
}

-- Texts and ids: `xs.includes(a)`, and `[...new Set(xs)]`, which keeps first occurrences.
module _ {ℓ} {A : Type ℓ} ⦃e : Comparable A⦄ where
  abbrev pub includes : List A → A → Bool
  includes xs a = any (λ x. x == a) xs

  abbrev pub unique_onto : List A → List A → List A
  unique_onto seen [] = seen
  unique_onto seen (x ∷ xs) = unique_onto (if includes seen x then seen else seen ++ (x ∷ [])) xs

  abbrev pub unique : List A → List A
  unique xs = unique_onto [] xs

module _ {ℓ} {A : Type ℓ} ⦃e : Comparable A⦄ where
  -- No item comes twice.
  abbrev pub Distinct : List A → Type 0
  Distinct [] = Unit
  Distinct (x ∷ xs) = (includes xs x ≡ false) × Distinct xs

module _ {ℓ} {A : Type ℓ} ⦃e : Comparable A⦄ where
  pub includes-Memᴰ : (a : A) (xs : List A) → Memᴰ a xs → includes xs a ≡ true
  includes-Memᴰ a [] m = elim m [ ]
  includes-Memᴰ a (x ∷ xs) (Memᴰ.head h) = ground (arith, (e.same_iff x a).1 (sym h))
  includes-Memᴰ a (x ∷ xs) (Memᴰ.tail m) = ground (arith, includes-Memᴰ a xs m)

  pub Memᴰ-of_includes : (a : A) (xs : List A) → includes xs a ≡ true → Memᴰ a xs
  Memᴰ-of_includes a xs h =
      let (b, m, q) = any-eq-true (λ x. x == a) xs h in
      subst (λ y. Memᴰ y xs) ((e.same_iff b a).0 q) m

  pub includes-eq-false :
      (a : A) (xs : List A) → ((x : A) → Memᴰ x xs → x ≢ a) → includes xs a ≡ false
  includes-eq-false a xs other = elim (Bool-cases (includes xs a)) [
    | inl there ↦ absurd (other a (Memᴰ-of_includes a xs there) refl)
    | inr missing ↦ missing
  ]

  -- An item of a list without repetition stands at one index.
  pub Distinct-get_elem? :
      (xs : List A) (i j : ℕ) (a : A)
      → Distinct xs
      → get_elem? xs i ≡ some a
      → get_elem? xs j ≡ some a
      → i ≡ j
  Distinct-get_elem? [] i j a d p q = absurd (cc)
  Distinct-get_elem? (x ∷ xs) zero zero a d p q = refl
  Distinct-get_elem? (x ∷ xs) zero (suc j) a d p q =
      let again = includes-Memᴰ a xs (get_elem?-Memᴰ xs j q) in
      let same : x ≡ a = ground arith in absurd (cc (d.0, again, same))
  Distinct-get_elem? (x ∷ xs) (suc i) zero a d p q =
      let again = includes-Memᴰ a xs (get_elem?-Memᴰ xs i p) in
      let same : x ≡ a = ground arith in absurd (cc (d.0, again, same))
  Distinct-get_elem? (x ∷ xs) (suc i) (suc j) a d p q = ap suc (Distinct-get_elem? xs i j a d.1 p q)

module _ {ℓ} {A : Type ℓ} ⦃e : Comparable A⦄ where
  pub includes-append :
      (xs ys : List A) (a : A) → includes (xs ++ ys) a ≡ (includes xs a || includes ys a)
  includes-append [] ys a = refl
  includes-append (x ∷ xs) ys a = ground (arith, includes-append xs ys a)

  -- None of the items is among the others.
  abbrev pub Apart : List A → List A → Type 0
  Apart seen [] = Unit
  Apart seen (x ∷ xs) = (includes seen x ≡ false) × Apart seen xs

  Apart-append_left : (seen ys xs : List A) → Apart (seen ++ ys) xs → Apart seen xs
  Apart-append_left seen ys [] h = tt
  Apart-append_left seen ys (x ∷ xs) h =
      (ground (arith, includes-append seen ys x, h.0), Apart-append_left seen ys xs h.1)

  Apart-last :
      (seen : List A) (a : A) (xs : List A) → Apart (seen ++ (a ∷ [])) xs → includes xs a ≡ false
  Apart-last seen a [] h = refl
  Apart-last seen a (x ∷ xs) h = ground (
    arith,
    includes-append seen (a ∷ []) x,
    h.0,
    Apart-last seen a xs h.1,
    e.same_iff x a,
    e.same_iff a x,
  )

  Apart-add :
      (seen : List A) (a : A) (xs : List A)
      → Apart seen xs
      → includes xs a ≡ false
      → Apart (seen ++ (a ∷ [])) xs
  Apart-add seen a [] h other = tt
  Apart-add seen a (x ∷ xs) h other = (
    ground (arith, includes-append seen (a ∷ []) x, h.0, other, e.same_iff x a, e.same_iff a x),
    Apart-add seen a xs h.1 (ground (arith, other)),
  )

  unique_onto-Distinct :
      (seen xs : List A) → Distinct xs → Apart seen xs → unique_onto seen xs ≡ seen ++ xs
  unique_onto-Distinct seen [] d h = sym (append-nil seen)
  unique_onto-Distinct seen (x ∷ xs) d h = rw h.0 (
      unique_onto-Distinct (seen ++ (x ∷ [])) xs d.1 (Apart-add seen x xs h.1 d.0)
      ∙ append_assoc seen (x ∷ []) xs)

  length-unique_onto-le :
      (seen xs : List A) → length (unique_onto seen xs) ≤ length seen + length xs
  length-unique_onto-le seen [] = omega arith
  length-unique_onto-le seen (x ∷ xs) = elim (Bool-cases (includes seen x)) [
    | inl old ↦ rw old (omega (arith, length-unique_onto-le seen xs))
    | inr new ↦
        rw new
          (omega (arith, length-unique_onto-le (seen ++ (x ∷ [])) xs, length-append seen (x ∷ [])))
  ]

  -- Where the set of the items has as many as the list, none comes twice.
  pub Distinct-of_length :
      (seen xs : List A)
      → length (unique_onto seen xs) ≡ length seen + length xs
      → Distinct xs × Apart seen xs
  Distinct-of_length seen [] h = (tt, tt)
  Distinct-of_length seen (x ∷ xs) h = elim (Bool-cases (includes seen x)) [
    | inl old ↦
        let kept : length (unique_onto seen xs) ≡ length seen + suc (length xs) = rw old at h in
        absurd (omega (arith, kept, length-unique_onto-le seen xs))
    | inr new ↦
        let (distinct, apart) = Distinct-of_length (seen ++ (x ∷ [])) xs (
          let kept : length (unique_onto (seen ++ (x ∷ [])) xs) ≡ length seen + suc (length xs) =
            rw new at h in
          omega (arith, kept, length-append seen (x ∷ []))) in
        ((Apart-last seen x xs apart, distinct), (new, Apart-append_left seen (x ∷ []) xs apart))
  ]

  Apart-nil : (xs : List A) → Apart [] xs
  Apart-nil [] = tt
  Apart-nil (x ∷ xs) = (refl, Apart-nil xs)

  -- A list that repeats nothing is its own set.
  pub unique-Distinct : (xs : List A) → Distinct xs → unique xs ≡ xs
  unique-Distinct xs d = unique_onto-Distinct [] xs d (Apart-nil xs)
