-- ===== src/Prelude/Count.antt =====
-- How often a key occurs in a list: what shows that rearrangements repeat nothing.
use Prim.Native.Nat.{ℕ, zero, suc, ◌+◌, ◌≤◌}
use Prim.Native.String.{String}
use mathlib.Core.Path.{◌≡◌, refl, subst}
use mathlib.Core.Bool.{Bool, true, false}
use mathlib.Core.Logic.{inl, inr}
use mathlib.Core.List.{List, [], ◌∷◌, ◌++◌, Memᴰ}
use native.Mathlib.Omega.{arith}
use text.Mathlib.TextEquality.{eq_iff}
use newtine_backend.Prelude.Tests.{if◌then◌else◌, ◌==◌, string_eq, ==_refl, Bool-cases}
use newtine_backend.Prelude.Lists.{take, set_at, length, Memᴰ-cons}
use newtine_backend.Prelude.Sets.{includes, Distinct}
unfoldable use newtine_backend.Prelude.Sort.{sort, insert_sorted}

module _ {ℓ} {A : Type ℓ} (key : A → String) where
  abbrev pub keys : List A → List String
  keys [] = []
  keys (x ∷ xs) = key x ∷ keys xs

  pub length-keys : (xs : List A) → length (keys xs) ≡ length xs
  length-keys [] = refl
  length-keys (x ∷ xs) = omega (arith, length-keys xs)

  pub keys-Memᴰ : (xs : List A) (a : String) → Memᴰ a (keys xs) → (x : A) × Memᴰ x xs × (a ≡ key x)
  keys-Memᴰ [] a m = elim m [ ]
  keys-Memᴰ (x ∷ xs) a m =
      Memᴰ-cons (λ e. (x, Memᴰ.head refl, e))
        (λ k. let (y, l, e) = keys-Memᴰ xs a k in (y, Memᴰ.tail l, e)) m

  abbrev pub is_key : String → A → ℕ
  is_key a x = if key x == a then 1 else 0

  abbrev pub count : String → List A → ℕ
  count a [] = 0
  count a (x ∷ xs) = is_key a x + count a xs

  pub count-append : (a : String) (xs ys : List A) → count a (xs ++ ys) ≡ count a xs + count a ys
  count-append a [] ys = omega arith
  count-append a (x ∷ xs) ys = omega (arith, count-append a xs ys)

  pub count-take : (a : String) (n : ℕ) (xs : List A) → count a (take n xs) ≤ count a xs
  count-take a zero xs = omega arith
  count-take a (suc n) [] = omega arith
  count-take a (suc n) (x ∷ xs) = omega (arith, count-take a n xs)

  pub count-set_at :
      (a : String) (xs : List A) (i : ℕ) (x : A) → count a (set_at xs i x) ≤ is_key a x + count a xs
  count-set_at a [] i x = omega arith
  count-set_at a (y ∷ ys) zero x = omega arith
  count-set_at a (y ∷ ys) (suc i) x = omega (arith, count-set_at a ys i x)

  count-insert_sorted :
      (before : A → A → Bool) (a : String) (x : A) (ys : List A)
      → count a (insert_sorted before x ys) ≡ is_key a x + count a ys
  unfolding insert_sorted
  count-insert_sorted before a x [] = refl
  count-insert_sorted before a x (y ∷ ys) = elim (Bool-cases (before y x)) [
    | inl e ↦ rw e (omega (arith, count-insert_sorted before a x ys))
    | inr e ↦ rw e refl
  ]

  pub count-sort :
      (before : A → A → Bool) (a : String) (xs : List A) → count a (sort before xs) ≡ count a xs
  unfolding sort
  count-sort before a [] = refl
  count-sort before a (x ∷ xs) =
      omega (arith, count-insert_sorted before a x (sort before xs), count-sort before a xs)

  -- A list that has no key is not to be seen in the count.
  pub count-absent : (a : String) (xs : List A) → includes (keys xs) a ≡ false → count a xs ≡ 0
  count-absent a [] h = refl
  count-absent a (x ∷ xs) h = ground (arith, count-absent a xs)

  includes-absent : (a : String) (xs : List A) → count a xs ≡ 0 → includes (keys xs) a ≡ false
  includes-absent a [] h = refl
  includes-absent a (x ∷ xs) h = ground (arith, includes-absent a xs)

  pub count-Distinct : (a : String) (xs : List A) → Distinct (keys xs) → count a xs ≤ 1
  count-Distinct a [] d = omega arith
  count-Distinct a (x ∷ xs) d =
      ground (arith, eq_iff (key x) a, count-Distinct a xs d.1, count-absent (key x) xs d.0)

  pub Distinct-of_count : (xs : List A) → ((a : String) → count a xs ≤ 1) → Distinct (keys xs)
  Distinct-of_count [] h = tt
  Distinct-of_count (x ∷ xs) h = (
    includes-absent (key x) xs (ground (arith, h (key x), ==_refl (key x))),
    Distinct-of_count xs (λ a. ground (arith, h a)),
  )

-- Without the first of the items that are `a`.
without : String → List String → List String
without a [] = []
without a (b ∷ bs) = let rest = without a bs in if b == a then bs else b ∷ rest

length-without :
    (a : String) (bs : List String) → includes bs a ≡ true → suc (length (without a bs)) ≡ length bs
unfolding without
length-without a [] h = absurd (cc)
length-without a (b ∷ bs) h = ground (arith, length-without a bs)

includes-without :
    (a c : String) (bs : List String)
    → (a == c) ≡ false
    → includes bs c ≡ true
    → includes (without a bs) c ≡ true
unfolding without
includes-without a c [] other h = absurd (cc)
includes-without a c (b ∷ bs) other h = elim (Bool-cases (b == a)) [
  | inl e ↦
      let miss : (b == c) ≡ false = ground (arith, eq_iff b a, eq_iff b c, eq_iff a c, e, other) in
      rw e (ground (arith, miss))
  | inr e ↦ rw e (ground (arith, includes-without a c bs other))
]

-- Distinct texts that all stand in a list are no more than that list has.
pub length-le_of_Distinct :
    (xs ys : List String)
    → Distinct xs
    → ((a : String) → includes xs a ≡ true → includes ys a ≡ true)
    → length xs ≤ length ys
length-le_of_Distinct [] ys d sub = omega arith
length-le_of_Distinct (x ∷ xs) ys d sub =
    let first = sub x (ground (arith, ==_refl x)) in
    omega (
      arith,
      length-without x ys first,
      length-le_of_Distinct xs (without x ys) d.1 (λ a m.
          let other : (x == a) ≡ false = ground (arith, eq_iff x a, d.0, m) in
          includes-without x a ys other (sub a (ground (arith, m)))),
    )

-- As many distinct texts of a list as it has are all of them.
pub includes-all_of_Distinct :
    (xs ys : List String) (a : String)
    → Distinct xs
    → ((b : String) → includes xs b ≡ true → includes ys b ≡ true)
    → length ys ≤ length xs
    → includes ys a ≡ true
    → includes xs a ≡ true
includes-all_of_Distinct xs ys a d sub enough there = elim (Bool-cases (includes xs a)) [
  | inl e ↦ e
  | inr e ↦
      let more =
        length-le_of_Distinct (a ∷ xs) ys (e, d)
          (λ b m. elim (Bool-cases (a == b)) [
            | inl same ↦ subst (λ c. includes ys c ≡ true) ((eq_iff a b).0 same) there
            | inr other ↦ sub b (ground (arith, m, other))
          ]) in
      absurd (omega (arith, more, enough))
]
