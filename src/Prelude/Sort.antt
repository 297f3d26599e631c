-- ===== src/Prelude/Sort.antt =====
-- `xs.slice().sort(cmp)` for a comparison `before a b`, which stands for `cmp(a, b) < 0`: the stable
-- sort of ECMAScript, as an insertion sort.
use mathlib.Core.List.{List, [], ◌∷◌, Memᴰ}
use mathlib.Core.Path.{◌≡◌, refl}
use mathlib.Core.Option.{none}
use mathlib.Core.Bool.{Bool}
use mathlib.Core.Logic.{inl, inr, ◌≢◌}
use Prim.Native.Nat.{suc}
use native.Mathlib.Omega.{arith}
use newtine_backend.Prelude.Tests.{if◌then◌else◌, Bool-cases}
use newtine_backend.Prelude.Lists.{Memᴰ-cons, head?, length}

module _ {ℓ} {A : Type ℓ} (before : A → A → Bool) where
  -- `x` stood first: it stays in front of what it is not after.
  unfoldable pub insert_sorted : A → List A → List A
  insert_sorted x [] = x ∷ []
  insert_sorted x (y ∷ ys) = if before y x then y ∷ insert_sorted x ys else x ∷ y ∷ ys

  unfoldable pub sort : List A → List A
  unfolding insert_sorted
  sort [] = []
  sort (x ∷ xs) = insert_sorted x (sort xs)

  insert_sorted-Memᴰ : (x a : A) (ys : List A) → Memᴰ a (insert_sorted x ys) → Memᴰ a (x ∷ ys)
  unfolding insert_sorted
  insert_sorted-Memᴰ x a [] m = m
  insert_sorted-Memᴰ x a (y ∷ ys) m = elim (Bool-cases (before y x)) [
    | inl e ↦
        Memᴰ-cons (λ h. Memᴰ.tail (Memᴰ.head h))
          (λ n.
            Memᴰ-cons (λ h. Memᴰ.head h) (λ k. Memᴰ.tail (Memᴰ.tail k))
              (insert_sorted-Memᴰ x a ys n))
          (rw e at m)
    | inr e ↦ rw e at m
  ]

  pub sort-Memᴰ : (a : A) (xs : List A) → Memᴰ a (sort xs) → Memᴰ a xs
  unfolding sort
  sort-Memᴰ a [] m = m
  sort-Memᴰ a (x ∷ xs) m =
      Memᴰ-cons (λ h. Memᴰ.head h) (λ n. Memᴰ.tail (sort-Memᴰ a xs n))
        (insert_sorted-Memᴰ x a (sort xs) m)

  insert_sorted-head? : (x : A) (ys : List A) → head? (insert_sorted x ys) ≢ none
  unfolding insert_sorted
  insert_sorted-head? x [] h = absurd (cc)
  insert_sorted-head? x (y ∷ ys) h = absurd (ground arith)

  -- Only the empty list has no first item once it is sorted.
  pub head?-sort : (xs : List A) → head? (sort xs) ≡ none → xs ≡ []
  unfolding sort
  head?-sort [] h = refl
  head?-sort (x ∷ xs) h = absurd (insert_sorted-head? x (sort xs) h)

  Memᴰ-insert_sorted : (x a : A) (ys : List A) → Memᴰ a (x ∷ ys) → Memᴰ a (insert_sorted x ys)
  unfolding insert_sorted
  Memᴰ-insert_sorted x a [] m = m
  Memᴰ-insert_sorted x a (y ∷ ys) m = elim (Bool-cases (before y x)) [
    | inl e ↦ rw e (
        Memᴰ-cons (λ h. Memᴰ.tail (Memᴰ-insert_sorted x a ys (Memᴰ.head h)))
          (λ n.
            Memᴰ-cons (λ h. Memᴰ.head h) (λ k. Memᴰ.tail (Memᴰ-insert_sorted x a ys (Memᴰ.tail k)))
              n)
          m)
    | inr e ↦ rw e m
  ]

  -- A sorted list has every item.
  pub Memᴰ-sort : (a : A) (xs : List A) → Memᴰ a xs → Memᴰ a (sort xs)
  unfolding sort
  Memᴰ-sort a [] m = m
  Memᴰ-sort a (x ∷ xs) m =
      Memᴰ-insert_sorted x a (sort xs)
        (Memᴰ-cons (λ h. Memᴰ.head h) (λ n. Memᴰ.tail (Memᴰ-sort a xs n)) m)

  length-insert_sorted : (x : A) (ys : List A) → length (insert_sorted x ys) ≡ suc (length ys)
  unfolding insert_sorted
  length-insert_sorted x [] = refl
  length-insert_sorted x (y ∷ ys) = ground (arith, length-insert_sorted x ys)

  pub length-sort : (xs : List A) → length (sort xs) ≡ length xs
  unfolding sort
  length-sort [] = refl
  length-sort (x ∷ xs) = omega (arith, length-insert_sorted x (sort xs), length-sort xs)
