-- ===== src/Prelude/Map.antt =====
-- `Map<string, V>`: entries in insertion order. Setting a present key keeps its place.
use mathlib.Core.List.{List, [], ◌∷◌, ◌++◌, Memᴰ}
use Prim.Native.String.{String}
use mathlib.Core.Path.{◌≡◌, refl, sym, ap, ◌∙◌, subst}
use mathlib.Core.Bool.{Bool, true, false}
use mathlib.Core.Logic.{inl, inr}
use mathlib.Core.Option.{Option, none, some}
use native.Mathlib.Omega.{arith}
use text.Mathlib.TextEquality.{eq_iff}
use newtine_backend.Prelude.Lists.{Memᴰ-cons, find, find-Memᴰ, length, All}
use newtine_backend.Prelude.Sets.{Distinct, includes-eq-false}
use newtine_backend.Prelude.Count.{keys, keys-Memᴰ}
use newtine_backend.Prelude.Tests.{if◌then◌else◌, ◌==◌, string_eq, Bool-cases, ==_refl, ==_iff}

abbrev pub Map {ℓ} : Type ℓ → Type ℓ
Map V = List (String × V)

beq_false_swap : (i j : String) → (i == j) ≡ false → (j == i) ≡ false
beq_false_swap i j h = ground (arith, eq_iff i j, eq_iff j i)

module _ {ℓ} {V : Type ℓ} where
  unfoldable pub get : String → Map V → Option V
  get k [] = none
  get k ((j, v) ∷ m) = if j == k then some v else get k m

  unfoldable pub set : String → V → Map V → Map V
  set k v [] = (k, v) ∷ []
  set k v ((j, w) ∷ m) = if j == k then (j, v) ∷ m else (j, w) ∷ set k v m

  unfoldable pub values : Map V → List V
  values [] = []
  values ((k, v) ∷ m) = v ∷ values m

  pub get-set :
      (k j : String) (v : V) (m : Map V) → get j (set k v m) ≡ (if k == j then some v else get j m)
  unfolding get set
  get-set k j v [] = refl
  get-set k j v ((i, w) ∷ m) = ground (arith, eq_iff k j, eq_iff i k, eq_iff i j, get-set k j v m)

  pub get-set_self : (k : String) (v : V) (m : Map V) → get k (set k v m) ≡ some v
  get-set_self k v m = rw (get-set k k v m, ==_refl k)

  -- A stored value is listed.
  pub get-Memᴰ : (k : String) (m : Map V) (v : V) → get k m ≡ some v → Memᴰ v (values m)
  unfolding get values
  get-Memᴰ k [] v h = absurd (cc)
  get-Memᴰ k ((j, w) ∷ m) v h = elim (Bool-cases (j == k)) [
    | inl e ↦ Memᴰ.head (ground arith)
    | inr e ↦ Memᴰ.tail (get-Memᴰ k m v (ground arith))
  ]

  pub set-All {κ} :
      (P : String → V → Type κ) (k : String) (v : V) (m : Map V)
      → P k v
      → All (λ e. P e.0 e.1) m
      → All (λ e. P e.0 e.1) (set k v m)
  unfolding set
  set-All P k v [] p h = (p, tt)
  set-All P k v ((j, w) ∷ m) p h = elim (Bool-cases (j == k)) [
    | inl same ↦ rw same (subst (λ i. P i v) (sym ((==_iff j k).0 same)) p, h.1)
    | inr other ↦ rw other (h.0, set-All P k v m p h.1)
  ]

  -- What holds of the entries holds of the values.
  pub All-values {κ} : (P : V → Type κ) (m : Map V) → All (λ e. P e.1) m → All P (values m)
  unfolding values
  All-values P [] h = tt
  All-values P ((k, v) ∷ m) h = (h.0, All-values P m h.1)

  -- Keys are distinct, and each value is stored under its own key.
  abbrev pub IsKeyed : (V → String) → Map V → Type ℓ
  IsKeyed key [] = Unit
  IsKeyed key ((k, v) ∷ m) = (key v ≡ k) × (get k m ≡ none) × IsKeyed key m

  pub set-IsKeyed :
      (key : V → String) (k : String) (v : V) (m : Map V)
      → key v ≡ k
      → IsKeyed key m
      → IsKeyed key (set k v m)
  unfolding get set
  set-IsKeyed key k v [] e h = (e, refl, tt)
  set-IsKeyed key k v ((j, w) ∷ m) e h = elim (Bool-cases (j == k)) [
    | inl same ↦ rw same (e ∙ sym ((==_iff j k).0 same), h.1, h.2)
    | inr other ↦
        rw other
          (h.0, get-set k j v m ∙ rw (beq_false_swap j k other) h.1, set-IsKeyed key k v m e h.2)
  ]

  -- What is listed is found under its key.
  pub get-of_Memᴰ :
      (key : V → String) (v : V) (m : Map V)
      → IsKeyed key m
      → Memᴰ v (values m)
      → get (key v) m ≡ some v
  unfolding get values
  get-of_Memᴰ key v [] h n = elim n [ ]
  get-of_Memᴰ key v ((k, w) ∷ m) h n =
      Memᴰ-cons (λ e. ground (arith, h.0, ap key e, eq_iff k (key v), e))
        (λ later. missed (get-of_Memᴰ key v m h.2 later)) n
    where
      missed : get (key v) m ≡ some v → get (key v) ((k, w) ∷ m) ≡ some v
      missed found = ground (arith, eq_iff k (key v), h.1)

  pub get-IsKeyed :
      (key : V → String) (k : String) (v : V) (m : Map V)
      → IsKeyed key m
      → get k m ≡ some v
      → key v ≡ k
  unfolding get
  get-IsKeyed key k v [] h e = absurd (cc)
  get-IsKeyed key k v ((j, w) ∷ m) h e = elim (Bool-cases (j == k)) [
    | inl same ↦ let found : w ≡ v = ground arith in ap key (sym found) ∙ h.0 ∙ (==_iff j k).0 same
    | inr other ↦ get-IsKeyed key k v m h.2 (rw other at e)
  ]

  pub set-new : (k : String) (v : V) (m : Map V) → get k m ≡ none → set k v m ≡ m ++ ((k, v) ∷ [])
  unfolding get set
  set-new k v [] e = refl
  set-new k v ((j, w) ∷ m) e = elim (Bool-cases (j == k)) [
    | inl same ↦ absurd (ground (arith, e, same))
    | inr other ↦ rw other (ap (λ l. (j, w) ∷ l) (set-new k v m (rw other at e)))
  ]

  pub values-set_new :
      (k : String) (v : V) (m : Map V) → get k m ≡ none → values (set k v m) ≡ values m ++ (v ∷ [])
  unfolding get set values
  values-set_new k v [] e = refl
  values-set_new k v ((j, w) ∷ m) e = elim (Bool-cases (j == k)) [
    | inl same ↦ absurd (ground (arith, e, same))
    | inr other ↦ rw other (ap (λ l. w ∷ l) (values-set_new k v m (rw other at e)))
  ]

  pub find-append_new :
      (p : V → Bool) (xs : List V) (v : V)
      → find p xs ≡ none
      → p v ≡ true
      → find p (xs ++ (v ∷ [])) ≡ some v
  find-append_new p [] v none_found hit = rw hit
  find-append_new p (x ∷ xs) v none_found hit =
      ground (arith, find-append_new p xs v, none_found, hit)

  -- A value that is found and written again, under its key, is found in its new form.
  pub find-set :
      (key : V → String) (p : V → Bool) (old new : V) (m : Map V)
      → IsKeyed key m
      → find p (values m) ≡ some old
      → p new ≡ true
      → find p (values (set (key old) new m)) ≡ some new
  unfolding get set values
  find-set key p old new [] keyed found hit = absurd (cc)
  find-set key p old new ((j, w) ∷ m) keyed found hit = elim (Bool-cases (p w)) [
    | inl here ↦
        let same : w ≡ old = ground (arith, found, here) in
        let at : (j == key old) ≡ true = (==_iff j (key old)).1 (sym keyed.0 ∙ ap key same) in
        rw at (ground (arith, hit))
    | inr later ↦
        let rest : find p (values m) ≡ some old = rw later at found in
        let stored = get-of_Memᴰ key old m keyed.2 (find-Memᴰ p (values m) rest).0 in
        let elsewhere : (j == key old) ≡ false =
          ground (arith, eq_iff j (key old), stored, keyed.1) in
        rw elsewhere (ground (arith, later, find-set key p old new m keyed.2 rest hit))
  ]

  pub length-values-set :
      (k : String) (v w : V) (m : Map V)
      → get k m ≡ some w
      → length (values (set k v m)) ≡ length (values m)
  unfolding get set values
  length-values-set k v w [] e = absurd (cc)
  length-values-set k v w ((j, x) ∷ m) e = ground (arith, length-values-set k v w m)

  -- Values that are kept under keys of their own have distinct keys.
  pub values-Distinct :
      (key : V → String) (m : Map V) → IsKeyed key m → Distinct (keys key (values m))
  unfolding get values
  values-Distinct key [] h = tt
  values-Distinct key ((k, v) ∷ m) h = (
    includes-eq-false (key v) (keys key (values m)) (λ a there same.
        let (w, m_w, e) = keys-Memᴰ key (values m) a there in
        let stored = get-of_Memᴰ key w m h.2 m_w in
        let under = ap (λ i. get i m) (sym e ∙ same ∙ h.0) in absurd (cc (stored, under, h.1))),
    values-Distinct key m h.2,
  )
