-- ===== src/Recommendation/Search/Picks.antt =====
-- Bits of a mask, and the items that stand at them.
use text.Mathlib.TextEquality.{eq_iff}
use newtine_backend.Prelude.{
  some-injective, includes, ℕ, zero, suc, ◌≤◌, String, true, false, some, List, [], ◌∷◌, ◌≡◌, ◌≢◌,
  refl, sym, ap, ◌∙◌, get_elem?, length, All, Distinct, Distinct-get_elem?, includes-eq-false, Memᴰ,
  Memᴰ-cons, string_eq, arith,
}
use newtine_backend.Recommendation.Types.{Numbers, Selected}
use newtine_backend.Recommendation.Batch.{ids_of}
use newtine_backend.Recommendation.Search.{Mask, is_zero, has_bit, clear_bit, full_mask}
use newtine_backend.Recommendation.Search.Laws.{Picked}

abbrev pub bit_count : Mask → ℕ
bit_count [] = 0
bit_count (true ∷ mask) = suc (bit_count mask)
bit_count (false ∷ mask) = bit_count mask

-- Clearing a bit leaves the others.
clear_bit-has_bit :
    (mask : Mask) (i j : ℕ)
    → has_bit (clear_bit mask i) j ≡ true
    → (has_bit mask j ≡ true) × (i ≢ j)
clear_bit-has_bit [] i j h = absurd (cc)
clear_bit-has_bit (b ∷ mask) zero zero h = absurd (cc)
clear_bit-has_bit (b ∷ mask) zero (suc j) h = (h, λ e. absurd (omega (arith, e)))
clear_bit-has_bit (b ∷ mask) (suc i) zero h = (h, λ e. absurd (omega (arith, e)))
clear_bit-has_bit (b ∷ mask) (suc i) (suc j) h =
    let (set, other) = clear_bit-has_bit mask i j h in (set, λ e. other (omega (arith, e)))

has_bit-clear_bit :
    (mask : Mask) (i j : ℕ) → has_bit mask j ≡ true → i ≢ j → has_bit (clear_bit mask i) j ≡ true
has_bit-clear_bit [] i j h other = h
has_bit-clear_bit (b ∷ mask) zero zero h other = absurd (other refl)
has_bit-clear_bit (b ∷ mask) zero (suc j) h other = h
has_bit-clear_bit (b ∷ mask) (suc i) zero h other = h
has_bit-clear_bit (b ∷ mask) (suc i) (suc j) h other =
    has_bit-clear_bit mask i j h (λ e. other (ap suc e))

pub bit_count-clear_bit :
    (mask : Mask) (i : ℕ)
    → has_bit mask i ≡ true
    → suc (bit_count (clear_bit mask i)) ≡ bit_count mask
bit_count-clear_bit [] i h = absurd (cc)
bit_count-clear_bit (true ∷ mask) zero h = refl
bit_count-clear_bit (false ∷ mask) zero h = absurd (cc)
bit_count-clear_bit (true ∷ mask) (suc i) h = ap suc (bit_count-clear_bit mask i h)
bit_count-clear_bit (false ∷ mask) (suc i) h = bit_count-clear_bit mask i h

-- A mask without bits is the empty one, and one with a bit is not.
pub is_zero-bit_count : (mask : Mask) → is_zero mask ≡ true → bit_count mask ≡ 0
is_zero-bit_count [] h = refl
is_zero-bit_count (true ∷ mask) h = absurd (cc)
is_zero-bit_count (false ∷ mask) h = is_zero-bit_count mask h

pub bit_count-is_zero : (mask : Mask) → bit_count mask ≡ 0 → is_zero mask ≡ true
bit_count-is_zero [] h = refl
bit_count-is_zero (true ∷ mask) h = absurd (omega (arith, h))
bit_count-is_zero (false ∷ mask) h = bit_count-is_zero mask h

pub has_bit-is_zero : (mask : Mask) (i : ℕ) → has_bit mask i ≡ true → is_zero mask ≡ false
has_bit-is_zero [] i h = absurd (cc)
has_bit-is_zero (true ∷ mask) i h = refl
has_bit-is_zero (false ∷ mask) zero h = absurd (cc)
has_bit-is_zero (false ∷ mask) (suc i) h = has_bit-is_zero mask i h

pub bit_count-full_mask : {A : Type 0} (xs : List A) → bit_count (full_mask xs) ≡ length xs
bit_count-full_mask [] = refl
bit_count-full_mask (x ∷ xs) = ap suc (bit_count-full_mask xs)

get_elem?-ids_of :
    {F : Type 0} (cs : List (Selected F)) (i : ℕ) (x : Selected F)
    → get_elem? cs i ≡ some x
    → get_elem? (ids_of cs) i ≡ some x.candidate.issue.id
get_elem?-ids_of [] i x h = absurd (cc)
get_elem?-ids_of (c ∷ cs) zero x h = ground arith
get_elem?-ids_of (c ∷ cs) (suc i) x h = get_elem?-ids_of cs i x h

pub ids_of-Memᴰ :
    {F : Type 0} (P : Selected F → Type 0) (xs : List (Selected F)) (a : String)
    → All P xs
    → Memᴰ a (ids_of xs)
    → (x : Selected F) × P x × (a ≡ x.candidate.issue.id)
ids_of-Memᴰ P [] a h m = elim m [ ]
ids_of-Memᴰ P (x ∷ xs) a h m = Memᴰ-cons (λ e. (x, h.0, e)) (λ k. ids_of-Memᴰ P xs a h.1 k) m

module _ {F : Type 0} (n : Numbers F) (cs : List (Selected F)) where
  pub Picked-length :
      (mask : Mask) (xs : List (Selected F)) → Picked n cs mask xs → length xs ≤ bit_count mask
  Picked-length mask [] h = omega arith
  Picked-length mask (x ∷ xs) (i, set, at, rest) =
      omega (arith, bit_count-clear_bit mask i set, Picked-length (clear_bit mask i) xs rest)

  -- An item stands at a bit that is set.
  abbrev pub StandsAt : Mask → Selected F → Type 0
  StandsAt mask x = (i : ℕ) × (has_bit mask i ≡ true) × (get_elem? cs i ≡ some x)

  weaken :
      (mask : Mask) (i : ℕ) (xs : List (Selected F))
      → All (StandsAt (clear_bit mask i)) xs
      → All (StandsAt mask) xs
  weaken mask i [] h = tt
  weaken mask i (x ∷ xs) ((j, set, at), h) =
      ((j, (clear_bit-has_bit mask i j set).0, at), weaken mask i xs h)

  pub Picked-StandsAt :
      (mask : Mask) (xs : List (Selected F)) → Picked n cs mask xs → All (StandsAt mask) xs
  Picked-StandsAt mask [] h = tt
  Picked-StandsAt mask (x ∷ xs) (i, set, at, rest) =
      ((i, set, at), weaken mask i xs (Picked-StandsAt (clear_bit mask i) xs rest))

  pub Picked-Distinct :
      (mask : Mask) (xs : List (Selected F))
      → Distinct (ids_of cs)
      → Picked n cs mask xs
      → Distinct (ids_of xs)
  Picked-Distinct mask [] d h = tt
  Picked-Distinct mask (x ∷ xs) d (i, set, at, rest) = (
    includes-eq-false x.candidate.issue.id (ids_of xs) (λ a m same.
        let (y, (j, set_j, at_j), e) =
          ids_of-Memᴰ (StandsAt (clear_bit mask i)) xs a
            (Picked-StandsAt (clear_bit mask i) xs rest) m in
        (clear_bit-has_bit mask i j set_j).1 (
          Distinct-get_elem? (ids_of cs) i j x.candidate.issue.id d (get_elem?-ids_of cs i x at)
            (get_elem?-ids_of cs j y at_j ∙ ap some (sym e ∙ same)))),
    Picked-Distinct (clear_bit mask i) xs d rest,
  )

  apart :
      (mask : Mask) (i : ℕ) (x : Selected F) (xs : List (Selected F))
      → get_elem? cs i ≡ some x
      → includes (ids_of xs) x.candidate.issue.id ≡ false
      → All (StandsAt mask) xs
      → All (StandsAt (clear_bit mask i)) xs
  apart mask i x [] at new h = tt
  apart mask i x (y ∷ ys) at new ((j, set, at_j), h) = (
    (
      j,
      has_bit-clear_bit mask i j set (λ e.
          let both : some x ≡ some y = sym at ∙ ap (get_elem? cs) e ∙ at_j in
          let same = some-injective x y both in
          let id = ap (λ z. z.candidate.issue.id) same in
          absurd (ground (arith, new, id, eq_iff y.candidate.issue.id x.candidate.issue.id))),
      at_j,
    ),
    apart mask i x ys at (ground (arith, new)) h,
  )

  pub Picked-of_Distinct :
      (mask : Mask) (xs : List (Selected F))
      → Distinct (ids_of xs)
      → All (StandsAt mask) xs
      → Picked n cs mask xs
  Picked-of_Distinct mask [] d h = tt
  Picked-of_Distinct mask (x ∷ xs) d ((i, set, at), h) =
      (i, set, at, Picked-of_Distinct (clear_bit mask i) xs d.1 (apart mask i x xs at d.0 h))

module _ {F : Type 0} (n : Numbers F) where
  -- Every item stands at a bit of the full mask.
  pub full_mask-StandsAt :
      (cs : List (Selected F)) (x : Selected F) → Memᴰ x cs → StandsAt n cs (full_mask cs) x
  full_mask-StandsAt [] x m = elim m [ ]
  full_mask-StandsAt (c ∷ cs) x m =
      Memᴰ-cons (λ e. (0, refl, ap some (sym e)))
        (λ k. let (i, set, at) = full_mask-StandsAt cs x k in (suc i, set, at)) m
