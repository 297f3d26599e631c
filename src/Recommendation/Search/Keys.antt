-- ===== src/Recommendation/Search/Keys.antt =====
-- Equal keys of the memo are those of equal masks and states.
use newtine_backend.Prelude.{
  ℕ, Bool, true, false, List, [], ◌∷◌, ◌≡◌, refl, arith, ◌==◌, nat_eq, string_eq, option_eq, ==_iff,
}
use newtine_backend.Recommendation.Types.{RunState}
use newtine_backend.Recommendation.Search.{
  SearchState, Mask, same_list, same_bit, same_runs, same_key,
}

same_list-eq :
    {A : Type 0} (same : A → A → Bool) (sound : (a b : A) → same a b ≡ true → a ≡ b)
    (xs ys : List A)
    → same_list same xs ys ≡ true
    → xs ≡ ys
same_list-eq same sound [] [] h = refl
same_list-eq same sound [] (y ∷ ys) h = absurd (cc)
same_list-eq same sound (x ∷ xs) [] h = absurd (cc)
same_list-eq same sound (x ∷ xs) (y ∷ ys) h =
    cc (sound x y (ground arith), same_list-eq same sound xs ys (ground arith))

same_bit-eq : (a b : Bool) → same_bit a b ≡ true → a ≡ b
same_bit-eq true true h = refl
same_bit-eq true false h = absurd (cc)
same_bit-eq false true h = absurd (cc)
same_bit-eq false false h = refl

same_runs-eq : (s t : RunState) → same_runs s t ≡ true → s ≡ t
same_runs-eq s t h = ground (
  arith,
  ==_iff s.last_topic t.last_topic,
  ==_iff s.last_representative_entity_id t.last_representative_entity_id,
  ==_iff s.topic_run t.topic_run,
  ==_iff s.entity_run t.entity_run,
)

pub same_key-eq :
    (m : Mask) (s : SearchState) (m' : Mask) (s' : SearchState)
    → same_key m s m' s' ≡ true
    → (m ≡ m') × (s ≡ s')
same_key-eq m s m' s' h =
    let masks : m ≡ m' = same_list-eq same_bit same_bit-eq m m' (ground arith) in
    let runs : s.runs ≡ s'.runs = same_runs-eq s.runs s'.runs (ground arith) in
    let counts : s.quota_counts ≡ s'.quota_counts =
      same_list-eq (λ (a b : ℕ). a == b) (λ a b. (==_iff a b).0) s.quota_counts s'.quota_counts
        (ground arith) in
    (masks, ground (arith, runs, counts))
