-- ===== src/Recommendation/Pool/Room.antt =====
-- The search for the longest order of the pool needs no more room than its buckets hold.
use newtine_backend.Prelude.{
  some-injective, ℕ, zero, suc, ◌+◌, ◌≤◌, max, min, true, false, not, ◌||◌, some, List, [], ◌∷◌,
  ◌≡◌, refl, sym, ap, ◌∙◌, get_elem?, ltb, leb, ◌==◌, nat_eq, if◌then◌else◌, if-agree, ==_iff,
  arith,
}
use newtine_backend.Prelude.Map.{Map, get}
use newtine_backend.Recommendation.Types.{batch_size, RunState, Budget}
use newtine_backend.Recommendation.Runs.{can_append_signature, advance_run_state_signature}
use newtine_backend.Recommendation.Search.{max_transitions}
use newtine_backend.Recommendation.Pool.{
  Bucket, is_used_up, left_in, count_down, compressed_run_state_key, Longest, try_buckets, note,
  known_or, maximum_compressed_run_length,
}

count_down-left_in :
    (ks : List Bucket) (index : ℕ) (k : Bucket)
    → get_elem? ks index ≡ some k
    → (k.remaining == 0) ≡ false
    → suc (left_in (count_down ks index k)) ≡ left_in ks
count_down-left_in [] index k at some_left = absurd (cc)
count_down-left_in (j ∷ ks) zero k at some_left =
    let same = ap (λ b. b.remaining) (some-injective j k at) in ground (arith, same, some_left)
count_down-left_in (j ∷ ks) (suc index) k at some_left =
    omega (arith, count_down-left_in ks index k at some_left)

left_in-is_used_up : (ks : List Bucket) → left_in ks ≡ 0 → is_used_up ks ≡ true
left_in-is_used_up [] h = refl
left_in-is_used_up (k ∷ ks) h =
    let none_left : k.remaining ≡ 0 = omega (arith, h) in
    let rest = left_in-is_used_up ks (omega (arith, h)) in
    rw ((==_iff k.remaining 0).1 none_left) rest

abbrev Call : Type 0
Call = List Bucket → RunState → Map ℕ → Budget → Longest

-- Two searches agree on buckets that have room in both.
abbrev Agree : ℕ → ℕ → Call → Call → Type 0
Agree room other f g =
    (ks : List Bucket) (s : RunState) (memo : Map ℕ) (b : Budget)
    → left_in ks ≤ room
    → left_in ks ≤ other
    → f ks s memo b ≡ g ks s memo b

try_buckets-Agree :
    (room other : ℕ) (f g : Call)
    → Agree room other f g
    → (ks : List Bucket) (s : RunState) (rest : List Bucket) (index best : ℕ) (memo : Map ℕ)
    → (b : Budget) → ((i : ℕ) → get_elem? rest i ≡ get_elem? ks (index + i))
    → left_in ks ≤ suc room
    → left_in ks ≤ suc other
    → try_buckets f ks s rest index best memo b ≡ try_buckets g ks s rest index best memo b
unfolding try_buckets
try_buckets-Agree room other f g agree ks s [] index best memo b at few fits = refl
try_buckets-Agree room other f g agree ks s (k ∷ rest) index best memo b at few fits =
    let spent : Budget = record b { transitions = b.transitions + 1 } in
    let here : get_elem? ks index ≡ some k =
      ap (get_elem? ks) (let e : index ≡ index + 0 = omega arith in e) ∙ sym (at 0) in
    let later : (i : ℕ) → get_elem? rest i ≡ get_elem? ks (index + 1 + i) =
      λ i. at (suc i) ∙ ap (get_elem? ks) (omega arith) in
    if-agree (k.remaining == 0)
      (λ _. try_buckets-Agree room other f g agree ks s rest (index + 1) best memo b later few fits)
      (λ some_left.
        if-agree (ltb max_transitions (b.transitions + 1)) (λ _. refl)
          (λ _.
            if-agree (not (can_append_signature k.signature s))
              (λ _.
                try_buckets-Agree room other f g agree ks s rest (index + 1) best memo spent later
                  few fits)
              (λ _.
                let left = count_down-left_in ks index k here some_left in
                let down = count_down ks index k in
                let s' = advance_run_state_signature k.signature s in
                let same =
                  agree down s' memo spent (omega (arith, left, few)) (omega (arith, left, fits)) in
                let after : Call → Longest → Longest = λ h r.
                  if max best (1 + r.best) == min batch_size (left_in ks) || r.budget.cut
                  then record { best = max best (1 + r.best); memo = r.memo; budget = r.budget }
                  else try_buckets h ks s rest (index + 1) (max best (1 + r.best)) r.memo
                      r.budget in
                let r : Longest = f down s' memo spent in
                let loops : after f r ≡ after g r =
                  if-agree (max best (1 + r.best) == min batch_size (left_in ks) || r.budget.cut)
                    (λ _. refl)
                    (λ _.
                      try_buckets-Agree room other f g agree ks s rest (index + 1)
                        (max best (1 + r.best)) r.memo r.budget later few fits) in
                loops ∙ ap (after g) same)))

-- However much room there is for what the buckets hold, a call of `maximumCompressedRunLength` gives
-- the same: the room that the model passes is never what ends it.
pub maximum_compressed_run_length-room :
    (room other : ℕ) (ks : List Bucket) (s : RunState) (memo : Map ℕ) (b : Budget)
    → left_in ks ≤ room
    → left_in ks ≤ other
    → maximum_compressed_run_length room ks s memo b
      ≡ maximum_compressed_run_length other ks s memo b
unfolding maximum_compressed_run_length
maximum_compressed_run_length-room zero zero ks s memo b few fits = refl
maximum_compressed_run_length-room zero (suc other) ks s memo b few fits =
    rw (left_in-is_used_up ks (omega (arith, few))) refl
maximum_compressed_run_length-room (suc room) zero ks s memo b few fits =
    rw (left_in-is_used_up ks (omega (arith, fits))) refl
maximum_compressed_run_length-room (suc room) (suc other) ks s memo b few fits =
    if-agree (is_used_up ks) (λ _. refl)
      (λ _.
        if-agree (leb max_transitions b.transitions) (λ _. refl)
          (λ _.
            ap
              (λ r.
                known_or (get (compressed_run_state_key ks s) memo) memo b
                  (note (compressed_run_state_key ks s) r))
              (try_buckets-Agree room other (maximum_compressed_run_length room)
                (maximum_compressed_run_length other)
                (λ js t memo' b' le le'.
                  maximum_compressed_run_length-room room other js t memo' b' le le')
                ks s ks 0 0 memo b (λ i. ap (get_elem? ks) (omega arith)) few fits)))
