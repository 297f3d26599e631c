-- ===== src/Recommendation/Pool.antt =====
-- The search for the longest order of a small pool, up to the topics and entities of its issues:
-- `proveFullPoolMaxLength` and its helpers in
-- apps/api/src/issue/recommendation/issueRecommendation.ts. A bucket that is counted down for a call
-- and up again after it is given to that call counted down.
pub mod Room
pub mod Laws
use newtine_backend.Prelude.{
  ℕ, zero, suc, ◌+◌, ◌-◌, min, max, String, Bool, true, false, not, ◌&&◌, ◌||◌, Option, none, some,
  List, [], ◌∷◌, all, set_at, ltb, leb, ◌==◌, nat_eq, string_eq, option_eq, if◌then◌else◌,
}
use newtine_backend.Prelude.Map.{Map, get, set}
use newtine_backend.Prelude.Text.{append, decimal, join}
use newtine_backend.Recommendation.Types.{batch_size, Candidate, RunState, Budget}
use newtine_backend.Recommendation.Runs.{
  Signature, signature_of, can_append_signature, advance_run_state_signature,
}
use newtine_backend.Recommendation.Search.{max_transitions}

-- `RunSignatureBucket`
pub record Bucket : Type 0 where
  pub signature : Signature
  pub remaining : ℕ

-- `runSignatureKey` writes a signature as JSON, which tells two signatures apart.
abbrev pub same_signature : Signature → Signature → Bool
same_signature g h =
    g.main_topic == h.main_topic && g.representative_entity_id == h.representative_entity_id

abbrev pub count_signature : Signature → List Bucket → List Bucket
count_signature g [] = record { signature = g; remaining = 1 } ∷ []
count_signature g (k ∷ ks) =
    if same_signature k.signature g
    then record k { remaining = k.remaining + 1 } ∷ ks
    else k ∷ count_signature g ks

abbrev pub group_onto : {F : Type 0} → List Bucket → List (Candidate F) → List Bucket
group_onto ks [] = ks
group_onto ks (c ∷ cs) = group_onto (count_signature (signature_of c.issue) ks) cs

-- `[...groupRunSignatures(candidates).values()]`
unfoldable pub group_run_signatures : {F : Type 0} → List (Candidate F) → List Bucket
group_run_signatures cs = group_onto [] cs

abbrev pub is_used_up : List Bucket → Bool
is_used_up ks = all (λ k. k.remaining == 0) ks

abbrev pub left_in : List Bucket → ℕ
left_in [] = 0
left_in (k ∷ ks) = k.remaining + left_in ks

abbrev pub count_down : List Bucket → ℕ → Bucket → List Bucket
count_down ks index k = set_at ks index (record k { remaining = k.remaining - 1 })

abbrev pub remainders : List Bucket → List String
remainders [] = []
remainders (k ∷ ks) = decimal k.remaining ∷ remainders ks

-- `${value}` of a value that may be null.
abbrev pub text_or_null : Option String → String
text_or_null none = "null"
text_or_null (some a) = a

-- `compressedRunStateKey`
unfoldable pub compressed_run_state_key : List Bucket → RunState → String
compressed_run_state_key ks s = join ":" (
    join "," (remainders ks)
    ∷ text_or_null s.last_topic
    ∷ text_or_null s.last_representative_entity_id
    ∷ decimal s.topic_run
    ∷ decimal s.entity_run
    ∷ [])

-- What a call of `maximumCompressedRunLength` gives.
pub record Longest : Type 0 where
  pub best : ℕ
  pub memo : Map ℕ
  pub budget : Budget

-- The loop over the buckets, with a call for what is left. The first bucket of the list stands at
-- `index`.
unfoldable pub try_buckets :
    (List Bucket → RunState → Map ℕ → Budget → Longest)
    → List Bucket
    → RunState
    → List Bucket
    → ℕ
    → ℕ
    → Map ℕ
    → Budget
    → Longest
try_buckets search ks s [] index best memo b = record { best = best; memo = memo; budget = b }
try_buckets search ks s (k ∷ rest) index best memo b =
    let skipped = try_buckets search ks s rest (index + 1) best memo b in
    let spent = record b { transitions = b.transitions + 1 } in
    let refused = try_buckets search ks s rest (index + 1) best memo spent in
    let suffix =
      search (count_down ks index k) (advance_run_state_signature k.signature s) memo spent in
    let best' : ℕ = max best (1 + suffix.best) in
    let next = try_buckets search ks s rest (index + 1) best' suffix.memo suffix.budget in
    if k.remaining == 0
    then skipped
    else if ltb max_transitions (b.transitions + 1)
    then record { best = best; memo = memo; budget = record spent { cut = true } }
    else if not (can_append_signature k.signature s)
    then refused
    else if best' == min batch_size (left_in ks) || suffix.budget.cut
    then record { best = best'; memo = suffix.memo; budget = suffix.budget }
    else next

-- `if (!budget.cut) memo.set(key, best)`
abbrev pub note : String → Longest → Longest
note key r = if r.budget.cut then r else record r { memo = set key r.best r.memo }

-- `if (cached !== undefined) return cached`
abbrev pub known_or : Option ℕ → Map ℕ → Budget → Longest → Longest
known_or none memo b fresh = fresh
known_or (some cached) memo b fresh = record { best = cached; memo = memo; budget = b }

-- `maximumCompressedRunLength`. Each call counts a bucket down, and `room` counts what may be left.
unfoldable pub maximum_compressed_run_length : ℕ → List Bucket → RunState → Map ℕ → Budget → Longest
unfolding try_buckets compressed_run_state_key
maximum_compressed_run_length zero ks s memo b = record { best = 0; memo = memo; budget = b }
maximum_compressed_run_length (suc room) ks s memo b =
    let key = compressed_run_state_key ks s in
    let fresh = note key (try_buckets (maximum_compressed_run_length room) ks s ks 0 0 memo b) in
    if is_used_up ks
    then record { best = 0; memo = memo; budget = b }
    else if leb max_transitions b.transitions
    then record { best = 0; memo = memo; budget = record b { cut = true } }
    else known_or (get key memo) memo b fresh

-- The bucket that the memo tells to be first of a longest order, with what is left then: `k` is the
-- length of the rest.
unfoldable pub next_bucket :
    Map ℕ → ℕ → List Bucket → RunState → List Bucket → ℕ → Option (Bucket × List Bucket)
next_bucket memo k ks s [] index = none
next_bucket memo k ks s (d ∷ rest) index =
    let left = count_down ks index d in
    let s' = advance_run_state_signature d.signature s in
    let suffix : Option ℕ =
      if is_used_up left then some 0 else get (compressed_run_state_key left s') memo in
    let next = next_bucket memo k ks s rest (index + 1) in
    if d.remaining == 0 || not (can_append_signature d.signature s)
    then next
    else if suffix == some k
    then some (d, left)
    else next

abbrev pub then_on : Signature → Option (List Signature) → Option (List Signature)
then_on g none = none
then_on g (some gs) = some (g ∷ gs)

-- The loop of `reconstructMaximumRunOrder`, which gives up where the memo does not fit.
unfoldable pub follow_memo : Map ℕ → ℕ → List Bucket → RunState → Option (List Signature)
unfolding next_bucket compressed_run_state_key
follow_memo memo zero ks s = some []
follow_memo memo (suc k) ks s =
    let expected = get (compressed_run_state_key ks s) memo in
    if expected == some (suc k)
    then elim (next_bucket memo k ks s ks 0) [
      | none ↦ none
      | some p ↦
          then_on p.0.signature
            (follow_memo memo k p.1 (advance_run_state_signature p.0.signature s))
    ]
    else none

abbrev pub or_empty : Option (List Signature) → List Signature
or_empty none = []
or_empty (some gs) = gs

-- `reconstructMaximumRunOrder`
unfoldable pub reconstruct_maximum_run_order : List Bucket → RunState → Map ℕ → ℕ → List Signature
reconstruct_maximum_run_order ks s memo most = or_empty (follow_memo memo most ks s)

-- `FullPoolProof`
pub record Proof : Type 0 where
  pub max_length : ℕ
  pub signature_order : List Signature

-- `proveFullPoolMaxLength`
unfoldable pub prove_full_pool_max_length :
    {F : Type 0} → List (Candidate F) → RunState → Budget → Option Proof × Budget
unfolding group_run_signatures maximum_compressed_run_length reconstruct_maximum_run_order
prove_full_pool_max_length cs previous b =
    let ks = group_run_signatures cs in
    let r = maximum_compressed_run_length (left_in ks) ks previous [] b in
    (
      if r.budget.cut
          then none
          else some (record {
            max_length = r.best;
            signature_order = reconstruct_maximum_run_order ks previous r.memo r.best;
          }),
      r.budget,
    )
