-- ===== src/Pipeline/Evolution/Writes.antt =====
-- What an operation may do to the map of runs, in one relation: `writes` and `adds` say when a run may
-- become active. The properties of the map follow from it once for all operations.
use newtine_backend.Prelude.{
  String, true, false, none, some, List, [], ◌∷◌, ◌≡◌, refl, ◌⊎◌, inl, inr, arith, Bool-cases,
  Option-cases, ◌==◌, string_eq, ==_iff, subst, sym, ap, ◌∙◌,
}
use newtine_backend.Prelude.Map.{Map, get, set, get-set, IsKeyed, set-IsKeyed}
use newtine_backend.Pipeline.Types.{Run, Issue, EmbeddingTask, is_active}
use newtine_backend.Pipeline.Store.{Store, recount}
use newtine_backend.Pipeline.Evolution.{
  Evolves, Evolution, Phase, stays, claimed, finished, requeued, Evolves-refl, recounted,
  get-recount,
}

abbrev pub run_key : Run → String
run_key run = run.id

-- Each run is stored under its id, once.
abbrev pub RunsKeyed : Store → Type 0
RunsKeyed s = IsKeyed run_key s.runs

-- No run but the one under `k` is `QUEUED` or `RUNNING`.
abbrev pub OthersInactive : String → Map Run → Type 0
OthersInactive k m = (j : String) (r : Run) → get j m ≡ some r → is_active r.status ≡ true → j ≡ k

abbrev pub NoneActive : Map Run → Type 0
NoneActive m = (j : String) (r : Run) → get j m ≡ some r → is_active r.status ≡ false

-- At most one run is `QUEUED` or `RUNNING`.
abbrev pub AtMostOneActive : Map Run → Type 0
AtMostOneActive m =
    (j k : String) (r q : Run)
    → get j m ≡ some r
    → get k m ≡ some q
    → is_active r.status ≡ true
    → is_active q.status ≡ true
    → j ≡ k

-- The write makes no run active, or no other one is.
abbrev pub Quiet : String → Map Run → Run → Run → Type 0
Quiet k m r r' = (is_active r'.status ≡ true → is_active r.status ≡ true) ⊎ OthersInactive k m

pub data Writes (m : Map Run) : Map Run → Type 0 where
  unchanged : Writes m m
  writes :
      (k : String) (r r' : Run)
      → get k m ≡ some r
      → r.id ≡ k
      → Evolves r r'
      → Quiet k m r r'
      → Writes m (set k r' m)
  adds : (k : String) (r : Run) → get k m ≡ none → r.id ≡ k → NoneActive m → Writes m (set k r m)
  recounts :
      {m' : Map Run} (tasks : Map EmbeddingTask) (issues : List Issue)
      → Writes m m'
      → Writes m (recount tasks issues m')

pub Evolution-refl : (m : Map Run) → Evolution m m
Evolution-refl m k r e = (r, e, Evolves-refl r)

-- A write to a run that is there.
pub set-Evolution :
    (k : String) (m : Map Run) (r r' : Run)
    → get k m ≡ some r
    → Evolves r r'
    → Evolution m (set k r' m)
set-Evolution k m r r' found e j q at = elim (Bool-cases (k == j)) [
  | inl same ↦
      let here : r ≡ q = ground (arith, found, at, ap (λ i. get i m) ((==_iff k j).0 same)) in
      (r', rw (get-set k j r' m, same), subst (λ x. Evolves x r') here e)
  | inr other ↦ (q, rw (get-set k j r' m, other) at, Evolves-refl q)
]

-- A new run under a new id.
pub set-Evolution_new :
    (k : String) (m : Map Run) (r : Run) → get k m ≡ none → Evolution m (set k r m)
set-Evolution_new k m r fresh j q at = elim (Bool-cases (k == j)) [
  | inl same ↦ absurd (ground (arith, fresh, at, ap (λ i. get i m) ((==_iff k j).0 same)))
  | inr other ↦ (q, rw (get-set k j r m, other) at, Evolves-refl q)
]

recounted-Evolves :
    (tasks : Map EmbeddingTask) (issues : List Issue) (r r' : Run)
    → Evolves r r'
    → Evolves r (recounted tasks issues r')
unfolding recounted
recounted-Evolves tasks issues r r' v = record {
  id = v.id;
  idempotency_key = v.idempotency_key;
  request_hash = v.request_hash;
  request = v.request;
  created_at = v.created_at;
  phase = phase v.phase;
  jobs = v.jobs;
}
  where
    phase : Phase r r' → Phase r (recounted tasks issues r')
    phase (stays a b) = stays a b
    phase (claimed a b c) = claimed a b c
    phase (finished a b c) = finished a b c
    phase (requeued a b c) = requeued a b c

-- Every run is kept and evolves.
pub Writes-Evolution : {m m' : Map Run} → Writes m m' → Evolution m m'
Writes-Evolution {m} unchanged = Evolution-refl m
Writes-Evolution {m} (writes k r r' found at v q) = set-Evolution k m r r' found v
Writes-Evolution {m} (adds k r fresh at none_active) = set-Evolution_new k m r fresh
Writes-Evolution (recounts {m'} tasks issues w) = λ k r e.
    let (r', e', v) = Writes-Evolution w k r e in
    (
      recounted tasks issues r',
      get-recount tasks issues k m' r' e',
      recounted-Evolves tasks issues r r' v,
    )

get-recount-none :
    (tasks : Map EmbeddingTask) (issues : List Issue) (k : String) (m : Map Run)
    → get k m ≡ none
    → get k (recount tasks issues m) ≡ none
unfolding recount get
get-recount-none tasks issues k [] e = refl
get-recount-none tasks issues k ((j, q) ∷ m) e = ground (arith, get-recount-none tasks issues k m)

recount-IsKeyed :
    (tasks : Map EmbeddingTask) (issues : List Issue) (m : Map Run)
    → IsKeyed run_key m
    → IsKeyed run_key (recount tasks issues m)
unfolding recount
recount-IsKeyed tasks issues [] h = tt
recount-IsKeyed tasks issues ((k, r) ∷ m) h =
    (h.0, get-recount-none tasks issues k m h.1, recount-IsKeyed tasks issues m h.2)

pub Writes-IsKeyed : {m m' : Map Run} → Writes m m' → IsKeyed run_key m → IsKeyed run_key m'
Writes-IsKeyed unchanged h = h
Writes-IsKeyed {m} (writes k r r' found at v q) h = set-IsKeyed run_key k r' m (v.id ∙ at) h
Writes-IsKeyed {m} (adds k r fresh at none_active) h = set-IsKeyed run_key k r m at h
Writes-IsKeyed (recounts {m'} tasks issues w) h =
    recount-IsKeyed tasks issues m' (Writes-IsKeyed w h)

-- What `get` finds after a write: the new value or an old one.
get-set_cases :
    (k j : String) (v r : Run) (m : Map Run)
    → get j (set k v m) ≡ some r
    → ((k ≡ j) × (v ≡ r)) ⊎ (get j m ≡ some r)
get-set_cases k j v r m e = elim (Bool-cases (k == j)) [
  | inl same ↦ inl ((==_iff k j).0 same, ground (arith, e, get-set k j v m, same))
  | inr other ↦ inr (ground (arith, e, get-set k j v m, other))
]

set-AtMostOneActive :
    (k : String) (v : Run) (m : Map Run)
    → AtMostOneActive m
    → (is_active v.status ≡ true → OthersInactive k m)
    → AtMostOneActive (set k v m)
set-AtMostOneActive k v m h alone i j r q at_i at_j active_i active_j =
    decide (get-set_cases k i v r m at_i) (get-set_cases k j v q m at_j)
  where
    active_here : {x : Run} → v ≡ x → is_active x.status ≡ true → is_active v.status ≡ true
    active_here e a = subst (λ (y : Run). is_active y.status ≡ true) (sym e) a

    decide :
        ((k ≡ i) × (v ≡ r)) ⊎ (get i m ≡ some r) → ((k ≡ j) × (v ≡ q)) ⊎ (get j m ≡ some q) → i ≡ j
    decide (inl (a, _)) (inl (b, _)) = sym a ∙ b
    decide (inl (a, e)) (inr g) = sym a ∙ sym (alone (active_here e active_i) j q g active_j)
    decide (inr g) (inl (b, e)) = alone (active_here e active_j) i r g active_i ∙ b
    decide (inr g) (inr g') = h i j r q g g' active_i active_j

get-recount_inv :
    (tasks : Map EmbeddingTask) (issues : List Issue) (k : String) (m : Map Run) (r' : Run)
    → get k (recount tasks issues m) ≡ some r'
    → (r : Run) × (get k m ≡ some r) × (r'.status ≡ r.status)
get-recount_inv tasks issues k m r' e = elim (Option-cases (get k m)) [
  | inl n ↦ absurd (cc (get-recount-none tasks issues k m n))
  | inr (r, g) ↦ (r, g, same r g)
]
  where
    unfold_status : (r : Run) → (recounted tasks issues r).status ≡ r.status
    unfold_status r = unfold recounted in refl

    same : (r : Run) → get k m ≡ some r → r'.status ≡ r.status
    same r g =
        let here : r' ≡ recounted tasks issues r =
          ground (arith, e, get-recount tasks issues k m r g) in
        ap (λ (x : Run). x.status) here ∙ unfold_status r

-- At most one run stays active.
pub Writes-AtMostOneActive : {m m' : Map Run} → Writes m m' → AtMostOneActive m → AtMostOneActive m'
Writes-AtMostOneActive unchanged h = h
Writes-AtMostOneActive {m} (writes k r r' found at v (inl was)) h =
    set-AtMostOneActive k r' m h (λ a j q g b. sym (h k j r q found g (was a) b))
Writes-AtMostOneActive {m} (writes k r r' found at v (inr alone)) h =
    set-AtMostOneActive k r' m h (λ _. alone)
Writes-AtMostOneActive {m} (adds k r fresh at none_active) h =
    set-AtMostOneActive k r m h (λ _ j q g b. absurd (ground (arith, none_active j q g, b)))
Writes-AtMostOneActive (recounts {m'} tasks issues w) h = λ i j r q at_i at_j a b.
    let (r0, g, same) = get-recount_inv tasks issues i m' r at_i in
    let (q0, g', same') = get-recount_inv tasks issues j m' q at_j in
    Writes-AtMostOneActive w h i j r0 q0 g g' (subst (λ st. is_active st ≡ true) same a)
      (subst (λ st. is_active st ≡ true) same' b)
