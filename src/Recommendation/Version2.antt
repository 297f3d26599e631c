-- ===== src/Recommendation/Version2.antt =====
-- `recommendFeedV2` of apps/api/src/issue/recommendation/issueRecommendation.ts: a batch for a reader
-- from the rows that the feed query gives, with one budget for all of the searches.
pub mod Laws
pub mod Promise
pub mod Limited
use newtine_backend.Prelude.{
  ℕ, suc, ◌+◌, ◌*◌, String, Bool, true, false, not, ◌&&◌, Option, none, some, List, [], ◌∷◌, take,
  length, sort, ltb, leb, if◌then◌else◌,
}
use newtine_backend.Recommendation.Types.{
  Numbers, Selection, batch_size, Issue, Reader, Candidate, Selected, RunState, Budget, Order,
  Continuation,
}
use newtine_backend.Recommendation.Score.{score_candidate, ranks_before}
use newtine_backend.Recommendation.Targets.{select_by_target}
use newtine_backend.Recommendation.Greedy.{greedy_order, order_of}
use newtine_backend.Recommendation.Better.{better}
use newtine_backend.Recommendation.Pool.{Proof, prove_full_pool_max_length}
use newtine_backend.Recommendation.Materialize.{materialize_proven_order}
use newtine_backend.Recommendation.Alternatives.{bounded_alternatives}
use newtine_backend.Recommendation.Continuation.{resolve_v2_continuation}

-- `DEFAULT_CANDIDATE_BUDGET`
abbrev pub default_candidate_budget : ℕ
default_candidate_budget = 100

-- `RecommendationInput`. A budget is a natural number: the source takes 0 for a negative one.
pub record Input (F : Type 0) : Type 0 where
  pub issues : List (Issue F)
  pub reader : Reader
  pub previous_session : RunState
  pub high_score_threshold : Option F
  pub candidate_budget : Option ℕ

-- `FeedBatchItemRecord`
pub record Item : Type 0 where
  pub issue_id : String
  pub position : ℕ
  pub selection_type : Selection
  pub reason_codes : List String

-- `RecommendationOutput`: the four fields of the session are in the state.
pub record Output : Type 0 where
  pub items : List Item
  pub continuation : Continuation
  pub state : RunState

-- `value ?? fallback`
abbrev pub or_default : {A : Type 0} → Option A → A → A
or_default none d = d
or_default (some a) d = a

abbrev pub budget_of : {F : Type 0} → Input F → ℕ
budget_of input = or_default input.candidate_budget default_candidate_budget

abbrev pub keep_scored :
    {F : Type 0} → Option (Candidate F) → List (Candidate F) → List (Candidate F)
keep_scored none cs = cs
keep_scored (some c) cs = c ∷ cs

abbrev pub candidates_of : {F : Type 0} → List (Selected F) → List (Candidate F)
candidates_of [] = []
candidates_of (x ∷ xs) = x.candidate ∷ candidates_of xs

-- `items.map((candidate, index) => ...)`, where the first index is `index`.
abbrev pub output_items : {F : Type 0} → ℕ → List (Selected F) → List Item
output_items index [] = []
output_items index (x ∷ xs) =
    record {
      issue_id = x.candidate.issue.id;
      position = index + 1;
      selection_type = x.selected_type;
      reason_codes = x.candidate.reason_codes;
    }
    ∷ output_items (index + 1) xs

abbrev pub length_of : Option Proof → Option ℕ
length_of none = none
length_of (some p) = some p.max_length

abbrev pub no_search : Budget
no_search = record { transitions = 0; proposals = 0; cut = false }

module _ {F : Type 0} (n : Numbers F) where
  abbrev pub score_all : Reader → F → List (Issue F) → List (Candidate F)
  score_all r threshold [] = []
  score_all r threshold (i ∷ is) =
      keep_scored (score_candidate n i r threshold) (score_all r threshold is)

  -- `scored`
  unfoldable pub scored_pool : Input F → List (Candidate F)
  scored_pool input =
      score_all input.reader (or_default input.high_score_threshold n.seven_tenths)
        (take (budget_of input) input.issues)

  -- What the two greedy orders give: the better of them, whether both are short, and the budget.
  pub record Greedy : Type 0 where
    pub best : Order F
    pub both_short : Bool
    pub budget : Budget

  unfoldable pub greedy_best : Input F → List (Selected F) → List (Candidate F) → Greedy
  greedy_best input seed scored =
      let most = budget_of input * 20 in
      let by_seed =
        greedy_order n (candidates_of seed) seed input.previous_session no_search most in
      let by_pool = greedy_order n scored seed input.previous_session by_seed.2 most in
      record {
        best = better n (order_of n by_pool) (order_of n by_seed);
        both_short = ltb (length by_seed.0) batch_size && ltb (length by_pool.0) batch_size;
        budget = by_pool.2;
      }

  -- `fullPoolProof`, with the budget that it leaves.
  unfoldable pub full_pool_proof : Input F → List (Candidate F) → Greedy → Option Proof × Budget
  full_pool_proof input scored g =
      if not g.budget.cut
        && ltb (length g.best.items) batch_size
        && leb (length input.issues) (budget_of input)
        && leb (length scored) batch_size
      then prove_full_pool_max_length scored input.previous_session g.budget
      else (none, g.budget)

  -- The proven order, where it is longer and better.
  unfoldable pub use_proof :
      Input F → List (Selected F) → List (Candidate F) → Order F → Option Proof → Order F
  use_proof input seed scored best none = best
  use_proof input seed scored best (some p) =
      if ltb (length best.items) p.max_length
      then better n
          (materialize_proven_order n scored seed p.signature_order input.previous_session) best
      else best

  -- What the whole search ends with. The alternatives sort `scored` in its place.
  pub record Search : Type 0 where
    pub best : Order F
    pub scored : List (Candidate F)
    pub max_length : Option ℕ
    pub budget : Budget

  unfoldable pub search_v2 : Input F → Search
  unfolding scored_pool greedy_best full_pool_proof use_proof
  search_v2 input =
      let scored = scored_pool input in
      let seed = select_by_target n scored in
      let g = greedy_best input seed scored in
      let proof = full_pool_proof input scored g in
      let best = use_proof input seed scored g.best proof.0 in
      let tried = bounded_alternatives n best scored input.previous_session proof.1 in
      if g.both_short && not proof.1.cut
      then record {
        best = better n tried.0 best;
        scored = sort (ranks_before n) scored;
        max_length = length_of proof.0;
        budget = tried.1;
      }
      else record { best = best; scored = scored; max_length = length_of proof.0; budget = proof.1 }

  -- `recommendFeedV2`
  unfoldable pub recommend_feed_v2 : Input F → Output
  unfolding search_v2
  recommend_feed_v2 input =
      let found = search_v2 input in
      record {
        items = output_items 0 (take batch_size found.best.items);
        continuation =
            resolve_v2_continuation (length input.issues) (budget_of input) found.scored
              found.best.items input.previous_session found.budget.cut found.max_length;
        state = found.best.state;
      }
