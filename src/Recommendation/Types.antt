-- ===== src/Recommendation/Types.antt =====
-- The data of apps/api/src/issue/recommendation/issueRecommendation.ts and the rows it reads
-- (libs/core/src/issue/repository/type/issueQuery.repository.ts). `number` for scores is a parameter
-- `F`; run lengths are natural numbers.
use newtine_backend.Prelude.{◌==◌, nat_eq, ℕ, String, Bool, Option, List, [], ◌∷◌}

-- The operations of the language on scores: `x !== 0`, `x < 0`, `Number.isFinite` and
-- `a.localeCompare(b)` are tests and operations of the platform.
pub record Numbers (F : Type 0) : Type 0 where
  pub nought : F
  pub unit : F
  -- 0.7, 0.25, 0.2, 0.15 and 0.1
  pub seven_tenths : F
  pub quarter : F
  pub fifth : F
  pub three_twentieths : F
  pub tenth : F
  pub add : F → F → F
  pub sub : F → F → F
  pub mul : F → F → F
  pub min : F → F → F
  pub max : F → F → F
  pub ge : F → F → Bool
  pub is_finite : F → Bool
  pub is_nonzero : F → Bool
  pub is_negative : F → Bool
  pub locale_compare : String → String → F
  -- `a !== b` and `a > b` on scores, `a < b` on texts
  pub differ : F → F → Bool
  pub gt : F → F → Bool
  pub text_before : String → String → Bool

-- `IssueSelectionType`
pub data Selection : Type 0 where
  personalized major connected exploration opposite : Selection

abbrev pub selection_index : Selection → ℕ
selection_index Selection.personalized = 0
selection_index Selection.major = 1
selection_index Selection.connected = 2
selection_index Selection.exploration = 3
selection_index Selection.opposite = 4

-- `type === target`
abbrev pub same_selection : Selection → Selection → Bool
same_selection a b = selection_index a == selection_index b

-- The second components of `SELECTION_TARGETS`, by type.
abbrev pub quota : Selection → ℕ
quota Selection.personalized = 4
quota Selection.major = 2
quota Selection.connected = 1
quota Selection.exploration = 2
quota Selection.opposite = 1

abbrev pub selection_targets : List Selection
selection_targets =
    Selection.personalized ∷ Selection.major ∷ Selection.connected ∷ Selection.exploration
    ∷ Selection.opposite ∷ []

-- `FEED_BATCH_SIZE`
abbrev pub batch_size : ℕ
batch_size = 10

-- `FeedContinuation`
pub data Continuation : Type 0 where
  go_on exhausted constraint_limited search_limited : Continuation

-- `FeedRecommendationIssue`, without the fields that the recommendation does not read.
pub record Issue (F : Type 0) : Type 0 where
  pub id : String
  pub category_code : String
  pub main_topic : Option String
  pub representative_entity_id : Option String
  pub entity_ids : List String
  pub region_codes : List String
  pub age_groups : List String
  pub freshness_score : F
  pub importance_score : F
  pub connected : Option Bool

-- `UserRecommendationContext`
pub record Context : Type 0 where
  pub selected_category_codes : List String
  pub selected_entity_ids : List String
  pub preferred_region_codes : List String
  pub age_group : Option String

-- `RunState`
pub record RunState : Type 0 where
  pub last_topic : Option String
  pub last_representative_entity_id : Option String
  pub topic_run : ℕ
  pub entity_run : ℕ

-- `RecommendationInput`, without the issues: those are given apart. The sets are lists.
pub record Reader : Type 0 where
  pub context : Option Context
  pub acted_category_codes : List String
  pub connected_issue_ids : List String

-- `RecommendationCandidate`
pub record Candidate (F : Type 0) : Type 0 where
  pub issue : Issue F
  pub score : F
  pub eligible_types : List Selection
  pub reason_codes : List String

-- `SelectedCandidate`
pub record Selected (F : Type 0) : Type 0 where
  pub candidate : Candidate F
  pub selected_type : Selection

-- `V2SearchBudget`
pub record Budget : Type 0 where
  pub transitions : ℕ
  pub proposals : ℕ
  pub cut : Bool

-- `GreedyOrderResult`
pub record Order (F : Type 0) : Type 0 where
  pub items : List (Selected F)
  pub state : RunState
