-- ===== src/Pipeline/Validator.antt =====
-- libs/core/src/pipeline/domain/pipeline.validator.ts. The inputs have their TypeScript types here,
-- so the tests of shape (`typeof`, `Array.isArray`, `=== null`) that cannot fail are left out.
pub mod Spec
mod Tests
use newtine_backend.Prelude.{
  ℕ, String, Bool, true, false, not, ◌&&◌, ◌||◌, Option, none, some, List, [], ◌∷◌, ◌++◌, map,
  length, any, includes, unique, leb, ltb, ◌==◌, string_eq, nat_eq, if◌then◌else◌,
}
use newtine_backend.Prelude.Text.{is_blank}
use newtine_backend.Pipeline.Types.{FetchedArticle}

pub record Viewpoint : Type 0 where
  pub statement : String
  pub article_ids : List String

pub record Glossary : Type 0 where
  pub term : String
  pub definition : String
  pub article_ids : List String

-- `target_value` is any text: the test of the four age groups is made at run time.
pub record Impact : Type 0 where
  pub target_type : String
  pub target_value : String
  pub description : String
  pub article_ids : List String

pub record Content : Type 0 where
  pub integrated_summary : String
  pub summary_lines : List String
  pub viewpoints : Option (List Viewpoint)
  pub glossary : List Glossary
  pub impacts : List Impact

pub data Verdict : Type 0 where
  pass fail uncertain : Verdict

pub record Semantic : Type 0 where
  pub status : Verdict
  pub reason : String
  pub independent_evidence_groups : List (List String)
  pub conflicts : List String

-- The failures, each for the text that the source reports, with the values that stand in it: the
-- reference outside of the input, or the status and the reason of a result that did not pass.
pub data Failure : Type 0 where
  no_reference : Failure
  outside_input : String → Failure
  summary_empty lines_wrong glossary_too_long : Failure
  viewpoint_reference : Failure → Failure
  viewpoint_empty : Failure
  glossary_reference : Failure → Failure
  glossary_empty : Failure
  impact_shape : Failure
  impact_reference : Failure → Failure
  impact_empty : Failure
  semantic_shape pass_with_conflicts : Failure
  not_passed : Verdict → String → Failure
  too_few_groups group_empty group_repeats : Failure
  evidence_reference : Failure → Failure
  groups_overlap too_few_articles : Failure

-- `none` is `{ ok: true }`.
abbrev pub Outcome : Type 0
Outcome = Option Failure

-- The next check runs only if this one passed.
infixr 20 ◌orelse◌
abbrev pub ◌orelse◌ : Outcome → Outcome → Outcome
none orelse k = k
some f orelse k = some f

abbrev pub fails_if : Bool → Failure → Outcome
fails_if true f = some f
fails_if false f = none

abbrev pub within : (Failure → Failure) → Outcome → Outcome
within wrap none = none
within wrap (some f) = some (wrap f)

-- The first failure of a loop.
abbrev pub each {ℓ} : {A : Type ℓ} → (A → Outcome) → List A → Outcome
each f [] = none
each f (x ∷ xs) = f x orelse each f xs

abbrev pub check_reference : List String → String → Outcome
check_reference available id = fails_if (not (includes available id)) (outside_input id)

unfoldable pub validate_article_references : List String → List String → Outcome
validate_article_references ids available =
    fails_if (length ids == 0) no_reference orelse each (check_reference available) ids

abbrev pub article_ids_of : List FetchedArticle → List String
article_ids_of articles = map (λ a. a.article_id) articles

unfoldable pub is_impact_target_value : String → Bool
is_impact_target_value value =
    value == "AGE_19_34" || value == "AGE_35_49" || value == "AGE_50_64" || value == "AGE_65_PLUS"

check_viewpoint : List String → Viewpoint → Outcome
check_viewpoint available v =
    within viewpoint_reference (validate_article_references v.article_ids available)
    orelse fails_if (is_blank v.statement) viewpoint_empty

check_glossary : List String → Glossary → Outcome
check_glossary available g =
    within glossary_reference (validate_article_references g.article_ids available)
    orelse fails_if (is_blank g.term || is_blank g.definition) glossary_empty

check_impact : List String → Impact → Outcome
check_impact available i =
    fails_if (not (i.target_type == "AGE_GROUP") || not (is_impact_target_value i.target_value))
      impact_shape
    orelse within impact_reference (validate_article_references i.article_ids available)
    orelse fails_if (is_blank i.description) impact_empty

abbrev pub or_empty {ℓ} : {A : Type ℓ} → Option (List A) → List A
or_empty none = []
or_empty (some xs) = xs

unfoldable pub validate_generated_content : Content → List FetchedArticle → Outcome
unfolding check_viewpoint check_glossary check_impact
validate_generated_content content fetched =
    let available = article_ids_of fetched in
    fails_if (is_blank content.integrated_summary) summary_empty
    orelse fails_if (not (length content.summary_lines == 3) || any is_blank content.summary_lines)
        lines_wrong
    orelse fails_if (ltb 5 (length content.glossary)) glossary_too_long
    orelse each (check_viewpoint available) (or_empty content.viewpoints)
    orelse each (check_glossary available) content.glossary
    orelse each (check_impact available) content.impacts

-- The loop over the groups; `seen` holds the articles of the groups before.
check_groups : List String → List String → List (List String) → Outcome
check_groups available seen [] = fails_if (ltb (length (unique seen)) 2) too_few_articles
check_groups available seen (group ∷ groups) =
    fails_if (length group == 0) group_empty
    orelse fails_if (not (length (unique group) == length group)) group_repeats
    orelse within evidence_reference (validate_article_references group available)
    orelse fails_if (any (λ id. includes seen id) group) groups_overlap
    orelse check_groups available (seen ++ group) groups

abbrev pub is_pass : Verdict → Bool
is_pass pass = true
is_pass _ = false

unfoldable pub validate_semantic_result : Semantic → List FetchedArticle → Outcome
unfolding check_groups
validate_semantic_result result fetched =
    fails_if (any is_blank result.conflicts) semantic_shape
    orelse fails_if (is_pass result.status && ltb 0 (length result.conflicts)) pass_with_conflicts
    orelse fails_if (not (is_pass result.status)) (not_passed result.status result.reason)
    orelse fails_if (ltb (length result.independent_evidence_groups) 2) too_few_groups
    orelse check_groups (article_ids_of fetched) [] result.independent_evidence_groups

abbrev pub is_ok : Outcome → Bool
is_ok none = true
is_ok (some f) = false
