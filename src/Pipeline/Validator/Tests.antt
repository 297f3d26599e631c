-- ===== src/Pipeline/Validator/Tests.antt =====
-- The validators on a small answer.
use newtine_backend.Prelude.{String, none, some, List, [], ◌∷◌, ◌≡◌, ◌↔◌, ◌≤◌, refl, All, length}
use newtine_backend.Pipeline.Types.{FetchedArticle}
use newtine_backend.Pipeline.Validator.{
  Content, Semantic, Verdict, validate_generated_content, validate_semantic_result,
  validate_article_references, article_ids_of,
}
use newtine_backend.Pipeline.Validator.Spec.{
  ContentOk, GroupOk, PairwiseApart, validate_generated_content_iff, validate_semantic_result_sound,
}

abbrev article : String → FetchedArticle
article id = record {
  article_id = id;
  title = id;
  source_url = id;
  publisher_name = "press";
  published_at = none;
  body = "text";
}

abbrev fetched : List FetchedArticle
fetched = article "a1" ∷ article "a2" ∷ article "a3" ∷ []

abbrev content : Content
content = record {
  integrated_summary = "summary";
  summary_lines = "one" ∷ "two" ∷ "three" ∷ [];
  viewpoints = some (record { statement = "for"; article_ids = "a1" ∷ [] } ∷ []);
  glossary = record { term = "lease"; definition = "a contract"; article_ids = "a2" ∷ [] } ∷ [];
  impacts =
      record {
        target_type = "AGE_GROUP";
        target_value = "AGE_19_34";
        description = "rents";
        article_ids = "a3" ∷ [];
      }
      ∷ [];
}

abbrev semantic : Semantic
semantic = record {
  status = Verdict.pass;
  reason = "consistent";
  independent_evidence_groups = ("a1" ∷ []) ∷ ("a2" ∷ "a3" ∷ []) ∷ [];
  conflicts = [];
}

validate_generated_content_iff_example :
    (validate_generated_content content fetched ≡ none) ↔ ContentOk content fetched
validate_generated_content_iff_example = validate_generated_content_iff content fetched

semantic_accepted : validate_semantic_result semantic fetched ≡ none
unfolding validate_semantic_result validate_article_references
semantic_accepted = refl

validate_semantic_result_sound_example :
    (semantic.status ≡ Verdict.pass)
    × (semantic.conflicts ≡ [])
    × (2 ≤ length semantic.independent_evidence_groups)
    × All (GroupOk (article_ids_of fetched)) semantic.independent_evidence_groups
    × PairwiseApart semantic.independent_evidence_groups
validate_semantic_result_sound_example =
    validate_semantic_result_sound semantic fetched semantic_accepted
