-- ===== src/Pipeline/Validator/Spec.antt =====
-- What pipeline.validator.ts accepts, said without the order of its checks.
use newtine_backend.Prelude.{
  ◌≤◌, ◌<◌, String, Bool, true, false, ◌||◌, none, List, [], ◌∷◌, ◌++◌, ◌≡◌, ◌≢◌, ◌↔◌, refl, arith,
  any, length, includes, All, string_eq, nat_eq, ==_iff, unique,
}
use newtine_backend.Prelude.Text.{is_blank}
use newtine_backend.Pipeline.Types.{FetchedArticle}
use newtine_backend.Pipeline.Validator.{
  Viewpoint, Glossary, Impact, Content, Semantic, Verdict, Outcome, each, check_reference,
  validate_article_references, article_ids_of, is_impact_target_value, check_viewpoint,
  check_glossary, check_impact, or_empty, validate_generated_content, check_groups,
  validate_semantic_result,
}

-- At least one reference, and all to articles of the input.
pub record References (available ids : List String) : Type 0 where
  pub some_given : ids ≢ []
  pub inside : All (λ id. includes available id ≡ true) ids

pub record ViewpointOk (available : List String) (v : Viewpoint) : Type 0 where
  pub references : References available v.article_ids
  pub statement : is_blank v.statement ≡ false

pub record GlossaryOk (available : List String) (g : Glossary) : Type 0 where
  pub references : References available g.article_ids
  pub term : is_blank g.term ≡ false
  pub definition : is_blank g.definition ≡ false

pub record ImpactOk (available : List String) (i : Impact) : Type 0 where
  pub target : i.target_type ≡ "AGE_GROUP"
  pub group : is_impact_target_value i.target_value ≡ true
  pub references : References available i.article_ids
  pub description : is_blank i.description ≡ false

pub record ContentOk (content : Content) (fetched : List FetchedArticle) : Type 0 where
  pub summary : is_blank content.integrated_summary ≡ false
  pub three_lines : length content.summary_lines ≡ 3
  pub full_lines : All (λ line. is_blank line ≡ false) content.summary_lines
  pub few_terms : length content.glossary ≤ 5
  pub viewpoints : All (ViewpointOk (article_ids_of fetched)) (or_empty content.viewpoints)
  pub glossary : All (GlossaryOk (article_ids_of fetched)) content.glossary
  pub impacts : All (ImpactOk (article_ids_of fetched)) content.impacts

module _ {ℓ} {A : Type ℓ} (p : A → Bool) where
  any-All : (xs : List A) → any p xs ≡ false → All (λ x. p x ≡ false) xs
  any-All [] h = tt
  any-All (x ∷ xs) h = (ground arith, any-All xs (ground arith))

  All-any : (xs : List A) → All (λ x. p x ≡ false) xs → any p xs ≡ false
  All-any [] h = refl
  All-any (x ∷ xs) h = ground (arith, h.0, All-any xs h.1)

module _ {ℓ κ} {A : Type ℓ} (f : A → Outcome) (P : A → Type κ) (sound : (x : A) → f x ≡ none → P x)
    (complete : (x : A) → P x → f x ≡ none) where
  each_sound : (xs : List A) → each f xs ≡ none → All P xs
  each_sound [] h = tt
  each_sound (x ∷ xs) h = (sound x (ground arith), each_sound xs (ground arith))

  each_complete : (xs : List A) → All P xs → each f xs ≡ none
  each_complete [] h = refl
  each_complete (x ∷ xs) h = ground (arith, complete x h.0, each_complete xs h.1)

module _ (available : List String) where
  inside_sound :
      (ids : List String)
      → each (check_reference available) ids ≡ none
      → All (λ id. includes available id ≡ true) ids
  inside_sound ids h =
      each_sound (check_reference available) (λ id. includes available id ≡ true)
        (λ id e. ground arith) (λ id e. ground arith) ids h

  inside_complete :
      (ids : List String)
      → All (λ id. includes available id ≡ true) ids
      → each (check_reference available) ids ≡ none
  inside_complete ids h =
      each_complete (check_reference available) (λ id. includes available id ≡ true)
        (λ id e. ground arith) (λ id e. ground arith) ids h

  References-sound :
      (ids : List String)
      → validate_article_references ids available ≡ none
      → References available ids
  unfolding validate_article_references
  References-sound [] h = absurd (cc)
  References-sound (id ∷ ids) h = record {
    some_given = λ e. cc;
    inside = inside_sound (id ∷ ids) (ground arith);
  }

  References-complete :
      (ids : List String)
      → References available ids
      → validate_article_references ids available ≡ none
  unfolding validate_article_references
  References-complete [] r = absurd (r.some_given refl)
  References-complete (id ∷ ids) r = ground (arith, inside_complete (id ∷ ids) r.inside)

  check_viewpoint_sound :
      (v : Viewpoint) → check_viewpoint available v ≡ none → ViewpointOk available v
  unfolding check_viewpoint
  check_viewpoint_sound v h = record {
    references = References-sound v.article_ids (ground arith);
    statement = ground arith;
  }

  check_viewpoint_complete :
      (v : Viewpoint) → ViewpointOk available v → check_viewpoint available v ≡ none
  unfolding check_viewpoint
  check_viewpoint_complete v o =
      ground (arith, References-complete v.article_ids o.references, o.statement)

  check_glossary_sound : (g : Glossary) → check_glossary available g ≡ none → GlossaryOk available g
  unfolding check_glossary
  check_glossary_sound g h = record {
    references = References-sound g.article_ids (ground arith);
    term = ground arith;
    definition = ground arith;
  }

  check_glossary_complete :
      (g : Glossary) → GlossaryOk available g → check_glossary available g ≡ none
  unfolding check_glossary
  check_glossary_complete g o =
      ground (arith, References-complete g.article_ids o.references, o.term, o.definition)

  check_impact_sound : (i : Impact) → check_impact available i ≡ none → ImpactOk available i
  unfolding check_impact
  check_impact_sound i h = record {
    target = (==_iff i.target_type "AGE_GROUP").0 (ground arith);
    group = ground arith;
    references = References-sound i.article_ids (ground arith);
    description = ground arith;
  }

  check_impact_complete : (i : Impact) → ImpactOk available i → check_impact available i ≡ none
  unfolding check_impact
  check_impact_complete i o = ground (
    arith,
    References-complete i.article_ids o.references,
    (==_iff i.target_type "AGE_GROUP").1 o.target,
    o.group,
    o.description,
  )

-- `validateGeneratedContent` accepts exactly the content with a summary, three lines that are not blank,
-- at most five glossary entries, and viewpoints, entries and impacts that are each complete and refer
-- to fetched articles only, at least one.
pub validate_generated_content_iff :
    (content : Content) (fetched : List FetchedArticle)
    → (validate_generated_content content fetched ≡ none) ↔ ContentOk content fetched
unfolding validate_generated_content
validate_generated_content_iff content fetched =
    let av = article_ids_of fetched in
    (
      λ h. record {
        summary = ground arith;
        three_lines = ground arith;
        full_lines = any-All is_blank content.summary_lines (ground arith);
        few_terms = ground arith;
        viewpoints =
            each_sound (check_viewpoint av) (ViewpointOk av) (check_viewpoint_sound av)
              (check_viewpoint_complete av) (or_empty content.viewpoints) (ground arith);
        glossary =
            each_sound (check_glossary av) (GlossaryOk av) (check_glossary_sound av)
              (check_glossary_complete av) content.glossary (ground arith);
        impacts =
            each_sound (check_impact av) (ImpactOk av) (check_impact_sound av)
              (check_impact_complete av) content.impacts (ground arith);
      },
      λ o. ground (
        arith,
        o.summary,
        o.three_lines,
        o.few_terms,
        All-any is_blank content.summary_lines o.full_lines,
        each_complete (check_viewpoint av) (ViewpointOk av) (check_viewpoint_sound av)
            (check_viewpoint_complete av) (or_empty content.viewpoints) o.viewpoints,
        each_complete (check_glossary av) (GlossaryOk av) (check_glossary_sound av)
            (check_glossary_complete av) content.glossary o.glossary,
        each_complete (check_impact av) (ImpactOk av) (check_impact_sound av)
            (check_impact_complete av) content.impacts o.impacts,
      ),
    )

-- A group of evidence: articles of the input, at least one, none named twice.
pub record GroupOk (available group : List String) : Type 0 where
  pub references : References available group
  pub distinct : length (unique group) ≡ length group

-- No article of one group is in another.
abbrev pub Apart : List String → List String → Type 0
Apart xs ys = All (λ id. includes xs id ≡ false) ys

abbrev pub PairwiseApart : List (List String) → Type 0
PairwiseApart [] = Unit
PairwiseApart (group ∷ groups) = All (Apart group) groups × PairwiseApart groups

includes-append :
    (xs ys : List String) (id : String)
    → includes (xs ++ ys) id ≡ (includes xs id || includes ys id)
includes-append [] ys id = refl
includes-append (x ∷ xs) ys id = ground (arith, includes-append xs ys id)

Apart-append : (xs ys zs : List String) → Apart (xs ++ ys) zs → Apart xs zs × Apart ys zs
Apart-append xs ys [] h = (tt, tt)
Apart-append xs ys (z ∷ zs) h =
    let (a, b) = Apart-append xs ys zs h.1 in
    (
      (ground (arith, includes-append xs ys z, h.0), a),
      (ground (arith, includes-append xs ys z, h.0), b),
    )

All-Apart-append :
    (xs ys : List String) (groups : List (List String))
    → All (Apart (xs ++ ys)) groups
    → All (Apart xs) groups × All (Apart ys) groups
All-Apart-append xs ys [] h = (tt, tt)
All-Apart-append xs ys (g ∷ groups) h =
    let (a, b) = Apart-append xs ys g h.0 in
    let (c, d) = All-Apart-append xs ys groups h.1 in ((a, c), (b, d))

check_groups_sound :
    (available seen : List String) (groups : List (List String))
    → check_groups available seen groups ≡ none
    → All (GroupOk available) groups × All (Apart seen) groups × PairwiseApart groups
unfolding check_groups
check_groups_sound available seen [] h = (tt, tt, tt)
check_groups_sound available seen (group ∷ groups) h =
    let (ok_rest, apart_rest, pairwise) =
      check_groups_sound available (seen ++ group) groups (ground arith) in
    let (from_seen, from_group) = All-Apart-append seen group groups apart_rest in
    (
      (
        record {
          references = References-sound available group (ground arith);
          distinct = ground arith;
        },
        ok_rest,
      ),
      (any-All (λ id. includes seen id) group (ground arith), from_seen),
      (from_group, pairwise),
    )

length-eq-zero : (xs : List String) → (0 < length xs → ⊥) → xs ≡ []
length-eq-zero [] h = refl
length-eq-zero (x ∷ xs) h = absurd (h (omega arith))

-- A semantic result that is accepted has the verdict `PASS` and no conflict, and names at least two
-- groups of evidence, each of fetched articles without repetition, no two of which share an article.
pub validate_semantic_result_sound :
    (result : Semantic) (fetched : List FetchedArticle)
    → validate_semantic_result result fetched ≡ none
    → (result.status ≡ Verdict.pass)
      × (result.conflicts ≡ [])
      × (2 ≤ length result.independent_evidence_groups)
      × All (GroupOk (article_ids_of fetched)) result.independent_evidence_groups
      × PairwiseApart result.independent_evidence_groups
unfolding validate_semantic_result
validate_semantic_result_sound result fetched h =
    let (groups_ok, _, pairwise) =
      check_groups_sound (article_ids_of fetched) [] result.independent_evidence_groups
        (ground arith) in
    (
      ground arith,
      length-eq-zero result.conflicts (λ some_conflict. ground arith),
      ground arith,
      groups_ok,
      pairwise,
    )
