-- ===== src/Recommendation/Score.antt =====
-- The score and the eligible types of a candidate, and the order of candidates: `scoreCandidate`,
-- `hasKnownMismatch`, `compareCandidate`, `scoreAtLeast` and `clamp01` of
-- apps/api/src/issue/recommendation/issueRecommendation.ts.
use newtine_backend.Prelude.{
  String, Bool, true, false, not, ◌&&◌, ◌||◌, Option, none, some, List, [], ◌∷◌, ◌++◌, any,
  includes, ◌==◌, string_eq, if◌then◌else◌,
}
use newtine_backend.Recommendation.Types.{Numbers, Selection, Issue, Context, Reader, Candidate}

-- `xs.some((id) => ys.includes(id))`
abbrev pub meets : List String → List String → Bool
meets xs ys = any (λ x. includes ys x) xs

abbrev pub is_empty : List String → Bool
is_empty [] = true
is_empty (x ∷ xs) = false

abbrev pub list_if : {A : Type 0} → Bool → A → List A
list_if b a = if b then a ∷ [] else []

abbrev pub age_matches : List String → Option String → Bool
age_matches groups none = false
age_matches groups (some a) = includes groups a

abbrev age_is_known : Option String → Bool
age_is_known none = false
age_is_known (some a) = true

abbrev pub given_or : Option Bool → Bool → Bool
given_or none b = b
given_or (some a) b = a

module _ {F : Type 0} (n : Numbers F) where
  unfoldable pub clamp01 : F → F
  clamp01 value = if not (n.is_finite value) then n.nought else n.min n.unit (n.max n.nought value)

  unfoldable pub score_at_least : F → F → Bool
  score_at_least value threshold = n.is_finite value && n.ge value threshold

  unfoldable pub has_known_mismatch : Issue F → Option Context → Bool
  has_known_mismatch i none = false
  has_known_mismatch i (some c) =
      (not (is_empty c.selected_category_codes)
        && not (i.category_code == "")
        && not (includes c.selected_category_codes i.category_code))
      || (not (is_empty c.selected_entity_ids)
          && not (is_empty i.entity_ids)
          && not (meets i.entity_ids c.selected_entity_ids))
      || (not (is_empty c.preferred_region_codes)
          && not (is_empty i.region_codes)
          && not (meets i.region_codes c.preferred_region_codes))
      || (age_is_known c.age_group
          && not (is_empty i.age_groups)
          && not (age_matches i.age_groups c.age_group))

  -- `compareCandidate`
  unfoldable pub compare_candidate : Candidate F → Candidate F → F
  unfolding clamp01
  compare_candidate l r =
      let by_score = n.sub r.score l.score in
      let by_freshness =
        n.sub (clamp01 r.issue.freshness_score) (clamp01 l.issue.freshness_score) in
      let by_importance =
        n.sub (clamp01 r.issue.importance_score) (clamp01 l.issue.importance_score) in
      if n.is_nonzero by_score
      then by_score
      else if n.is_nonzero by_freshness
      then by_freshness
      else if n.is_nonzero by_importance
      then by_importance
      else n.locale_compare l.issue.id r.issue.id

  -- `compareCandidate(l, r) < 0`
  abbrev pub ranks_before : Candidate F → Candidate F → Bool
  ranks_before l r = n.is_negative (compare_candidate l r)

  abbrev category_match : Issue F → Option Context → Bool
  category_match i none = false
  category_match i (some c) = includes c.selected_category_codes i.category_code

  abbrev entity_match : Issue F → Option Context → Bool
  entity_match i none = false
  entity_match i (some c) = meets i.entity_ids c.selected_entity_ids

  abbrev region_match : Issue F → Option Context → Bool
  region_match i none = false
  region_match i (some c) = meets i.region_codes c.preferred_region_codes

  abbrev age_match : Issue F → Option Context → Bool
  age_match i none = false
  age_match i (some c) = age_matches i.age_groups c.age_group

  abbrev has_context : Option Context → Bool
  has_context none = false
  has_context (some c) = true

  abbrev points : Bool → F → F
  points b x = if b then x else n.nought

  abbrev pub candidate_of : Issue F → F → List String → List Selection → Option (Candidate F)
  candidate_of i score reasons [] = none
  candidate_of i score reasons (t ∷ ts) =
      some (record { issue = i; score = score; eligible_types = t ∷ ts; reason_codes = reasons })

  -- `scoreCandidate`
  unfoldable pub score_candidate : Issue F → Reader → F → Option (Candidate F)
  unfolding has_known_mismatch score_at_least clamp01
  score_candidate i r threshold =
      let category = category_match i r.context in
      let entity = entity_match i r.context in
      let region = region_match i r.context in
      let age = age_match i r.context in
      let linked = given_or i.connected (includes r.connected_issue_ids i.id) in
      let mismatch = has_known_mismatch i r.context in
      let high_importance = score_at_least i.importance_score threshold in
      let high_freshness = score_at_least i.freshness_score threshold in
      let personal = category || entity || region || age in
      let explores = not category && not (includes r.acted_category_codes i.category_code) in
      let major = high_importance || high_freshness in
      let opposes = has_context r.context && not personal && mismatch && major in
      candidate_of i
        (clamp01 (
          n.add
            (n.add
              (n.add
                (n.add
                  (n.add (n.add (points category n.quarter) (points entity n.fifth))
                    (points linked n.three_twentieths))
                  (points region n.tenth))
                (points age n.tenth))
              (n.mul (clamp01 i.importance_score) n.tenth))
            (n.mul (clamp01 i.freshness_score) n.tenth)))
        (list_if category "CATEGORY_MATCH"
          ++ list_if entity "ENTITY_MATCH"
          ++ list_if region "REGION_MATCH"
          ++ list_if age "AGE_GROUP_MATCH"
          ++ list_if linked "FOLLOW_UP_LIKE"
          ++ list_if high_importance "IMPORTANCE_HIGH"
          ++ list_if high_freshness "FRESHNESS_HIGH"
          ++ list_if opposes "KNOWN_MISMATCH"
          ++ list_if explores "NEW_TOPIC")
        (list_if personal Selection.personalized
          ++ list_if major Selection.major
          ++ list_if linked Selection.connected
          ++ list_if explores Selection.exploration
          ++ list_if opposes Selection.opposite)
