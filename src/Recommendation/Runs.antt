-- ===== src/Recommendation/Runs.antt =====
-- The rule that no topic and no entity comes three times in a row: `canAppend` and
-- `advanceRunState` of apps/api/src/issue/recommendation/issueRecommendation.ts.
pub mod Laws
use newtine_backend.Prelude.{
  ℕ, ◌+◌, String, Bool, true, false, not, ◌&&◌, Option, none, some, leb, ◌==◌, string_eq, option_eq,
  if◌then◌else◌,
}
use newtine_backend.Recommendation.Types.{Issue, RunState}

-- `RunSignature`
pub record Signature : Type 0 where
  pub main_topic : Option String
  pub representative_entity_id : Option String

abbrev pub signature_of : {F : Type 0} → Issue F → Signature
signature_of i = record {
  main_topic = i.main_topic;
  representative_entity_id = i.representative_entity_id;
}

-- `value !== null && value === last`
abbrev pub same_as_last : Option String → Option String → Bool
same_as_last none last = false
same_as_last (some t) last = some t == last

unfoldable pub can_append_signature : Signature → RunState → Bool
can_append_signature g s =
    not (same_as_last g.main_topic s.last_topic && leb 2 s.topic_run)
    && not (
        same_as_last g.representative_entity_id s.last_representative_entity_id
        && leb 2 s.entity_run)

-- The length of the run that ends with `value`.
abbrev pub run_after : Option String → Option String → ℕ → ℕ
run_after none last run = 0
run_after (some t) last run = if some t == last then run + 1 else 1

unfoldable pub advance_run_state_signature : Signature → RunState → RunState
advance_run_state_signature g s = record {
  last_topic = g.main_topic;
  last_representative_entity_id = g.representative_entity_id;
  topic_run = run_after g.main_topic s.last_topic s.topic_run;
  entity_run = run_after g.representative_entity_id s.last_representative_entity_id s.entity_run;
}

unfoldable pub can_append : {F : Type 0} → Issue F → RunState → Bool
can_append i s = can_append_signature (signature_of i) s

unfoldable pub advance_run_state : {F : Type 0} → Issue F → RunState → RunState
advance_run_state i s = advance_run_state_signature (signature_of i) s
