-- ===== src/Onboarding/Tests.antt =====
-- Onboarding on a concrete repository.
use Prim.Native.Nat.{Ordering}
use newtine_backend.Prelude.{
  ◌↔◌, String, false, none, some, [], ◌∷◌, sort, ◌≡◌, ◌≢◌, refl, subst, true, string_eq,
}
use newtine_backend.Prelude.Map.{get, set}
use newtine_backend.Prelude.Result.{ok}
use newtine_backend.Onboarding.Model.{Status, Command, Snapshot, Entity, EntityType}
use newtine_backend.Onboarding.Repository.{
  Locale, Repository, User, new_repository, seed_user, complete_onboarding, completed_user,
  new_user, put_user, skip_onboarding, validate_selection, require_user, find_onboarding,
  to_snapshot, topic_before,
}
use newtine_backend.Onboarding.Selection.{IsSelection, validate_selection_iff}
use newtine_backend.Onboarding.States.{
  complete_onboarding-Saved, complete_onboarding_again, skip_onboarding-complete_onboarding,
}
use newtine_backend.Onboarding.States.Invariant.{Reachable, Step, UserOk, Reachable-UserOk}

abbrev locale : Locale
locale = record {
  lower = λ s. s;
  compare_names = λ a b. Ordering.eq;
  compare_ids = λ a b. Ordering.eq;
  text_before = λ a b. false;
}

abbrev party : Entity
party = record {
  id = "e1";
  name = "Party";
  type = EntityType.party;
  subtitle = none;
  aliases = [];
  is_active = true;
}

abbrev one_user : Repository
one_user = put_user (new_repository (party ∷ [])) "u1" (new_user "u1")

abbrev chosen : Command
chosen = record {
  topic_codes = "politics" ∷ "housing" ∷ [];
  entity_ids = "e1" ∷ [];
  age_group = some "AGE_19_34";
  region_codes = "SEOUL" ∷ [];
}

abbrev done_user : User
done_user = completed_user (new_user "u1") chosen 7

abbrev done : Repository × Snapshot
done = (put_user one_user "u1" done_user, to_snapshot locale done_user)

abbrev redone : Repository × Snapshot
redone = (
  put_user (put_user one_user "u1" done_user) "u1" (completed_user done_user chosen 9),
  to_snapshot locale (completed_user done_user chosen 9),
)

validate_selection_iff_example :
    (validate_selection one_user chosen ≡ ok tt) ↔ IsSelection one_user chosen
validate_selection_iff_example = validate_selection_iff one_user chosen

completes : complete_onboarding locale one_user "u1" chosen 7 ≡ ok done
unfolding complete_onboarding validate_selection require_user get set
completes = refl

completes_again :
    complete_onboarding locale (put_user one_user "u1" done_user) "u1" chosen 9 ≡ ok redone
unfolding complete_onboarding validate_selection require_user get set
completes_again = refl

complete_onboarding-Saved_example :
    (find_onboarding locale done.0 "u1" ≡ some done.1)
    × (done.1.status ≡ Status.completed)
    × (done.1.topic_codes ≡ sort topic_before chosen.topic_codes)
    × (done.1.entity_ids ≡ sort locale.text_before chosen.entity_ids)
    × (done.1.age_group ≡ chosen.age_group)
    × (done.1.region_codes ≡ sort locale.text_before chosen.region_codes)
    × ((other : String)
        → other ≢ "u1"
        → find_onboarding locale done.0 other ≡ find_onboarding locale one_user other)
complete_onboarding-Saved_example =
    complete_onboarding-Saved locale one_user "u1" chosen 7 done completes

complete_onboarding_again_example :
    (redone.1.completed_at ≡ done.1.completed_at)
    × (redone.1.topic_codes ≡ sort topic_before chosen.topic_codes)
complete_onboarding_again_example =
    complete_onboarding_again locale one_user "u1" chosen chosen 7 9 done redone completes
      completes_again

skip_onboarding-complete_onboarding_example : skip_onboarding locale done.0 "u1" ≡ ok done
skip_onboarding-complete_onboarding_example =
    skip_onboarding-complete_onboarding locale one_user "u1" chosen 7 done completes

seeded : seed_user (new_repository (party ∷ [])) "u1" ≡ one_user
unfolding seed_user get
seeded = refl

found_done : get "u1" done.0.users ≡ some done_user
unfolding get set
found_done = refl

reached : Reachable locale done.0
reached =
    Reachable.after
      (subst (Reachable locale) seeded
        (Reachable.after (Reachable.start (party ∷ [])) (Step.user_seeded "u1")))
      (Step.completed "u1" chosen 7 done completes)

Reachable-UserOk_example : UserOk "u1" done_user
Reachable-UserOk_example = Reachable-UserOk locale "u1" done_user reached found_done
