-- ===== src/Onboarding/States/Invariant.antt =====
-- What holds of every reader's record after any sequence of calls.
use newtine_backend.Prelude.{
  ℕ, ◌≤◌, String, none, some, some-injective, List, [], length, includes, unique-Distinct, Distinct,
  ◌==◌, string_eq, ◌≡◌, refl, sym, ◌∙◌, subst, ==_iff, Bool-cases, Option-cases, inl, inr,
}
use newtine_backend.Prelude.Map.{get, get-set}
use newtine_backend.Prelude.Result.{ok, first_of_chain, ok-injective}
use newtine_backend.Onboarding.Model.{Status, Entity, Snapshot, Command, topics, regions, codes_of}
use newtine_backend.Onboarding.Repository.{
  Locale, User, Repository, weighted, require_user, completion_time, completed_user, put_user,
  complete_onboarding, skip_user, skipped_user, skip_onboarding, new_user, seed_user, seed_entity,
  new_repository,
}
use newtine_backend.Onboarding.Selection.{Passes, IsSelection}
use newtine_backend.Onboarding.States.{
  weighted-weigh_all, require_user-eq, complete_onboarding-IsCompletion,
}

-- The calls that change the repository; a call that throws changes nothing.
pub data Step (l : Locale) : Repository → Repository → Type 0 where
  user_seeded : {r : Repository} → (user_id : String) → Step l r (seed_user r user_id)
  entity_seeded : {r : Repository} → (e : Entity) → Step l r (seed_entity r e)
  completed :
      {r : Repository}
      → (user_id : String) → (c : Command) → (now : ℕ) → (p : Repository × Snapshot)
      → complete_onboarding l r user_id c now ≡ ok p
      → Step l r p.0
  skipped :
      {r : Repository}
      → (user_id : String) → (p : Repository × Snapshot) → skip_onboarding l r user_id ≡ ok p
      → Step l r p.0

pub data Reachable (l : Locale) : Repository → Type 0 where
  start : (initial : List Entity) → Reachable l (new_repository initial)
  after : {r r' : Repository} → Reachable l r → Step l r r' → Reachable l r'

-- Nothing is chosen.
pub record IsPlain (u : User) : Type 0 where
  pub no_time : u.completed_at ≡ none
  pub no_age : u.age_group ≡ none
  pub no_topics : u.topic_weights ≡ []
  pub no_entities : u.entity_weights ≡ []
  pub no_regions : u.region_codes ≡ []

-- At least one topic that is offered is chosen, no region that is not, and the time is kept.
pub record IsChosen (u : User) : Type 0 where
  pub time : ℕ
  pub at_time : u.completed_at ≡ some time
  pub some_topic : 1 ≤ length (weighted u.topic_weights)
  pub topics_distinct : Distinct (weighted u.topic_weights)
  pub topics_known : Passes (includes (codes_of topics)) (weighted u.topic_weights)
  pub regions_known : Passes (includes (codes_of regions)) u.region_codes

abbrev pub StatusOk : Status → User → Type 0
StatusOk Status.pending u = IsPlain u
StatusOk Status.completed u = IsChosen u
StatusOk Status.skipped u = IsPlain u

abbrev pub UserOk : String → User → Type 0
UserOk user_id u = (u.user_id ≡ user_id) × StatusOk u.status u

abbrev pub UsersOk : Repository → Type 0
UsersOk r = (user_id : String) (u : User) → get user_id r.users ≡ some u → UserOk user_id u

put_user-UsersOk :
    (r : Repository) (user_id : String) (new : User)
    → UserOk user_id new
    → UsersOk r
    → UsersOk (put_user r user_id new)
put_user-UsersOk r user_id new new_ok fine other u h =
    let found = sym (get-set user_id other new r.users) ∙ h in
    elim (Bool-cases (user_id == other)) [
      | inl e ↦
          let same = some-injective new u (rw e at found) in
          subst (UserOk other) same
            (subst (λ id. UserOk id new) ((==_iff user_id other).0 e) new_ok)
      | inr e ↦ fine other u (rw e at found)
    ]

completed_user-IsChosen :
    (r : Repository) (u : User) (c : Command) (now : ℕ)
    → IsSelection r c
    → IsChosen (completed_user u c now)
completed_user-IsChosen r u c now s =
    let topics_are = weighted-weigh_all c.topic_codes s.topics_distinct in
    let regions_are = unique-Distinct c.region_codes s.regions_distinct in
    record {
      time = completion_time u.status u.completed_at now;
      at_time = refl;
      some_topic = subst (λ xs. 1 ≤ length xs) (sym topics_are) s.some_topic;
      topics_distinct = subst Distinct (sym topics_are) s.topics_distinct;
      topics_known = subst (Passes (includes (codes_of topics))) (sym topics_are) s.topics_known;
      regions_known =
          subst (Passes (includes (codes_of regions))) (sym regions_are) s.regions_known;
    }

skip_user-UsersOk :
    (l : Locale) (r : Repository) (user_id : String) (u : User) (s : Status)
    → u.user_id ≡ user_id
    → StatusOk s u
    → UsersOk r
    → UsersOk (skip_user l r user_id u s).0
skip_user-UsersOk l r user_id u Status.pending named plain fine =
    put_user-UsersOk r user_id (skipped_user u)
      (
        named,
        record {
          no_time = refl;
          no_age = refl;
          no_topics = plain.no_topics;
          no_entities = plain.no_entities;
          no_regions = plain.no_regions;
        },
      )
      fine
skip_user-UsersOk l r user_id u Status.completed named chosen fine = fine
skip_user-UsersOk l r user_id u Status.skipped named plain fine = fine

seed_user-UsersOk : (r : Repository) (user_id : String) → UsersOk r → UsersOk (seed_user r user_id)
unfolding seed_user
seed_user-UsersOk r user_id fine = elim (Option-cases (get user_id r.users)) [
  | inr (u, e) ↦ rw (seed_user, e) fine
  | inl e ↦
      rw (seed_user, e)
        (put_user-UsersOk r user_id (new_user user_id)
          (
            refl,
            record {
              no_time = refl;
              no_age = refl;
              no_topics = refl;
              no_entities = refl;
              no_regions = refl;
            },
          )
          fine)
]

skip_onboarding-UsersOk :
    (l : Locale) (r : Repository) (user_id : String) (p : Repository × Snapshot)
    → skip_onboarding l r user_id ≡ ok p
    → UsersOk r
    → UsersOk p.0
unfolding skip_onboarding
skip_onboarding-UsersOk l r user_id p h users_ok =
    let (u, last, required) = first_of_chain (require_user r user_id) _ p h in
    let (named, status_ok) = users_ok user_id u (require_user-eq r user_id u required) in
    let same = ok-injective (skip_user l r user_id u u.status) p last in
    subst (λ q. UsersOk q.0) same
      (skip_user-UsersOk l r user_id u u.status named status_ok users_ok)

Step-UsersOk : (l : Locale) {r r' : Repository} → Step l r r' → UsersOk r → UsersOk r'
unfolding seed_entity
Step-UsersOk l {r = r} (Step.user_seeded user_id) fine = seed_user-UsersOk r user_id fine
Step-UsersOk l (Step.entity_seeded e) fine = fine
Step-UsersOk l {r = r} (Step.completed user_id c now p h) fine =
    let (u, done) = complete_onboarding-IsCompletion l r user_id c now p h in
    let (named, _) = fine user_id u done.found in
    subst UsersOk (sym done.written) (
      put_user-UsersOk r user_id (completed_user u c now)
        (named, completed_user-IsChosen r u c now done.selection) fine)
Step-UsersOk l {r = r} (Step.skipped user_id p h) fine =
    skip_onboarding-UsersOk l r user_id p h fine

Reachable-UsersOk : (l : Locale) {r : Repository} → Reachable l r → UsersOk r
unfolding get
Reachable-UsersOk l (Reachable.start initial) = λ user_id u h. absurd (cc)
Reachable-UsersOk l (Reachable.after h s) = Step-UsersOk l s (Reachable-UsersOk l h)

-- After any sequence of calls each reader's record stands under its own id; one that is completed
-- has a time, at least one topic, only topics and regions that are offered and no topic twice; one
-- that is pending or skipped has nothing chosen and no time.
pub Reachable-UserOk :
    (l : Locale) {r : Repository} (user_id : String) (u : User)
    → Reachable l r
    → get user_id r.users ≡ some u
    → UserOk user_id u
Reachable-UserOk l user_id u reached found = Reachable-UsersOk l reached user_id u found
