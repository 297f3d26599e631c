-- ===== src/Onboarding/States.antt =====
-- The states of a reader's onboarding, over any sequence of calls.
pub mod Invariant
use text.Mathlib.TextEquality.{eq_iff}
use mathlib.Core.List.{append_assoc, append-nil}
use newtine_backend.Prelude.{
  ℕ, ◌≤◌, String, Bool, true, false, not, ◌||◌, Option, none, some, some-injective, List, [], ◌∷◌,
  ◌++◌, length, includes, unique, unique-Distinct, sort, Distinct, All, ltb, ◌==◌, nat_eq,
  string_eq, if◌then◌else◌, ◌≡◌, ◌≢◌, refl, sym, ap, ◌∙◌, subst, ==_iff, Bool-cases, Option-cases,
  inl, inr, arith,
}
use newtine_backend.Prelude.Map.{Map, get, set, get-set, get-set_self, set-new}
use newtine_backend.Prelude.Result.{Result, ok, err, ◌>>=◌, first_of_chain, ok-injective}
use newtine_backend.Onboarding.Model.{
  Status, Entity, Snapshot, Command, OnboardingError, topics, regions, codes_of,
}
use newtine_backend.Onboarding.Repository.{
  Locale, User, Repository, weighted, to_snapshot, topic_before, find_onboarding, require_user,
  user_or_error, validate_selection, weigh_all, completion_time, completed_user, put_user,
  complete_onboarding, skip_user, skipped_user, skip_onboarding, new_user, seed_user, seed_entity,
  new_repository,
}
use newtine_backend.Onboarding.Selection.{Passes, IsSelection, validate_selection_iff}

abbrev pairs : ℕ → List String → Map ℕ
pairs w [] = []
pairs w (x ∷ xs) = (x, w) ∷ pairs w xs

weigh_all-Distinct :
    (w : ℕ) (xs : List String) (m : Map ℕ)
    → Distinct xs
    → All (λ x. get x m ≡ none) xs
    → weigh_all w xs m ≡ m ++ pairs w xs
weigh_all-Distinct w [] m d h = sym (append-nil m)
weigh_all-Distinct w (x ∷ xs) m d h =
    weigh_all-Distinct w xs (set x w m) d.1 (still_new xs d.0 h.1)
    ∙ ap (λ l. l ++ pairs w xs) (set-new x w m h.0)
    ∙ append_assoc m ((x, w) ∷ []) (pairs w xs)
  where
    still_new :
        (ys : List String)
        → includes ys x ≡ false
        → All (λ y. get y m ≡ none) ys
        → All (λ y. get y (set x w m) ≡ none) ys
    still_new [] other g = tt
    still_new (y ∷ ys) other g =
        let apart : (x == y) ≡ false = ground (arith, other, eq_iff x y, eq_iff y x) in
        (get-set x y w m ∙ rw apart g.0, still_new ys (ground (arith, other)) g.1)

none_stored : (xs : List String) → All (λ x. get {V = ℕ} x [] ≡ none) xs
unfolding get
none_stored [] = tt
none_stored (x ∷ xs) = (refl, none_stored xs)

weighted-pairs : (xs : List String) → weighted (pairs 2 xs) ≡ xs
weighted-pairs [] = refl
weighted-pairs (x ∷ xs) = ap (λ l. x ∷ l) (weighted-pairs xs)

pub weighted-weigh_all : (xs : List String) → Distinct xs → weighted (weigh_all 2 xs []) ≡ xs
weighted-weigh_all xs d =
    ap weighted (weigh_all-Distinct 2 xs [] d (none_stored xs)) ∙ weighted-pairs xs

pub require_user-eq :
    (r : Repository) (user_id : String) (u : User)
    → require_user r user_id ≡ ok u
    → get user_id r.users ≡ some u
unfolding require_user
require_user-eq r user_id u h = elim (Option-cases (get user_id r.users)) [
  | inl e ↦ let failed : user_or_error none ≡ ok u = rw e at h in absurd (cc)
  | inr (v, e) ↦
      let given : user_or_error (some v) ≡ ok u = rw e at h in e ∙ ap some (ok-injective v u given)
]

-- What a completion has written.
pub record IsCompletion (l : Locale) (r : Repository) (user_id : String) (c : Command) (now : ℕ)
    (u : User) (r' : Repository) (s : Snapshot) : Type 0 where
  pub found : get user_id r.users ≡ some u
  pub selection : IsSelection r c
  pub written : r' ≡ put_user r user_id (completed_user u c now)
  pub shown : s ≡ to_snapshot l (completed_user u c now)

pub complete_onboarding-IsCompletion :
    (l : Locale) (r : Repository) (user_id : String) (c : Command) (now : ℕ)
    → (p : Repository × Snapshot) → complete_onboarding l r user_id c now ≡ ok p
    → (u : User) × IsCompletion l r user_id c now u p.0 p.1
unfolding complete_onboarding
complete_onboarding-IsCompletion l r user_id c now p h =
    let (u, rest, required) = first_of_chain (require_user r user_id) _ p h in
    let (done, last, valid) = first_of_chain (validate_selection r c) _ p rest in
    let same : (put_user r user_id (completed_user u c now), to_snapshot l (completed_user u c now))
        ≡ p =
      ok-injective _ p last in
    (
      u,
      record {
        found = require_user-eq r user_id u required;
        selection = (validate_selection_iff r c).0 valid;
        written = ap (λ q. q.0) (sym same);
        shown = ap (λ q. q.1) (sym same);
      },
    )

-- After a completion that is accepted the reader's onboarding is found as it was answered, with the
-- codes of the selection in their order, and that of every other reader is as before.
pub complete_onboarding-Saved :
    (l : Locale) (r : Repository) (user_id : String) (c : Command) (now : ℕ)
    → (p : Repository × Snapshot) → complete_onboarding l r user_id c now ≡ ok p
    → (find_onboarding l p.0 user_id ≡ some p.1)
      × (p.1.status ≡ Status.completed)
      × (p.1.topic_codes ≡ sort topic_before c.topic_codes)
      × (p.1.entity_ids ≡ sort l.text_before c.entity_ids)
      × (p.1.age_group ≡ c.age_group)
      × (p.1.region_codes ≡ sort l.text_before c.region_codes)
      × ((other : String)
          → other ≢ user_id
          → find_onboarding l p.0 other ≡ find_onboarding l r other)
unfolding find_onboarding to_snapshot
complete_onboarding-Saved l r user_id c now p h =
    let (u, done) = complete_onboarding-IsCompletion l r user_id c now p h in
    let new = completed_user u c now in
    let chosen = done.selection in
    (
      ap (λ s. find_onboarding l s user_id) done.written
          ∙ rw (get-set_self user_id new r.users) (ap some (sym done.shown)),
      ap (λ s. s.status) done.shown,
      ap (λ s. s.topic_codes) done.shown
          ∙ ap (sort topic_before) (weighted-weigh_all c.topic_codes chosen.topics_distinct),
      ap (λ s. s.entity_ids) done.shown
          ∙ ap (sort l.text_before) (weighted-weigh_all c.entity_ids chosen.entities_distinct),
      ap (λ s. s.age_group) done.shown,
      ap (λ s. s.region_codes) done.shown
          ∙ ap (sort l.text_before) (unique-Distinct c.region_codes chosen.regions_distinct),
      λ other apart.
          let miss : (user_id == other) ≡ false = not_same user_id other apart in
          rw (done.written, get-set user_id other new r.users, miss) refl,
    )
  where
    not_same : (a b : String) → b ≢ a → (a == b) ≡ false
    not_same a b apart = elim (Bool-cases (a == b)) [
      | inl e ↦ absurd (apart (sym ((eq_iff a b).0 e)))
      | inr e ↦ e
    ]

-- A reader who has completed the onboarding before keeps the time of the first completion, however
-- often it is completed again.
pub complete_onboarding_again :
    (l : Locale) (r : Repository) (user_id : String) (first again : Command) (t now : ℕ)
    → (p q : Repository × Snapshot) → complete_onboarding l r user_id first t ≡ ok p
    → complete_onboarding l p.0 user_id again now ≡ ok q
    → (q.1.completed_at ≡ p.1.completed_at)
      × (q.1.topic_codes ≡ sort topic_before again.topic_codes)
unfolding to_snapshot
complete_onboarding_again l r user_id first again t now p q h k =
    let (u, done) = complete_onboarding-IsCompletion l r user_id first t p h in
    let (v, redone) = complete_onboarding-IsCompletion l p.0 user_id again now q k in
    let stored : get user_id p.0.users ≡ some (completed_user u first t) =
      ap (λ s. get user_id s.users) done.written
      ∙ get-set_self user_id (completed_user u first t) r.users in
    let same : v ≡ completed_user u first t =
      some-injective v (completed_user u first t) (sym redone.found ∙ stored) in
    (
      ap (λ s. s.completed_at) redone.shown
          ∙ ap (λ w. some (completion_time w.status w.completed_at now)) same
          ∙ sym (ap (λ s. s.completed_at) done.shown),
      (complete_onboarding-Saved l p.0 user_id again now q k).2,
    )

-- A skip after a completion takes nothing back: it leaves the repository and answers as the
-- completion did.
pub skip_onboarding-complete_onboarding :
    (l : Locale) (r : Repository) (user_id : String) (c : Command) (now : ℕ)
    → (p : Repository × Snapshot) → complete_onboarding l r user_id c now ≡ ok p
    → skip_onboarding l p.0 user_id ≡ ok p
unfolding skip_onboarding require_user
skip_onboarding-complete_onboarding l r user_id c now p h =
    let (u, done) = complete_onboarding-IsCompletion l r user_id c now p h in
    let new = completed_user u c now in
    let both : p ≡ (put_user r user_id new, to_snapshot l new) =
      λ i. (done.written i, done.shown i) in
    subst (λ q. skip_onboarding l q.0 user_id ≡ ok q) (sym both)
      (rw (get-set_self user_id new r.users) refl)
