-- ===== src/Onboarding/Selection.antt =====
-- Which selections `validateSelection` accepts.
use newtine_backend.Prelude.{
  Option, none, some, some-injective, Option-cases, inl, inr, ℕ, ◌+◌, ◌≤◌, ◌∙◌, ◌↔◌, String, Bool,
  true, false, not, ◌||◌, List, [], ◌∷◌, any, length, includes, Memᴰ-of_includes, unique,
  unique-Distinct, Distinct, Distinct-of_length, length-le_of_Distinct, All, All-Memᴰ, ltb, ◌==◌,
  nat_eq, string_eq, ◌≡◌, refl, sym, ap, subst, ==_iff, arith,
}
use newtine_backend.Prelude.Map.{Map, get}
use newtine_backend.Prelude.Result.{ok}
use newtine_backend.Onboarding.Model.{Entity, Command, topics, age_groups, regions, codes_of}
use newtine_backend.Onboarding.Repository.{
  Repository, is_bad_list, is_active_entity, is_known_age, validate_selection,
}

-- Every item passes a test.
abbrev pub Passes : (String → Bool) → List String → Type 0
Passes known = All (λ x. known x ≡ true)

-- An active entity has the id.
abbrev pub IsActive : Map Entity → String → Type 0
IsActive entities id = (e : Entity) × (get id entities ≡ some e) × (e.is_active ≡ true)

-- At least one topic, every topic and region one that is offered, every entity active, a hundred
-- entities at most, and nothing chosen twice.
pub record IsSelection (r : Repository) (c : Command) : Type 0 where
  pub some_topic : 1 ≤ length c.topic_codes
  pub topics_distinct : Distinct c.topic_codes
  pub topics_known : Passes (includes (codes_of topics)) c.topic_codes
  pub age_known : (a : String) → c.age_group ≡ some a → includes (codes_of age_groups) a ≡ true
  pub entities_distinct : Distinct c.entity_ids
  pub entities_few : length c.entity_ids ≤ 100
  pub entities_active : All (IsActive r.entities) c.entity_ids
  pub regions_distinct : Distinct c.region_codes
  pub regions_known : Passes (includes (codes_of regions)) c.region_codes

is_active_entity-IsActive :
    (entities : Map Entity) (id : String)
    → is_active_entity entities id ≡ true
    → IsActive entities id
is_active_entity-IsActive entities id h = elim (Option-cases (get id entities)) [
  | inl e ↦ let missing : false ≡ true = rw (e, is_active_entity) at h in absurd (cc)
  | inr (x, e) ↦ (x, e, rw (e, is_active_entity) at h)
]

All-IsActive :
    (entities : Map Entity) (ids : List String)
    → Passes (is_active_entity entities) ids
    → All (IsActive entities) ids
All-IsActive entities [] h = tt
All-IsActive entities (id ∷ ids) h =
    (is_active_entity-IsActive entities id h.0, All-IsActive entities ids h.1)

IsActive-Passes :
    (entities : Map Entity) (ids : List String)
    → All (IsActive entities) ids
    → Passes (is_active_entity entities) ids
IsActive-Passes entities [] h = tt
IsActive-Passes entities (id ∷ ids) ((x, e, active), h) =
    (rw (e, is_active_entity) active, IsActive-Passes entities ids h)

known_age :
    (age : Option String)
    → is_known_age age ≡ true
    → (a : String) → age ≡ some a
    → includes (codes_of age_groups) a ≡ true
known_age none h a e = absurd (cc)
known_age (some b) h a e =
    subst (λ x. includes (codes_of age_groups) x ≡ true) (some-injective b a e) h

known_age-of :
    (age : Option String)
    → ((a : String) → age ≡ some a → includes (codes_of age_groups) a ≡ true)
    → is_known_age age ≡ true
known_age-of none h = refl
known_age-of (some a) h = h a refl

any-Passes :
    (known : String → Bool) (xs : List String)
    → any (λ x. not (known x)) xs ≡ false
    → Passes known xs
any-Passes known [] h = tt
any-Passes known (x ∷ xs) h = (ground arith, any-Passes known xs (ground arith))

Passes-any :
    (known : String → Bool) (xs : List String)
    → Passes known xs
    → any (λ x. not (known x)) xs ≡ false
Passes-any known [] h = refl
Passes-any known (x ∷ xs) h = rw h.0 (Passes-any known xs h.1)

good_list :
    (known : String → Bool) (most : ℕ) (xs : List String)
    → is_bad_list known most xs ≡ false
    → Distinct xs × (length xs ≤ most) × Passes known xs
good_list known most xs h =
    let full : length (unique xs) ≡ length xs =
      (==_iff (length (unique xs)) (length xs)).0 (ground (arith, h)) in
    let whole : length xs ≡ 0 + length xs = omega arith in
    let distinct = (Distinct-of_length [] xs (full ∙ whole)).0 in
    let same = unique-Distinct xs distinct in
    let few : ltb most (length (unique xs)) ≡ false = ground (arith, h) in
    let known_all : any (λ x. not (known x)) (unique xs) ≡ false = ground (arith, h) in
    (
      distinct,
      ground (arith, full, few),
      any-Passes known xs (subst (λ ys. any (λ x. not (known x)) ys ≡ false) same known_all),
    )

good_list-of :
    (known : String → Bool) (most : ℕ) (xs : List String)
    → Distinct xs
    → length xs ≤ most
    → Passes known xs
    → is_bad_list known most xs ≡ false
good_list-of known most xs distinct few passes =
    let same = unique-Distinct xs distinct in
    let fits : ltb most (length xs) ≡ false = ground (arith, few) in
    let equal = (==_iff (length xs) (length xs)).1 refl in
    let known_all = Passes-any known xs passes in
    subst
      (λ ys.
        (not (length ys == length xs) || ltb most (length ys) || any (λ x. not (known x)) ys)
        ≡ false)
      (sym same) (ground (arith, fits, equal, known_all))

-- Items that are all offered are no more than are offered.
Passes-length :
    (offered xs : List String)
    → Distinct xs
    → Passes (includes offered) xs
    → length xs ≤ length offered
Passes-length offered xs distinct passes =
    length-le_of_Distinct xs offered distinct
      (λ a there. All-Memᴰ (λ x. includes offered x ≡ true) xs passes (Memᴰ-of_includes a xs there))

-- `validateSelection` accepts exactly the selections: the two limits on topics and regions refuse
-- nothing that the other checks accept.
pub validate_selection_iff :
    (r : Repository) (c : Command) → (validate_selection r c ≡ ok tt) ↔ IsSelection r c
unfolding validate_selection
validate_selection_iff r c = (accepted, accepts)
  where
    accepted : validate_selection r c ≡ ok tt → IsSelection r c
    accepted h =
        let topics_ok =
          good_list (includes (codes_of topics)) 10 c.topic_codes (ground (arith, h)) in
        let entities_ok =
          good_list (is_active_entity r.entities) 100 c.entity_ids (ground (arith, h)) in
        let regions_ok =
          good_list (includes (codes_of regions)) 17 c.region_codes (ground (arith, h)) in
        let same = unique-Distinct c.topic_codes topics_ok.0 in
        let enough : ltb (length (unique c.topic_codes)) 1 ≡ false = ground (arith, h) in
        record {
          some_topic = ground (arith, enough, ap length same);
          topics_distinct = topics_ok.0;
          topics_known = topics_ok.2;
          age_known = known_age c.age_group (ground (arith, h));
          entities_distinct = entities_ok.0;
          entities_few = entities_ok.1;
          entities_active = All-IsActive r.entities c.entity_ids entities_ok.2;
          regions_distinct = regions_ok.0;
          regions_known = regions_ok.2;
        }

    accepts : IsSelection r c → validate_selection r c ≡ ok tt
    accepts s =
        let topics_ok =
          good_list-of (includes (codes_of topics)) 10 c.topic_codes s.topics_distinct
            (Passes-length (codes_of topics) c.topic_codes s.topics_distinct s.topics_known)
            s.topics_known in
        let entities_ok =
          good_list-of (is_active_entity r.entities) 100 c.entity_ids s.entities_distinct
            s.entities_few (IsActive-Passes r.entities c.entity_ids s.entities_active) in
        let regions_ok =
          good_list-of (includes (codes_of regions)) 17 c.region_codes s.regions_distinct
            (Passes-length (codes_of regions) c.region_codes s.regions_distinct s.regions_known)
            s.regions_known in
        let same = ap length (unique-Distinct c.topic_codes s.topics_distinct) in
        let enough : ltb (length (unique c.topic_codes)) 1 ≡ false =
          ground (arith, same, s.some_topic) in
        rw (topics_ok, enough, known_age-of c.age_group s.age_known, entities_ok, regions_ok) refl
