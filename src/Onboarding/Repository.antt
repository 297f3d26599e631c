-- ===== src/Onboarding/Repository.antt =====
-- libs/core/src/onboarding/inMemoryOnboarding.repository.ts: each method is a function of the same
-- name from a repository to a result with the new one. `new Date()` and new ids are arguments. A
-- method that throws leaves the repository.
use Prim.Native.Char.{code}
use Prim.Native.Nat.{Ordering}
use newtine_backend.Prelude.{
  ℕ, String, Bool, true, false, not, ◌&&◌, ◌||◌, Option, none, some, List, [], ◌∷◌, any, keep, find,
  take, drop, length, sort, includes, unique, ltb, ◌==◌, nat_eq, string_eq, if◌then◌else◌,
}
use newtine_backend.Prelude.Map.{Map, get, set, values}
use newtine_backend.Prelude.Result.{Result, ok, err, ◌>>=◌, ◌>>◌}
use newtine_backend.Prelude.Text.{trim}
use newtine_backend.Onboarding.Model.{
  Status, EntityType, Choice, Entity, Snapshot, Command, EntitySearch, EntityPage, OnboardingError,
  topics, age_groups, regions, codes_of,
}

-- The runtime's texts: `toLocaleLowerCase('ko-KR')`, `localeCompare` with and without that locale,
-- and the order of `sort()` without a comparison.
pub record Locale : Type 0 where
  pub lower : String → String
  pub compare_names : String → String → Ordering
  pub compare_ids : String → String → Ordering
  pub text_before : String → String → Bool

-- `UserRecord`. Sets are lists.
pub record User : Type 0 where
  pub user_id : String
  pub status : Status
  pub completed_at : Option ℕ
  pub age_group : Option String
  pub region_codes : List String
  pub topic_weights : Map ℕ
  pub entity_weights : Map ℕ
  pub region_weights : Map ℕ

-- `InMemoryOnboardingRepository`
pub record Repository : Type 0 where
  pub users : Map User
  pub entities : Map Entity

abbrev pub starts_with : String → String → Bool
starts_with s String.[] = true
starts_with String.[] (String.◌∷◌ d p) = false
starts_with (String.◌∷◌ c s) (String.◌∷◌ d p) = code c == code d && starts_with s p

abbrev type_number : EntityType → ℕ
type_number EntityType.politician = 0
type_number EntityType.party = 1
type_number EntityType.institution = 2

abbrev pub has_type : Option EntityType → Entity → Bool
has_type none e = true
has_type (some t) e = type_number e.type == type_number t

abbrev is_less : Ordering → Bool
is_less Ordering.lt = true
is_less Ordering.eq = false
is_less Ordering.gt = false

-- `first || second`, for comparisons.
abbrev or_else : Ordering → Ordering → Ordering
or_else Ordering.lt next = Ordering.lt
or_else Ordering.eq next = next
or_else Ordering.gt next = Ordering.gt

abbrev pub has_query : Locale → Option String → Entity → Bool
has_query l none e = true
has_query l (some q) e = starts_with (l.lower e.name) (l.lower (trim q))

unfoldable pub search_entities : Locale → Repository → EntitySearch → EntityPage
search_entities l r s =
    let filtered =
      sort (λ x y. is_less (or_else (l.compare_names x.name y.name) (l.compare_ids x.id y.id)))
        (keep (has_query l s.query)
          (keep (has_type s.type) (keep (λ e. e.is_active) (values r.entities)))) in
    record {
      items = take s.limit (drop s.offset filtered);
      total = length filtered;
      limit = s.limit;
      offset = s.offset;
    }

-- `compareTopicCodes(left, right) < 0`: an unknown code comes last.
abbrev order_or : Option Choice → Option ℕ
order_or none = none
order_or (some c) = some c.display_order

abbrev earlier : Option ℕ → Option ℕ → Bool
earlier none right = false
earlier (some l) none = true
earlier (some l) (some r) = ltb l r

unfoldable pub topic_before : String → String → Bool
topic_before left right =
    earlier (order_or (find (λ c. c.code == left) topics))
      (order_or (find (λ c. c.code == right) topics))

-- `.filter(([, weight]) => weight > 0).map(([code]) => code)`
abbrev pub weighted : Map ℕ → List String
weighted [] = []
weighted ((k, w) ∷ m) = if ltb 0 w then k ∷ weighted m else weighted m

unfoldable pub to_snapshot : Locale → User → Snapshot
to_snapshot l u = record {
  user_id = u.user_id;
  status = u.status;
  completed_at = u.completed_at;
  topic_codes = sort topic_before (weighted u.topic_weights);
  entity_ids = sort l.text_before (weighted u.entity_weights);
  age_group = u.age_group;
  region_codes = sort l.text_before u.region_codes;
  topic_weights = u.topic_weights;
  entity_weights = u.entity_weights;
  region_weights = u.region_weights;
}

abbrev snapshot_of : Locale → Option User → Option Snapshot
snapshot_of l none = none
snapshot_of l (some u) = some (to_snapshot l u)

unfoldable pub find_onboarding : Locale → Repository → String → Option Snapshot
find_onboarding l r user_id = snapshot_of l (get user_id r.users)

abbrev pub user_or_error : Option User → Result OnboardingError User
user_or_error none = err OnboardingError.user_not_found
user_or_error (some u) = ok u

unfoldable pub require_user : Repository → String → Result OnboardingError User
require_user r user_id = user_or_error (get user_id r.users)

-- `set.size !== list.length`, `set.size > most`, and some item of the set is unknown.
abbrev pub is_bad_list : (String → Bool) → ℕ → List String → Bool
is_bad_list known most xs =
    not (length (unique xs) == length xs)
    || ltb most (length (unique xs))
    || any (λ x. not (known x)) (unique xs)

abbrev pub is_active_entity : Map Entity → String → Bool
is_active_entity entities id = elim (get id entities) [ none ↦ false | some e ↦ e.is_active ]

abbrev pub is_known_age : Option String → Bool
is_known_age none = true
is_known_age (some a) = includes (codes_of age_groups) a

unfoldable pub validate_selection : Repository → Command → Result OnboardingError (Unit {0})
validate_selection r c =
    if is_bad_list (includes (codes_of topics)) (length topics) c.topic_codes
      || ltb (length (unique c.topic_codes)) 1
    then err OnboardingError.invalid_selection
    else if not (is_known_age c.age_group)
    then err OnboardingError.invalid_selection
    else if is_bad_list (is_active_entity r.entities) 100 c.entity_ids
    then err OnboardingError.invalid_selection
    else if is_bad_list (includes (codes_of regions)) (length regions) c.region_codes
    then err OnboardingError.invalid_selection
    else ok tt

abbrev pub weigh_all : ℕ → List String → Map ℕ → Map ℕ
weigh_all w [] m = m
weigh_all w (x ∷ xs) m = weigh_all w xs (set x w m)

abbrev is_completed : Status → Bool
is_completed Status.pending = false
is_completed Status.completed = true
is_completed Status.skipped = false

-- `previousStatus === Completed && previousCompletedAt !== null ? previousCompletedAt : new Date()`
abbrev pub completion_time : Status → Option ℕ → ℕ → ℕ
completion_time s none now = now
completion_time s (some t) now = if is_completed s then t else now

abbrev pub completed_user : User → Command → ℕ → User
completed_user u c now = record {
  user_id = u.user_id;
  status = Status.completed;
  completed_at = some (completion_time u.status u.completed_at now);
  age_group = c.age_group;
  region_codes = unique c.region_codes;
  topic_weights = weigh_all 2 c.topic_codes [];
  entity_weights = weigh_all 2 c.entity_ids [];
  region_weights = weigh_all 1 c.region_codes [];
}

abbrev pub put_user : Repository → String → User → Repository
put_user r user_id u = record r { users = set user_id u r.users }

unfoldable pub complete_onboarding :
    Locale → Repository → String → Command → ℕ → Result OnboardingError (Repository × Snapshot)
complete_onboarding l r user_id c now = require_user r user_id >>= λ u.
    validate_selection r c
    >> ok (put_user r user_id (completed_user u c now), to_snapshot l (completed_user u c now))

abbrev pub skipped_user : User → User
skipped_user u = record u { status = Status.skipped; completed_at = none; age_group = none }

abbrev pub skip_user : Locale → Repository → String → User → Status → Repository × Snapshot
skip_user l r user_id u Status.pending =
    (put_user r user_id (skipped_user u), to_snapshot l (skipped_user u))
skip_user l r user_id u Status.completed = (r, to_snapshot l u)
skip_user l r user_id u Status.skipped = (r, to_snapshot l u)

unfoldable pub skip_onboarding :
    Locale → Repository → String → Result OnboardingError (Repository × Snapshot)
skip_onboarding l r user_id = require_user r user_id >>= λ u. ok (skip_user l r user_id u u.status)

abbrev pub new_user : String → User
new_user user_id = record {
  user_id = user_id;
  status = Status.pending;
  completed_at = none;
  age_group = none;
  region_codes = [];
  topic_weights = [];
  entity_weights = [];
  region_weights = [];
}

unfoldable pub seed_user : Repository → String → Repository
seed_user r user_id = elim (get user_id r.users) [
  | some u ↦ r
  | none ↦ put_user r user_id (new_user user_id)
]

-- The id of the entity is the one given, or a new one.
unfoldable pub seed_entity : Repository → Entity → Repository
seed_entity r e = record r { entities = set e.id e r.entities }

-- The repository of a list of entities.
abbrev pub entities_from : List Entity → Map Entity → Map Entity
entities_from [] m = m
entities_from (e ∷ es) m = entities_from es (set e.id e m)

abbrev pub new_repository : List Entity → Repository
new_repository initial = record { users = []; entities = entities_from initial [] }
