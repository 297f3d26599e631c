-- ===== src/Onboarding/Model.antt =====
-- libs/core/src/onboarding/onboarding.model.ts, onboarding.options.ts and the codes of
-- onboarding.exception.ts. Codes of topics, age groups and regions are texts.
use newtine_backend.Prelude.{ℕ, String, Bool, Option, List, [], ◌∷◌}
use newtine_backend.Prelude.Map.{Map}

-- `OnboardingStatus`
pub data Status : Type 0 where
  pending completed skipped : Status

-- `EntityType`
pub data EntityType : Type 0 where
  politician party institution : EntityType

-- `OnboardingTopicOption`, `OnboardingAgeOption` and `RegionOption`
pub record Choice : Type 0 where
  pub code : String
  pub name : String
  pub display_order : ℕ

abbrev pub choice : String → String → ℕ → Choice
choice code name order = record { code = code; name = name; display_order = order }

-- `OnboardingEntity`
pub record Entity : Type 0 where
  pub id : String
  pub name : String
  pub type : EntityType
  pub subtitle : Option String
  pub aliases : List String
  pub is_active : Bool

-- `OnboardingStateWithPreferences`, with the fields of `OnboardingPreferenceSnapshot`.
pub record Snapshot : Type 0 where
  pub user_id : String
  pub status : Status
  pub completed_at : Option ℕ
  pub topic_codes : List String
  pub entity_ids : List String
  pub age_group : Option String
  pub region_codes : List String
  pub topic_weights : Map ℕ
  pub entity_weights : Map ℕ
  pub region_weights : Map ℕ

-- `CompleteOnboardingCommand`
pub record Command : Type 0 where
  pub topic_codes : List String
  pub entity_ids : List String
  pub age_group : Option String
  pub region_codes : List String

-- `EntitySearchCommand` and `EntitySearchResult`
pub record EntitySearch : Type 0 where
  pub query : Option String
  pub type : Option EntityType
  pub limit : ℕ
  pub offset : ℕ

pub record EntityPage : Type 0 where
  pub items : List Entity
  pub total : ℕ
  pub limit : ℕ
  pub offset : ℕ

-- `OnboardingExceptionCode`, those of the repository in memory.
pub data OnboardingError : Type 0 where
  user_not_found invalid_selection : OnboardingError

-- `ONBOARDING_TOPICS`, which is `CATEGORY_CATALOG`
abbrev pub topics : List Choice
topics =
    choice "housing" "주거" 1
    ∷ choice "labor" "일자리" 2
    ∷ choice "finance" "세금·금융" 3
    ∷ choice "welfare" "복지·연금" 4
    ∷ choice "education" "교육" 5
    ∷ choice "health" "보건·의료" 6
    ∷ choice "climate" "환경·기후" 7
    ∷ choice "security" "외교·안보" 8
    ∷ choice "local" "지역·교통" 9
    ∷ choice "politics" "정치·사법" 10
    ∷ []

-- `ONBOARDING_AGE_GROUPS`
abbrev pub age_groups : List Choice
age_groups =
    choice "AGE_19_34" "19~34세" 1
    ∷ choice "AGE_35_49" "35~49세" 2
    ∷ choice "AGE_50_64" "50~64세" 3
    ∷ choice "AGE_65_PLUS" "65세 이상" 4
    ∷ []

-- `ONBOARDING_REGIONS`
abbrev pub regions : List Choice
regions =
    choice "SEOUL" "서울특별시" 1
    ∷ choice "BUSAN" "부산광역시" 2
    ∷ choice "DAEGU" "대구광역시" 3
    ∷ choice "INCHEON" "인천광역시" 4
    ∷ choice "GWANGJU" "광주광역시" 5
    ∷ choice "DAEJEON" "대전광역시" 6
    ∷ choice "ULSAN" "울산광역시" 7
    ∷ choice "SEJONG" "세종특별자치시" 8
    ∷ choice "GYEONGGI" "경기도" 9
    ∷ choice "GANGWON" "강원특별자치도" 10
    ∷ choice "CHUNGBUK" "충청북도" 11
    ∷ choice "CHUNGNAM" "충청남도" 12
    ∷ choice "JEONBUK" "전북특별자치도" 13
    ∷ choice "JEONNAM" "전라남도" 14
    ∷ choice "GYEONGBUK" "경상북도" 15
    ∷ choice "GYEONGNAM" "경상남도" 16
    ∷ choice "JEJU" "제주특별자치도" 17
    ∷ []

abbrev pub codes_of : List Choice → List String
codes_of [] = []
codes_of (c ∷ cs) = c.code ∷ codes_of cs
