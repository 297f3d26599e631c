-- ===== src/Pipeline/Articles.antt =====
-- libs/core/src/pipeline/domain/pipeline.url.ts, and saveDiscoveredArticles and loadSeedArticles of
-- repository/inMemoryPipeline.repository.ts. `new URL` and `toString` are the platform's; the setters
-- of a URL object store what they are given.
pub mod Again
use newtine_backend.Prelude.{
  ℕ, String, Bool, true, false, not, ◌&&◌, ◌||◌, Option, none, some, List, [], ◌∷◌, find, keep,
  includes, ◌==◌, string_eq, if◌then◌else◌, ◌≡◌, refl,
}
use newtine_backend.Prelude.Map.{get, set, values}
use newtine_backend.Prelude.Text.{trim}
use newtine_backend.Pipeline.Types.{Article}
use newtine_backend.Pipeline.Store.{Platform, Url, Store}

-- `url.protocol !== 'http:' && url.protocol !== 'https:'`
abbrev is_web : String → Bool
is_web protocol = protocol == "http:" || protocol == "https:"

abbrev is_default_port : String → String → Bool
is_default_port protocol port =
    (protocol == "http:" && port == "80") || (protocol == "https:" && port == "443")

-- `a ?? b`
abbrev or_kept : Option String → Option String → Option String
or_kept none old = old
or_kept (some new) old = some new

-- The id that is always there once an article is stored.
abbrev pub id_or_empty : Option String → String
id_or_empty none = ""
id_or_empty (some id) = id

module _ (p : Platform) where
  unfoldable pub normalize_article_url : String → String
  normalize_article_url value = if trim value == "" then "" else elim (p.parse_url (trim value)) [
    | none ↦ trim value
    | some url ↦
        if not (is_web url.protocol)
        then trim value
        else let protocol = p.to_lower_case url.protocol in
          p.url_to_string (record {
            protocol = protocol;
            hostname = p.to_lower_case url.hostname;
            port = if is_default_port protocol url.port then "" else url.port;
            pathname = if url.pathname == "" then "/" else url.pathname;
            hash = "";
            other = url.other;
          })
  ]

  abbrev pub same_address : Article → Article → Bool
  same_address article item =
      normalize_article_url item.source_url == normalize_article_url article.source_url

  -- What is stored for an article, of which an earlier one has the address or not.
  unfoldable pub merged : String → Article → Option Article → Article
  merged fresh article none = record article { id = some fresh }
  merged fresh article (some existing) = record existing {
    title = article.title;
    description = article.description;
    naver_url = or_kept article.naver_url existing.naver_url;
    publisher_name = article.publisher_name;
    published_at = or_kept article.published_at existing.published_at;
  }

  -- One round of `articles.map`; the id is used for a new address.
  unfoldable pub save_article : String → Article → Store → Article × Store
  unfolding normalize_article_url merged
  save_article fresh article s =
      let saved = merged fresh article (find (same_address article) (values s.articles)) in
      (saved, record s { articles = set (id_or_empty saved.id) saved s.articles })

  -- Each article comes with the id that is drawn if its address is new.
  unfoldable pub save_discovered_articles : List (String × Article) → Store → List Article × Store
  save_discovered_articles [] s = ([], s)
  save_discovered_articles ((fresh, article) ∷ rest) s =
      let (saved, s₁) = save_article fresh article s in
      let (others, s₂) = save_discovered_articles rest s₁ in (saved ∷ others, s₂)

abbrev seeds_of : Option (List String) → List String
seeds_of none = []
seeds_of (some ids) = ids

abbrev is_seed : List String → Option String → Bool
is_seed ids none = false
is_seed ids (some id) = includes ids id

unfoldable pub load_seed_articles : String → Store → List Article
load_seed_articles issue_id s =
    keep (λ article. is_seed (seeds_of (get issue_id s.seed_article_ids)) article.id)
      (values s.articles)

-- Saving articles leaves the runs alone.
pub save_discovered_articles-runs :
    (p : Platform) (found : List (String × Article)) (s : Store)
    → (save_discovered_articles p found s).1.runs ≡ s.runs
unfolding save_discovered_articles save_article
save_discovered_articles-runs p [] s = refl
save_discovered_articles-runs p ((fresh, article) ∷ rest) s =
    save_discovered_articles-runs p rest (save_article p fresh article s).1
