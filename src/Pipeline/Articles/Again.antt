-- ===== src/Pipeline/Articles/Again.antt =====
-- An article that is found a second time: saveDiscoveredArticles of inMemoryPipeline.repository.ts.
use newtine_backend.Prelude.{
  String, none, some, ◌≡◌, refl, ap, ◌∙◌, find, find-Memᴰ, length, Option-cases, inl, inr, ==_refl,
  string_eq,
}
use newtine_backend.Prelude.Map.{
  get, values, IsKeyed, get-set_self, values-set_new, find-append_new, find-set, length-values-set,
}
use newtine_backend.Pipeline.Types.{Article}
use newtine_backend.Pipeline.Store.{Platform, Store}
use newtine_backend.Pipeline.Articles.{
  save_article, merged, same_address, id_or_empty, normalize_article_url,
}

-- The key of an article in the store.
abbrev pub article_key : Article → String
article_key a = id_or_empty a.id

module _ (p : Platform) where
  -- After an article is saved, its address finds what was stored.
  save_article-found :
      (fresh : String) (article : Article) (s : Store)
      → IsKeyed article_key s.articles
      → get fresh s.articles ≡ none
      → let r = save_article p fresh article s in
        find (same_address p article) (values r.1.articles) ≡ some r.0
  unfolding save_article merged
  save_article-found fresh article s keyed new =
      elim (Option-cases (find (same_address p article) (values s.articles))) [
        | inl e ↦
            rw (e, save_article, merged)
              (ap (find (same_address p article))
                  (values-set_new fresh (record article { id = some fresh }) s.articles new)
                ∙ find-append_new (same_address p article) (values s.articles)
                    (record article { id = some fresh }) e
                    (==_refl (normalize_article_url p article.source_url)))
        | inr (old, e) ↦
            rw (e, save_article, merged)
              (find-set article_key (same_address p article) old (merged p fresh article (some old))
                s.articles keyed e (find-Memᴰ (same_address p article) (values s.articles) e).1)
      ]

  -- In a store whose articles are kept under their ids, an article that is saved a second time, with
  -- any other id drawn, keeps the id that it was given, and no article is added.
  pub save_article_again :
      (fresh fresh' : String) (article : Article) (s : Store)
      → IsKeyed article_key s.articles
      → get fresh s.articles ≡ none
      → let first = save_article p fresh article s in
        let second = save_article p fresh' article first.1 in
        (second.0.id ≡ first.0.id)
        × (length (values second.1.articles) ≡ length (values first.1.articles))
  unfolding save_article merged
  save_article_again fresh fresh' article s keyed new =
      let first = save_article p fresh article s in
      let found = save_article-found fresh article s keyed new in
      rw (found, save_article, merged)
        (
          refl,
          length-values-set (article_key first.0) (merged p fresh' article (some first.0)) first.0
              first.1.articles (get-set_self (article_key first.0) first.0 s.articles),
        )
