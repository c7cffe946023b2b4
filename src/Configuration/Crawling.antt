-- ===== src/Configuration/Crawling.antt =====
-- The sources and the model of a crawler, as apps/backend/src/runtime-config.ts checks them.
use Prim.Native.String.{String}
use cryptox.Base.{
  ◌≡◌, refl, arith, Bool, true, false, not, ◌&&◌, ◌||◌, List, [], ◌∷◌, ◌++◌, All, throw_if,
  throw_if-eq-ok, Ensures, returned, thrown, Ensures-bind, Ensures-eq, Ensures-map, bind-Ensures,
  then-Ensures, if-Ensures, Bool-cases, inl, inr, Codes,
}
use cryptox.Configuration.Environment.{
  Javascript, missing, Environment, value, is_present, required, distinct_from, with_text,
  same_text, is_source, check_urls, no_urls, given_parts, split_list, parse_url_list,
}
use cryptox.Configuration.Sections.{crawls, NewsProvider, Crawler, read_sources, read_crawler}

-- A crawler has sources, which are web addresses without credentials, and a model.
abbrev pub CanCrawl : Javascript → Crawler → Type 0
CanCrawl js c =
    ((not (crawls c.news_provider)
        || (not (no_urls js c.source_urls)
            && is_present c.endpoint
            && is_present c.model_name
            && is_present c.api_key))
      ≡ true)
    × All (λ url. is_source js (js.parse_url url) ≡ true) c.source_urls

module _ (js : Javascript) (env : Environment) where
  abbrev AllWeb : List Codes → Type 0
  AllWeb urls = All (λ url. is_source js (js.parse_url url) ≡ true) urls

  check_urls-AllWeb :
      (key : String) (urls : List Codes)
      → Ensures (λ (u : Unit {0}). AllWeb urls) (check_urls js key urls)
  unfolding check_urls
  check_urls-AllWeb key [] = returned tt
  check_urls-AllWeb key (url ∷ urls) =
      if-Ensures (is_source js (js.parse_url url)) _ _
        (λ e. Ensures-map (check_urls-AllWeb key urls) (λ u v. (e, v))) (λ e. thrown)

  append_one-AllWeb :
      (urls : List Codes) (url : Codes)
      → AllWeb urls
      → is_source js (js.parse_url url) ≡ true
      → AllWeb (urls ++ url ∷ [])
  append_one-AllWeb [] url v h = (h, tt)
  append_one-AllWeb (u ∷ urls) url (g, v) h = (g, append_one-AllWeb urls url v h)

  distinct_from-AllWeb :
      (kept urls : List Codes) → AllWeb kept → AllWeb urls → AllWeb (distinct_from kept urls)
  unfolding distinct_from
  distinct_from-AllWeb kept [] v w = v
  distinct_from-AllWeb kept (url ∷ urls) v (h, w) = elim (Bool-cases (same_text url kept)) [
    | inl old ↦ rw old (distinct_from-AllWeb kept urls v w)
    | inr new ↦
        rw new (distinct_from-AllWeb (kept ++ url ∷ []) urls (append_one-AllWeb kept url v h) w)
  ]

  append_one-no_urls : (urls : List Codes) (url : Codes) → no_urls js (urls ++ url ∷ []) ≡ false
  append_one-no_urls [] url = refl
  append_one-no_urls (u ∷ urls) url = refl

  with_text-no_urls : (url : Codes) (kept : List Codes) → no_urls js (with_text url kept) ≡ false
  with_text-no_urls url [] = refl
  with_text-no_urls url (u ∷ kept) = ground (arith, append_one-no_urls (u ∷ kept) url)

  distinct_from-no_urls :
      (kept urls : List Codes)
      → (no_urls js kept && no_urls js urls) ≡ false
      → no_urls js (distinct_from kept urls) ≡ false
  unfolding distinct_from
  distinct_from-no_urls kept [] h = ground arith
  distinct_from-no_urls kept (url ∷ urls) h =
      distinct_from-no_urls (with_text url kept) urls (rw (with_text-no_urls url kept) refl)

  parse_url_list-AllWeb :
      (key : String)
      → Ensures
          (λ (urls : List Codes). (no_urls js urls ≡ false) × AllWeb urls)
          (parse_url_list js env key)
  unfolding parse_url_list
  parse_url_list-AllWeb key = bind-Ensures (required env key) _ λ raw e.
      let parts : List Codes = given_parts ((split_list raw).0 ∷ (split_list raw).1) in
      then-Ensures (throw_if (no_urls js parts) (missing key)) _ λ u some_part.
        then-Ensures (check_urls js key parts) _ λ v checked. returned (
          distinct_from-no_urls [] parts (throw_if-eq-ok _ _ some_part),
          distinct_from-AllWeb [] parts tt (Ensures-eq (check_urls-AllWeb key parts) checked),
        )

  read_sources-AllWeb :
      (provider : NewsProvider)
      → Ensures
          (λ (urls : List Codes). ((crawls provider && no_urls js urls) ≡ false) × AllWeb urls)
          (read_sources js env provider)
  unfolding read_sources
  read_sources-AllWeb provider =
      if-Ensures (crawls provider) _ _
        (λ e.
          Ensures-map (parse_url_list-AllWeb "CRAWLER_SOURCE_URLS")
            (λ urls h. (ground (arith, h.0), h.1)))
        (λ e. returned (ground arith, tt))

  pub read_crawler-CanCrawl : Ensures (CanCrawl js) (read_crawler js env)
  unfolding read_crawler
  read_crawler-CanCrawl = bind-Ensures _ _ λ provider named.
      Ensures-bind _ (read_sources-AllWeb provider) λ urls web. bind-Ensures _ _ λ endpoint checked.
        then-Ensures _ _ λ u e. then-Ensures _ _ λ v f. then-Ensures _ _ λ w g. returned (
          join (crawls provider) (no_urls js urls) (is_present endpoint)
              (is_present (value env "CRAWLER_MODEL_NAME"))
              (is_present (value env "CRAWLER_LLM_API_KEY")) web.0 (throw_if-eq-ok _ _ e)
              (throw_if-eq-ok _ _ f) (throw_if-eq-ok _ _ g),
          web.1,
        )
    where
      join :
          (crawling empty a b c : Bool)
          → (crawling && empty) ≡ false
          → (crawling && not a) ≡ false
          → (crawling && not b) ≡ false
          → (crawling && not c) ≡ false
          → (not crawling || (not empty && a && b && c)) ≡ true
      join crawling empty a b c he ha hb hc = ground (arith, he, ha, hb, hc)
