-- ===== src/Configuration/Safety.antt =====
-- The checks of apps/backend/src/runtime-config.ts together.
use Prim.Native.String.{String}
use cryptox.Base.{
  ◌≡◌, refl, arith, Bool, true, false, not, ◌&&◌, ◌||◌, Option, Result, ok, err, throw_if-eq-ok,
  Ensures, returned, thrown, Ensures-bind, Ensures-eq, bind-Ensures, then-Ensures, Codes,
}
use cryptox.Configuration.Environment.{
  Javascript, ConfigError, Environment, value, is_present, required, RuntimeProfile,
}
use cryptox.Configuration.Sections.{
  is_durable, is_production, Connections, read_value, is_short, read_connections, is_demo_data,
  MarketDataProvider, read_provider, StrategyModel, read_strategy_model,
}
use cryptox.Configuration.Loading.{BackendRuntimeConfig, load_for, load_backend_runtime_config}
use cryptox.Configuration.Bounds.{
  IsWholeWithin, LimitsWithin, DefaultsWithin, positive_integer-IsWholeWithin,
  read_crawler_limits-Within, read_backtest_defaults-Within,
}
use cryptox.Configuration.Crawling.{CanCrawl, read_crawler-CanCrawl}

-- A durable profile has a database, a queue and a secret of 32 characters at least.
abbrev pub are_connected : Bool → Connections → Bool
are_connected durable c =
    not durable
    || (is_present c.database_url
        && is_present c.redis_url
        && is_present c.jwt_secret
        && not (is_short c.jwt_secret))

abbrev pub has_model : Bool → StrategyModel → Bool
has_model durable m =
    not durable || (is_present m.endpoint && is_present m.model_name && is_present m.api_key)

abbrev pub IsRunnable : Javascript → BackendRuntimeConfig → Type 0
IsRunnable js config =
    (config.durable ≡ is_durable config.profile)
    × (are_connected config.durable config.connections ≡ true)
    × ((is_production config.profile && is_demo_data config.market_data_provider) ≡ false)
    × (has_model config.durable config.strategy_model ≡ true)
    × CanCrawl js config.crawler
    × IsWholeWithin 100 120_000 config.strategy_model_timeout_ms
    × IsWholeWithin 100 120_000 config.sentiment_model_timeout_ms
    × LimitsWithin config.crawler_limits
    × DefaultsWithin config.backtests

module _ (env : Environment) where
  required-is_present :
      (key : String) → Ensures (λ (t : Option Codes). is_present t ≡ true) (read_value true env key)
  unfolding read_value
  required-is_present key = bind-Ensures (required env key) _ (λ t e. returned refl)

  read_value-is_present :
      (durable : Bool) (key : String)
      → Ensures
          (λ (t : Option Codes). (not durable || is_present t) ≡ true)
          (read_value durable env key)
  read_value-is_present true key = required-is_present key
  read_value-is_present false key = anything (read_value false env key)
    where
      anything :
          (r : Result ConfigError (Option Codes))
          → Ensures (λ (t : Option Codes). (not false || is_present t) ≡ true) r
      anything (ok t) = returned refl
      anything (err e) = thrown

  read_connections-are_connected :
      (profile : RuntimeProfile)
      → Ensures
          (λ (c : Connections). are_connected (is_durable profile) c ≡ true)
          (read_connections env profile)
  unfolding read_connections
  read_connections-are_connected profile =
      Ensures-bind _ (read_value-is_present (is_durable profile) "DATABASE_URL") λ database hd.
        Ensures-bind _ (read_value-is_present (is_durable profile) "REDIS_URL") λ redis hr.
          Ensures-bind _ (read_value-is_present (is_durable profile) "JWT_SECRET") λ secret hs.
            then-Ensures _ _ λ u e. returned (
              join (is_durable profile) (is_present database) (is_present redis) (is_present secret)
                (is_short secret) hd hr hs (throw_if-eq-ok _ _ e))
    where
      join :
          (durable d r s short : Bool)
          → (not durable || d) ≡ true
          → (not durable || r) ≡ true
          → (not durable || s) ≡ true
          → (durable && short) ≡ false
          → (not durable || (d && r && s && not short)) ≡ true
      join durable d r s short hd hr hs h = ground (arith, hd, hr, hs, h)

  read_strategy_model-has_model :
      (profile : RuntimeProfile)
      → Ensures
          (λ (m : StrategyModel). has_model (is_durable profile) m ≡ true)
          (read_strategy_model env profile)
  unfolding read_strategy_model
  read_strategy_model-has_model profile = then-Ensures _ _ λ u e. then-Ensures _ _ λ v f.
      then-Ensures _ _ λ w g. returned (
        join (is_durable profile) (is_present (value env "STRATEGY_MODEL_ENDPOINT"))
          (is_present (value env "STRATEGY_MODEL_NAME"))
          (is_present (value env "STRATEGY_LLM_API_KEY")) (throw_if-eq-ok _ _ e)
          (throw_if-eq-ok _ _ f) (throw_if-eq-ok _ _ g))
    where
      join :
          (durable a b c : Bool)
          → (durable && not a) ≡ false
          → (durable && not b) ≡ false
          → (durable && not c) ≡ false
          → (not durable || (a && b && c)) ≡ true
      join durable a b c ha hb hc = ground (arith, ha, hb, hc)

module _ (js : Javascript) (env : Environment) where
  read_provider-is_real :
      (profile : RuntimeProfile)
      → Ensures
          (λ (p : MarketDataProvider). (is_production profile && is_demo_data p) ≡ false)
          (read_provider js env profile)
  unfolding read_provider
  read_provider-is_real profile =
      bind-Ensures _ _ λ provider named. then-Ensures _ _ λ u e. returned (throw_if-eq-ok _ _ e)

  load_for-IsRunnable :
      (profile : RuntimeProfile) → Ensures (IsRunnable js) (load_for js env profile)
  unfolding load_for
  load_for-IsRunnable profile =
      Ensures-bind _ (read_connections-are_connected env profile) λ connections h1.
        Ensures-bind _ (read_provider-is_real profile) λ provider h2.
          Ensures-bind _ (read_strategy_model-has_model env profile) λ strategy h3.
            Ensures-bind _ (read_crawler-CanCrawl js env) λ crawler h4.
              Ensures-bind _ (positive_integer-IsWholeWithin js env _ _ _ _) λ timeout h5.
                bind-Ensures _ _ λ sentiment_endpoint e.
                  Ensures-bind _ (positive_integer-IsWholeWithin js env _ _ _ _)
                    λ sentiment_timeout h6. bind-Ensures _ _ λ template_endpoint f.
                      Ensures-bind _ (read_crawler_limits-Within js env) λ limits h7.
                        Ensures-bind _ (read_backtest_defaults-Within js env)
                          λ backtests h8. returned (refl, h1, h2, h3, h4, h5, h6, h7, h8)

-- A configuration that is loaded can be run. A durable profile has a database, a queue, a secret of at
-- least 32 characters and a model for its strategies; production has no demo data; a crawler has
-- sources, each a web address with a host and without credentials, and a model; and every number lies
-- in its bounds.
pub load_backend_runtime_config-IsRunnable :
    (js : Javascript) (env : Environment) (requested : Option RuntimeProfile)
    (config : BackendRuntimeConfig)
    → load_backend_runtime_config js env requested ≡ ok config
    → IsRunnable js config
unfolding load_backend_runtime_config
load_backend_runtime_config-IsRunnable js env requested config h =
    Ensures-eq (bind-Ensures _ (load_for js env) λ profile e. load_for-IsRunnable js env profile) h
