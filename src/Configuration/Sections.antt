-- ===== src/Configuration/Sections.antt =====
-- The parts of `loadBackendRuntimeConfig` in apps/backend/src/runtime-config.ts, in its order:
-- connections, market data, the model of the strategies, and news.
use Prim.Native.String.{String}
use cryptox.Base.{
  ltb, Bool, true, false, not, ◌&&◌, if◌then◌else◌, Option, none, some, List, [], length, Result,
  ok, err, ◌>>=◌, ◌>>◌, throw_if, Codes, codes, same,
}
use cryptox.Configuration.Environment.{
  Javascript, ConfigError, invalid, missing, unknown_provider, Environment, value, or_text,
  is_present, required, RuntimeProfile, demo, development, production, parse_url_list,
  validate_endpoint,
}

abbrev pub is_durable : RuntimeProfile → Bool
is_durable development = true
is_durable production = true
is_durable profile = false

abbrev pub is_production : RuntimeProfile → Bool
is_production production = true
is_production profile = false

pub record Connections : Type 0 where
  pub database_url : Option Codes
  pub redis_url : Option Codes
  pub jwt_secret : Option Codes

abbrev some_required : Environment → String → Result ConfigError (Option Codes)
some_required env key = required env key >>= λ t. ok (some t)

-- `durable ? required(env, key) : value(env, key)`
unfoldable pub read_value : Bool → Environment → String → Result ConfigError (Option Codes)
read_value durable env key = if durable then some_required env key else ok (value env key)

abbrev pub is_short : Option Codes → Bool
is_short none = false
is_short (some secret) = ltb (length secret) 32

unfoldable pub read_connections : Environment → RuntimeProfile → Result ConfigError Connections
read_connections env profile = do
  database_url ← read_value (is_durable profile) env "DATABASE_URL"
  redis_url ← read_value (is_durable profile) env "REDIS_URL"
  jwt_secret ← read_value (is_durable profile) env "JWT_SECRET"
  throw_if (is_durable profile && is_short jwt_secret) (invalid "JWT_SECRET")
  ok (record { database_url = database_url; redis_url = redis_url; jwt_secret = jwt_secret })

pub data MarketDataProvider : Type 0 where
  binance demo_data : MarketDataProvider

abbrev default_provider : RuntimeProfile → Codes
default_provider demo = codes "DEMO"
default_provider profile = codes "BINANCE"

abbrev provider_named : Codes → Result ConfigError MarketDataProvider
provider_named s =
    if same s (codes "BINANCE")
    then ok binance
    else if same s (codes "DEMO")
    then ok demo_data
    else err (invalid "MARKET_DATA_PROVIDER")

abbrev pub is_demo_data : MarketDataProvider → Bool
is_demo_data demo_data = true
is_demo_data provider = false

pub record StrategyModel : Type 0 where
  pub endpoint : Option Codes
  pub model_name : Option Codes
  pub api_key : Option Codes

unfoldable pub read_strategy_model : Environment → RuntimeProfile → Result ConfigError StrategyModel
read_strategy_model env profile = do
  throw_if (is_durable profile && not (is_present (value env "STRATEGY_MODEL_ENDPOINT")))
      (missing "STRATEGY_MODEL_ENDPOINT")
  throw_if (is_durable profile && not (is_present (value env "STRATEGY_MODEL_NAME")))
      (missing "STRATEGY_MODEL_NAME")
  throw_if (is_durable profile && not (is_present (value env "STRATEGY_LLM_API_KEY")))
      (missing "STRATEGY_LLM_API_KEY")
  ok (record {
    endpoint = value env "STRATEGY_MODEL_ENDPOINT";
    model_name = value env "STRATEGY_MODEL_NAME";
    api_key = value env "STRATEGY_LLM_API_KEY";
  })

pub data NewsProvider : Type 0 where
  coindesk_rss crawler_llm crawler llm_crawler : NewsProvider

abbrev news_provider_named : Codes → Result ConfigError NewsProvider
news_provider_named s =
    if same s (codes "COINDESK_RSS")
    then ok coindesk_rss
    else if same s (codes "CRAWLER_LLM")
    then ok crawler_llm
    else if same s (codes "CRAWLER")
    then ok crawler
    else if same s (codes "LLM_CRAWLER")
    then ok llm_crawler
    else err (unknown_provider s)

abbrev pub crawls : NewsProvider → Bool
crawls coindesk_rss = false
crawls provider = true

pub record Crawler : Type 0 where
  pub news_provider : NewsProvider
  pub source_urls : List Codes
  pub endpoint : Option Codes
  pub model_name : Option Codes
  pub api_key : Option Codes
  pub prompt_version : Codes

module _ (js : Javascript) where
  unfoldable pub read_provider :
      Environment → RuntimeProfile → Result ConfigError MarketDataProvider
  read_provider env profile = do
    provider ←
        provider_named
          (js.to_upper (or_text (value env "MARKET_DATA_PROVIDER") (default_provider profile)))
    throw_if (is_production profile && is_demo_data provider) (invalid "MARKET_DATA_PROVIDER")
    ok provider

  unfoldable pub read_sources : Environment → NewsProvider → Result ConfigError (List Codes)
  read_sources env provider =
      if crawls provider then parse_url_list js env "CRAWLER_SOURCE_URLS" else ok []

  unfoldable pub read_crawler : Environment → Result ConfigError Crawler
  read_crawler env = do
    provider ←
        news_provider_named
          (js.to_upper (or_text (value env "NEWS_PROVIDER") (codes "COINDESK_RSS")))
    urls ← read_sources env provider
    endpoint ← validate_endpoint js "CRAWLER_MODEL_ENDPOINT" (value env "CRAWLER_MODEL_ENDPOINT")
    throw_if (crawls provider && not (is_present endpoint)) (missing "CRAWLER_MODEL_ENDPOINT")
    throw_if (crawls provider && not (is_present (value env "CRAWLER_MODEL_NAME")))
        (missing "CRAWLER_MODEL_NAME")
    throw_if (crawls provider && not (is_present (value env "CRAWLER_LLM_API_KEY")))
        (missing "CRAWLER_LLM_API_KEY")
    ok (record {
      news_provider = provider;
      source_urls = urls;
      endpoint = endpoint;
      model_name = value env "CRAWLER_MODEL_NAME";
      api_key = value env "CRAWLER_LLM_API_KEY";
      prompt_version = or_text (value env "CRAWLER_PROMPT_VERSION") (codes "1");
    })
