-- ===== src/Configuration/Loading.antt =====
-- `loadBackendRuntimeConfig` of apps/backend/src/runtime-config.ts.
use cryptox.Base.{whole, Bool, Option, none, some, ℤ, pos, Result, ok, ◌>>=◌, Codes, codes}
use cryptox.Configuration.Environment.{
  Javascript, ConfigError, Environment, value, or_text, or_value, positive_integer, bounded_number,
  RuntimeProfile, profile_for, validate_endpoint,
}
use cryptox.Configuration.Sections.{
  is_durable, Connections, read_connections, MarketDataProvider, read_provider, StrategyModel,
  read_strategy_model, Crawler, read_crawler,
}

-- A model with what the settings of another stand in for.
pub record ModelSettings : Type 0 where
  pub endpoint : Option Codes
  pub model_name : Option Codes
  pub api_key : Option Codes

pub record CrawlerLimits : Type 0 where
  pub request_timeout_ms : ℤ
  pub max_html_bytes : ℤ
  pub max_interpreter_html_bytes : ℤ
  pub max_output_bytes : ℤ
  pub max_candidates : ℤ
  pub max_field_length : ℤ

pub record BacktestDefaults : Type 0 where
  pub recovery_interval_ms : ℤ
  pub worker_concurrency : ℤ
  pub initial_capital : ℤ
  pub fee_rate_percent : ℤ
  pub slippage_bps : ℤ
  pub max_attempts : ℤ

pub record BackendRuntimeConfig : Type 0 where
  pub profile : RuntimeProfile
  pub durable : Bool
  pub connections : Connections
  pub market_data_provider : MarketDataProvider
  pub strategy_model : StrategyModel
  pub strategy_prompt_version : Codes
  pub strategy_model_version : Option Codes
  pub strategy_model_timeout_ms : ℤ
  pub sentiment_model : ModelSettings
  pub sentiment_model_version : Option Codes
  pub sentiment_model_timeout_ms : ℤ
  pub template_model : ModelSettings
  pub crawler : Crawler
  pub crawler_limits : CrawlerLimits
  pub backtests : BacktestDefaults

-- The version of the model of the strategies, where it has a name.
abbrev version_or_name : Option Codes → Option Codes → Option Codes
version_or_name none version = none
version_or_name (some name) version = some (or_text version name)

module _ (js : Javascript) where
  unfoldable pub read_crawler_limits : Environment → Result ConfigError CrawlerLimits
  read_crawler_limits env = do
    timeout ← positive_integer js env "CRAWLER_REQUEST_TIMEOUT_MS" 10_000 100 120_000
    html ← positive_integer js env "CRAWLER_MAX_HTML_BYTES" 1_000_000 1_024 10_000_000
    interpreter ←
        positive_integer js env "CRAWLER_MAX_INTERPRETER_HTML_BYTES" 64_000 1_024 10_000_000
    output ← positive_integer js env "CRAWLER_MAX_OUTPUT_BYTES" 256_000 1_024 10_000_000
    candidates ← positive_integer js env "CRAWLER_MAX_CANDIDATES" 8 1 64
    field_length ← positive_integer js env "CRAWLER_MAX_FIELD_LENGTH" 50_000 128 500_000
    ok (record {
      request_timeout_ms = timeout;
      max_html_bytes = html;
      max_interpreter_html_bytes = interpreter;
      max_output_bytes = output;
      max_candidates = candidates;
      max_field_length = field_length;
    })

  -- Number.MIN_VALUE is one unit.
  unfoldable pub read_backtest_defaults : Environment → Result ConfigError BacktestDefaults
  read_backtest_defaults env = do
    recovery ← positive_integer js env "BACKTEST_RECOVERY_INTERVAL_MS" 30_000 5_000 300_000
    concurrency ← positive_integer js env "BACKTEST_WORKER_CONCURRENCY" 1 1 100
    capital ←
        bounded_number js env "BACKTEST_DEFAULT_INITIAL_CAPITAL" (whole 1_000) (pos 1)
          (whole 1_000_000_000_000)
    fee ← bounded_number js env "BACKTEST_DEFAULT_FEE_RATE_PERCENT" (whole 0) (whole 0) (whole 100)
    slippage ← positive_integer js env "BACKTEST_DEFAULT_SLIPPAGE_BPS" 5 0 500
    attempts ← positive_integer js env "BACKTEST_DEFAULT_MAX_ATTEMPTS" 1 1 10
    ok (record {
      recovery_interval_ms = recovery;
      worker_concurrency = concurrency;
      initial_capital = capital;
      fee_rate_percent = fee;
      slippage_bps = slippage;
      max_attempts = attempts;
    })

  unfoldable pub load_for : Environment → RuntimeProfile → Result ConfigError BackendRuntimeConfig
  load_for env profile = do
    connections ← read_connections env profile
    provider ← read_provider js env profile
    strategy ← read_strategy_model env profile
    crawler ← read_crawler js env
    strategy_timeout ← positive_integer js env "STRATEGY_MODEL_TIMEOUT_MS" 15_000 100 120_000
    sentiment_endpoint ←
        validate_endpoint js "SENTIMENT_MODEL_ENDPOINT" (value env "SENTIMENT_MODEL_ENDPOINT")
    sentiment_timeout ← positive_integer js env "SENTIMENT_MODEL_TIMEOUT_MS" 15_000 100 120_000
    template_endpoint ←
        validate_endpoint js "TEMPLATE_MODEL_ENDPOINT" (value env "TEMPLATE_MODEL_ENDPOINT")
    limits ← read_crawler_limits env
    backtests ← read_backtest_defaults env
    ok (record {
      profile = profile;
      durable = is_durable profile;
      connections = connections;
      market_data_provider = provider;
      strategy_model = strategy;
      strategy_prompt_version = or_text (value env "STRATEGY_PROMPT_VERSION") (codes "1");
      strategy_model_version =
          version_or_name strategy.model_name (value env "STRATEGY_MODEL_VERSION");
      strategy_model_timeout_ms = strategy_timeout;
      sentiment_model = record {
        endpoint = or_value sentiment_endpoint strategy.endpoint;
        model_name = or_value (value env "SENTIMENT_MODEL_NAME") strategy.model_name;
        api_key = or_value (value env "SENTIMENT_LLM_API_KEY") strategy.api_key;
      };
      sentiment_model_version =
          or_value (value env "SENTIMENT_MODEL_VERSION")
            (or_value (value env "SENTIMENT_MODEL_NAME") strategy.model_name);
      sentiment_model_timeout_ms = sentiment_timeout;
      template_model = record {
        endpoint = or_value template_endpoint (or_value crawler.endpoint strategy.endpoint);
        model_name =
            or_value (value env "TEMPLATE_MODEL_NAME")
              (or_value crawler.model_name strategy.model_name);
        api_key =
            or_value (value env "TEMPLATE_LLM_API_KEY") (or_value crawler.api_key strategy.api_key);
      };
      crawler = crawler;
      crawler_limits = limits;
      backtests = backtests;
    })

  abbrev requested_or_read : Environment → Option RuntimeProfile → Result ConfigError RuntimeProfile
  requested_or_read env none = profile_for js env
  requested_or_read env (some profile) = ok profile

  unfoldable pub load_backend_runtime_config :
      Environment → Option RuntimeProfile → Result ConfigError BackendRuntimeConfig
  load_backend_runtime_config env requested = do
    profile ← requested_or_read env requested
    load_for env profile
