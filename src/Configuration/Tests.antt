-- ===== src/Configuration/Tests.antt =====
-- Environments that are read, and the theorem at one of them.
use text.Mathlib.Text.{◌==◌}
use cryptox.Base.{
  is_integer, one, ◌≡◌, refl, if◌then◌else◌, none, some, [], ok, err, tmod, ◌>>=◌, ◌>>◌, throw_if,
  codes,
}
use cryptox.Configuration.Environment.{
  Javascript, Environment, missing, value, required, profile_for, positive_integer, bounded_number,
  parse_url_list, validate_endpoint, check_urls, split_list, given_parts, distinct_from, production,
}
use cryptox.Configuration.Sections.{
  read_value, read_connections, read_provider, read_strategy_model, read_sources, read_crawler,
}
use cryptox.Configuration.Loading.{
  BackendRuntimeConfig, read_crawler_limits, read_backtest_defaults, load_for,
  load_backend_runtime_config,
}
use cryptox.Configuration.Safety.{IsRunnable, load_backend_runtime_config-IsRunnable}

-- Texts in upper case, and every address one of the same host.
abbrev js : Javascript
js = record {
  to_upper = λ s. s;
  to_lower = λ s. s;
  to_number = λ s. none;
  parse_url = λ s. some (record {
    protocol = codes "https:";
    username = [];
    password = [];
    hostname = codes "example.org";
    href = s;
  });
}

abbrev crawling : Environment
crawling key =
    if key == "NEWS_PROVIDER"
    then some (codes "CRAWLER")
    else if key == "CRAWLER_SOURCE_URLS"
    then some (codes " https://example.org/a,https://example.org/b ")
    else if key == "NODE_ENV"
    then none
    else if key == "RUNTIME_PROFILE"
    then some (codes "DEMO")
    else if key == "CRAWLER_MODEL_ENDPOINT"
    then some (codes "https://example.org")
    else if key == "CRAWLER_MODEL_NAME"
    then some (codes "model")
    else if key == "CRAWLER_LLM_API_KEY"
    then some (codes "key")
    else none

trims :
    value crawling "CRAWLER_SOURCE_URLS"
    ≡ some (codes "https://example.org/a,https://example.org/b")
unfolding value
trims = refl

loaded :
    (config : BackendRuntimeConfig) × (load_backend_runtime_config js crawling none ≡ ok config)
unfolding load_backend_runtime_config load_for read_connections read_provider read_strategy_model
    read_crawler read_sources read_value parse_url_list check_urls split_list given_parts
    distinct_from validate_endpoint read_crawler_limits read_backtest_defaults positive_integer
    bounded_number profile_for value required is_integer one tmod ◌>>=◌ ◌>>◌ throw_if
loaded = (_, refl)

load_backend_runtime_config-IsRunnable_example : IsRunnable js loaded.0
load_backend_runtime_config-IsRunnable_example =
    load_backend_runtime_config-IsRunnable js crawling none loaded.0 loaded.1

-- A durable profile without a database is refused.
needs_database :
    load_backend_runtime_config js crawling (some production) ≡ err (missing "DATABASE_URL")
unfolding load_backend_runtime_config load_for read_connections read_value value required ◌>>=◌
needs_database = refl
