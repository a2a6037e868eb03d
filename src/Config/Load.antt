-- ===== src/Config/Load.antt =====
-- `Config::from_lookup` of src/config.rs.
pub mod Laws
use cyberwatch_rs.Prelude.{
  ltb, ◌==◌, text_eq, keep, ◌>>=◌, ◌>>◌, bail_if, ok_or, is_some_and, is_some, unwrap_or, Result,
  ok, ℕ, ◌*◌, String, len, Bool, true, false, not, ◌&&◌, Option, some, List, map,
}
use cyberwatch_rs.Prelude.Text.{trim, split}
use cyberwatch_rs.Prelude.Decimal.{parse_i64, plus}
use cyberwatch_rs.Api.Authorize.{is_loopback}
use cyberwatch_rs.Config.{
  SocketAddr, Config, ConfigError, bad_bind_address, backoff_order, short_interval, short_timeout,
  short_token, token_required,
}
use cyberwatch_rs.Config.Env.{
  Lookup, env_or, parse_u64, parse_bool, clamp, clamp_signed, at_least, Files, secret_env,
}
use cyberwatch_rs.Config.Feeds.{load_feeds, FeedApi}

abbrev blank_free : List String → List String
blank_free values = keep (λ value. not (value == "")) values

unfoldable pub split_sources : Option String → List String
unfolding trim split
split_sources text = blank_free (map trim (split b',' (unwrap_or text "")))

abbrev mebibyte : ℕ
mebibyte = 1024 * 1024

-- The guards on the finished configuration.
unfoldable pub check_config : Config → Result ConfigError Config
unfolding is_loopback
check_config config = do
  bail_if (ltb config.refresh_interval 30) short_interval
  bail_if (ltb config.source_timeout 5) short_timeout
  bail_if (is_some_and config.admin_token (λ token. ltb (len token) 32)) short_token
  bail_if (not (is_loopback config.bind_address.ip) && not (is_some config.admin_token))
      token_required
  ok config

module _ ⦃api : FeedApi⦄ (parse_socket : String → Option SocketAddr) (files : Files)
    (lookup : Lookup) (embedded : String) where
  abbrev pub read_text : String → String → Result ConfigError String
  read_text name default = env_or (λ value. some value) lookup name default

  abbrev pub read_u64 : String → ℕ → Result ConfigError ℕ
  read_u64 name default = env_or parse_u64 lookup name default

  abbrev pub read_bool : String → Bool → Result ConfigError Bool
  read_bool name default = env_or parse_bool lookup name default

  -- The two delays of the backoff, with their guard.
  unfoldable pub read_backoff : Result ConfigError (ℕ × ℕ)
  unfolding env_or
  read_backoff = do
    base ← read_u64 "SOURCE_FAILURE_BACKOFF_SECONDS" 60
    maximum ← read_u64 "SOURCE_FAILURE_BACKOFF_MAX_SECONDS" 3600
    bail_if (ltb maximum base) backoff_order
    ok (base, maximum)

  -- The struct literal, field after field.
  unfoldable pub read_config : SocketAddr → ℕ → ℕ → Result ConfigError Config
  unfolding env_or secret_env split_sources load_feeds
  read_config bind_address base maximum = do
    database_path ← read_text "DATABASE_PATH" "./data/cyberwatch.db"
    web_dir ← read_text "WEB_DIR" "./web"
    refresh_interval ← read_u64 "REFRESH_INTERVAL_SECONDS" 900
    refresh_on_start ← read_bool "REFRESH_ON_START" true
    refresh_enabled ← read_bool "REFRESH_ENABLED" true
    demo_mode ← read_bool "DEMO_MODE" false
    queue_capacity ← read_u64 "REFRESH_QUEUE_CAPACITY" 1
    source_concurrency ← read_u64 "SOURCE_CONCURRENCY" 8
    validation_concurrency ← read_u64 "VALIDATION_CONCURRENCY" 8
    batch_size ← read_u64 "VALIDATION_BATCH_SIZE" 250
    connect_timeout ← read_u64 "HTTP_CONNECT_TIMEOUT_SECONDS" 15
    source_timeout ← read_u64 "SOURCE_TIMEOUT_SECONDS" 120
    retry_attempts ← read_u64 "SOURCE_RETRY_ATTEMPTS" 2
    max_bytes ← read_u64 "MAX_SOURCE_RESPONSE_BYTES" (32 * mebibyte)
    nvd_api_key ← secret_env files lookup "NVD_API_KEY"
    results_per_page ← read_u64 "NVD_RESULTS_PER_PAGE" 500
    window_days ← env_or parse_i64 lookup "NVD_INITIAL_WINDOW_DAYS" (plus 7)
    overlap_minutes ← env_or parse_i64 lookup "NVD_OVERLAP_MINUTES" (plus 10)
    github_token ← secret_env files lookup "GITHUB_TOKEN"
    advisory_pages ← read_u64 "GITHUB_ADVISORY_PAGES" 3
    admin_token ← secret_env files lookup "ADMIN_TOKEN"
    feeds ← load_feeds files lookup embedded
    news_days ← env_or parse_i64 lookup "NEWS_RETENTION_DAYS" (plus 730)
    run_days ← env_or parse_i64 lookup "INGESTION_RUN_RETENTION_DAYS" (plus 90)
    ok (record {
      bind_address = bind_address;
      database_path = database_path;
      web_dir = web_dir;
      refresh_interval = refresh_interval;
      refresh_on_start = refresh_on_start;
      refresh_enabled = refresh_enabled;
      demo_mode = demo_mode;
      refresh_queue_capacity = clamp 1 32 queue_capacity;
      source_concurrency = clamp 1 64 source_concurrency;
      validation_concurrency = clamp 1 64 validation_concurrency;
      validation_batch_size = clamp 1 2000 batch_size;
      http_connect_timeout = connect_timeout;
      source_timeout = source_timeout;
      source_retry_attempts = clamp 0 10 retry_attempts;
      max_source_response_bytes = clamp (64 * 1024) (256 * mebibyte) max_bytes;
      source_failure_backoff = base;
      source_failure_backoff_max = maximum;
      nvd_api_key = nvd_api_key;
      nvd_results_per_page = clamp 1 2000 results_per_page;
      nvd_initial_window_days = clamp_signed 1 119 window_days;
      nvd_overlap_minutes = clamp_signed 0 1440 overlap_minutes;
      github_token = github_token;
      github_advisory_pages = clamp 1 10 advisory_pages;
      admin_token = admin_token;
      disabled_sources = split_sources (lookup "DISABLED_SOURCES");
      feeds = feeds;
      news_retention_days = at_least 0 news_days;
      ingestion_run_retention_days = at_least 1 run_days;
    })

  unfoldable pub from_lookup : Result ConfigError Config
  unfolding read_backoff read_config check_config
  from_lookup = do
    text ← read_text "BIND_ADDRESS" "127.0.0.1:8080"
    bind_address ← ok_or (parse_socket text) bad_bind_address
    (base, maximum) ← read_backoff
    config ← read_config bind_address base maximum
    check_config config
