-- ===== src/Config/Load/Laws.antt =====
-- What an accepted configuration guarantees.
use cyberwatch_rs.Prelude.{
  ltb, length, bail_if, ok_or, is_some_and, is_some, bind-eq-ok, then-eq-ok, ok-inj, ok, ℕ, ◌*◌,
  ◌≤◌, String, len, ◌≡◌, refl, ap, ◌≢◌, true, false, not, ◌&&◌, Option, none, some, List, [], arith,
}
use cyberwatch_rs.Prelude.Decimal.{parse_i64, plus, minus, Signed}
use cyberwatch_rs.Api.Authorize.{
  HeaderMap, is_loopback, provided_token, authorize_refresh, RequestApi,
}
use cyberwatch_rs.Api.Authorize.Laws.{authorize_refresh_iff, by_token, by_locality}
use cyberwatch_rs.Config.{
  access, SocketAddr, FeedConfig, Config, bad_bind_address, backoff_order, bad_catalog,
  short_interval, short_timeout, short_token, token_required,
}
use cyberwatch_rs.Config.Env.{
  Lookup, optional_env, env_or, parse_u64, parse_bool, clamp, clamp_signed, at_least, Files,
  secret_env,
}
use cyberwatch_rs.Config.Feeds.{catalog_parts, select_feeds, override_of, load_feeds, FeedApi}
use cyberwatch_rs.Config.Feeds.Laws.{validate_feeds-AreFeeds, AreFeeds}
use cyberwatch_rs.Config.Load.{check_config, read_backoff, read_config, from_lookup}

-- A number of the configuration lies in its range.
abbrev pub Within : ℕ → ℕ → ℕ → Type 0
Within low high n = (low ≤ n) × (n ≤ high)

clamp-Within : (low high n : ℕ) → low ≤ high → Within low high (clamp low high n)
clamp-Within low high n h = (omega arith, omega arith)

clamp_signed-Within :
    (low high : ℕ) (n : Signed) → low ≤ high → Within low high (clamp_signed low high n)
clamp_signed-Within low high (plus n) h = clamp-Within low high n h
clamp_signed-Within low high (minus n) h = (omega arith, h)

at_least-lower : (low : ℕ) (n : Signed) → low ≤ at_least low n
at_least-lower low (plus n) = omega arith
at_least-lower low (minus n) = omega arith

-- The bounds that the clamps of the struct literal set.
pub record IsBoundedConfig (config : Config) : Type 0 where
  pub queue : Within 1 32 config.refresh_queue_capacity
  pub sources : Within 1 64 config.source_concurrency
  pub validations : Within 1 64 config.validation_concurrency
  pub batch : Within 1 2000 config.validation_batch_size
  pub retries : config.source_retry_attempts ≤ 10
  pub response : Within 65536 268435456 config.max_source_response_bytes
  pub page : Within 1 2000 config.nvd_results_per_page
  pub window : Within 1 119 config.nvd_initial_window_days
  pub overlap : config.nvd_overlap_minutes ≤ 1440
  pub advisories : Within 1 10 config.github_advisory_pages
  pub run_days : 1 ≤ config.ingestion_run_retention_days

-- What the guards add.
pub record IsGuarded (config : Config) : Type 0 where
  pub interval : 30 ≤ config.refresh_interval
  pub timeout : 5 ≤ config.source_timeout
  pub long_token : (token : String) → config.admin_token ≡ some token → 32 ≤ len token
  pub token_or_local : is_loopback config.bind_address.ip ≡ false → config.admin_token ≢ none

check_config-IsGuarded :
    (config result : Config)
    → check_config config ≡ ok result
    → (config ≡ result) × IsGuarded config
unfolding check_config
check_config-IsGuarded config result h =
    let (interval, h1) = then-eq-ok (bail_if (ltb config.refresh_interval 30) short_interval) h in
    let (timeout, h2) = then-eq-ok (bail_if (ltb config.source_timeout 5) short_timeout) h1 in
    let (long, h3) =
      then-eq-ok
        (bail_if (is_some_and config.admin_token (λ token. ltb (len token) 32)) short_token) h2 in
    let (local, h4) =
      then-eq-ok
        (bail_if (not (is_loopback config.bind_address.ip) && not (is_some config.admin_token))
          token_required)
        h3 in
    (
      ok-inj h4,
      record {
        interval = ground arith;
        timeout = ground arith;
        long_token = λ token e. ground arith;
        token_or_local = λ public none_set. ground arith;
      },
    )

module _ ⦃api : FeedApi⦄ (parse_socket : String → Option SocketAddr) (files : Files)
    (lookup : Lookup) (embedded : String) where
  read_backoff-ordered :
      (base maximum : ℕ)
      → read_backoff parse_socket files lookup embedded ≡ ok (base, maximum)
      → base ≤ maximum
  unfolding read_backoff
  read_backoff-ordered base maximum h =
      let (base', e, h1) =
        bind-eq-ok (env_or parse_u64 lookup "SOURCE_FAILURE_BACKOFF_SECONDS" 60) _ h in
      let (maximum', e', h2) =
        bind-eq-ok (env_or parse_u64 lookup "SOURCE_FAILURE_BACKOFF_MAX_SECONDS" 3600) _ h1 in
      let (ordered, h3) = then-eq-ok (bail_if (ltb maximum' base') backoff_order) h2 in
      let same = ok-inj h3 in
      let lower : base' ≡ base = ap (λ p. p.0) same in
      let upper : maximum' ≡ maximum = ap (λ p. p.1) same in ground arith

  -- The values that no other field of the configuration determines.
  pub record IsLoaded (base maximum : ℕ) (config : Config) : Type 0 where
    pub bounds : IsBoundedConfig config
    pub backoff :
        (config.source_failure_backoff ≡ base) × (config.source_failure_backoff_max ≡ maximum)
    pub loaded_feeds : load_feeds files lookup embedded ≡ ok config.feeds

  read_config-IsLoaded :
      (address : SocketAddr) (base maximum : ℕ) (config : Config)
      → read_config parse_socket files lookup embedded address base maximum ≡ ok config
      → IsLoaded base maximum config
  unfolding read_config
  read_config-IsLoaded address base maximum config h =
      let (v0, e0, h0) =
        bind-eq-ok (env_or (λ value. some value) lookup "DATABASE_PATH" "./data/cyberwatch.db") _
          h in
      let (v1, e1, h1) = bind-eq-ok (env_or (λ value. some value) lookup "WEB_DIR" "./web") _ h0 in
      let (v2, e2, h2) = bind-eq-ok (env_or parse_u64 lookup "REFRESH_INTERVAL_SECONDS" 900) _ h1 in
      let (v3, e3, h3) = bind-eq-ok (env_or parse_bool lookup "REFRESH_ON_START" true) _ h2 in
      let (v4, e4, h4) = bind-eq-ok (env_or parse_bool lookup "REFRESH_ENABLED" true) _ h3 in
      let (v5, e5, h5) = bind-eq-ok (env_or parse_bool lookup "DEMO_MODE" false) _ h4 in
      let (v6, e6, h6) = bind-eq-ok (env_or parse_u64 lookup "REFRESH_QUEUE_CAPACITY" 1) _ h5 in
      let (v7, e7, h7) = bind-eq-ok (env_or parse_u64 lookup "SOURCE_CONCURRENCY" 8) _ h6 in
      let (v8, e8, h8) = bind-eq-ok (env_or parse_u64 lookup "VALIDATION_CONCURRENCY" 8) _ h7 in
      let (v9, e9, h9) = bind-eq-ok (env_or parse_u64 lookup "VALIDATION_BATCH_SIZE" 250) _ h8 in
      let (v10, e10, h10) =
        bind-eq-ok (env_or parse_u64 lookup "HTTP_CONNECT_TIMEOUT_SECONDS" 15) _ h9 in
      let (v11, e11, h11) =
        bind-eq-ok (env_or parse_u64 lookup "SOURCE_TIMEOUT_SECONDS" 120) _ h10 in
      let (v12, e12, h12) = bind-eq-ok (env_or parse_u64 lookup "SOURCE_RETRY_ATTEMPTS" 2) _ h11 in
      let (v13, e13, h13) =
        bind-eq-ok (env_or parse_u64 lookup "MAX_SOURCE_RESPONSE_BYTES" (32 * 1048576)) _ h12 in
      let (v14, e14, h14) = bind-eq-ok (secret_env files lookup "NVD_API_KEY") _ h13 in
      let (v15, e15, h15) = bind-eq-ok (env_or parse_u64 lookup "NVD_RESULTS_PER_PAGE" 500) _ h14 in
      let (v16, e16, h16) =
        bind-eq-ok (env_or parse_i64 lookup "NVD_INITIAL_WINDOW_DAYS" (plus 7)) _ h15 in
      let (v17, e17, h17) =
        bind-eq-ok (env_or parse_i64 lookup "NVD_OVERLAP_MINUTES" (plus 10)) _ h16 in
      let (v18, e18, h18) = bind-eq-ok (secret_env files lookup "GITHUB_TOKEN") _ h17 in
      let (v19, e19, h19) = bind-eq-ok (env_or parse_u64 lookup "GITHUB_ADVISORY_PAGES" 3) _ h18 in
      let (v20, e20, h20) = bind-eq-ok (secret_env files lookup "ADMIN_TOKEN") _ h19 in
      let (v21, e21, h21) = bind-eq-ok (load_feeds files lookup embedded) _ h20 in
      let (v22, e22, h22) =
        bind-eq-ok (env_or parse_i64 lookup "NEWS_RETENTION_DAYS" (plus 730)) _ h21 in
      let (v23, e23, h23) =
        bind-eq-ok (env_or parse_i64 lookup "INGESTION_RUN_RETENTION_DAYS" (plus 90)) _ h22 in
      let built : _ ≡ config = ok-inj h23 in
      rw (← built) (record {
        bounds = record {
          queue = clamp-Within 1 32 v6 (omega arith);
          sources = clamp-Within 1 64 v7 (omega arith);
          validations = clamp-Within 1 64 v8 (omega arith);
          batch = clamp-Within 1 2000 v9 (omega arith);
          retries = (clamp-Within 0 10 v12 (omega arith)).1;
          response = clamp-Within 65536 268435456 v13 (omega arith);
          page = clamp-Within 1 2000 v15 (omega arith);
          window = clamp_signed-Within 1 119 v16 (omega arith);
          overlap = (clamp_signed-Within 0 1440 v17 (omega arith)).1;
          advisories = clamp-Within 1 10 v19 (omega arith);
          run_days = at_least-lower 1 v23;
        };
        backoff = (refl, refl);
        loaded_feeds = e21;
      })

  load_feeds-AreFeeds :
      (valid : List FeedConfig)
      → load_feeds files lookup embedded ≡ ok valid
      → (feeds : List FeedConfig) × (length feeds ≤ 128) × AreFeeds [] [] feeds valid
  unfolding load_feeds
  load_feeds-AreFeeds valid h =
      let (defaults, e0, h0) = bind-eq-ok (ok_or (api.parse_catalog embedded) bad_catalog) _ h in
      let (text, e1, h1) =
        bind-eq-ok
          (override_of files (optional_env lookup "NEWS_FEEDS_JSON")
            (optional_env lookup "SOURCE_CONFIG_PATH"))
          _ h0 in
      let (feeds, e2, h2) = bind-eq-ok (select_feeds (catalog_parts defaults).1 text) _ h1 in
      let (few, are) = validate_feeds-AreFeeds feeds valid h2 in (feeds, few, are)

  -- What every accepted configuration is.
  pub record IsSafeConfig (config : Config) : Type 0 where
    pub bounded : IsBoundedConfig config
    pub guarded : IsGuarded config
    pub backoff_ordered : config.source_failure_backoff ≤ config.source_failure_backoff_max
    pub configured : List FeedConfig
    pub few_feeds : length configured ≤ 128
    pub feeds_valid : AreFeeds [] [] configured config.feeds

  -- Whatever the environment says, a configuration that is accepted has every bounded number in its
  -- range, delays of at least 30 and 5 seconds, a base delay that is not above its maximum, a token
  -- of 32 bytes or more, which is there unless the server is bound to the loopback, and valid feeds.
  pub from_lookup-IsSafeConfig :
      (config : Config)
      → from_lookup parse_socket files lookup embedded ≡ ok config
      → IsSafeConfig config
  unfolding from_lookup
  from_lookup-IsSafeConfig config h =
      let (text, e0, h0) =
        bind-eq-ok (env_or (λ value. some value) lookup "BIND_ADDRESS" "127.0.0.1:8080") _ h in
      let (address, e1, h1) = bind-eq-ok (ok_or (parse_socket text) bad_bind_address) _ h0 in
      let ((base, maximum), e2, h2) =
        bind-eq-ok (read_backoff parse_socket files lookup embedded) _ h1 in
      let (read, e3, h3) =
        bind-eq-ok (read_config parse_socket files lookup embedded address base maximum) _ h2 in
      let (same, guarded) = check_config-IsGuarded read config h3 in
      let loaded = read_config-IsLoaded address base maximum read e3 in
      let (feeds, few, valid) = load_feeds-AreFeeds read.feeds loaded.loaded_feeds in
      let ordered : base ≤ maximum = read_backoff-ordered base maximum e2 in
      rw (← same) (record {
        bounded = loaded.bounds;
        guarded = guarded;
        backoff_ordered = rw (loaded.backoff.0, loaded.backoff.1) ordered;
        configured = feeds;
        few_feeds = few;
        feeds_valid = valid;
      })

  -- A server that is configured from its environment and not bound to the loopback lets nobody start
  -- a refresh without the digest of a token of 32 bytes or more.
  pub from_lookup-authorize_refresh :
      ⦃request : RequestApi⦄ (config : Config) (headers : HeaderMap)
      → from_lookup parse_socket files lookup embedded ≡ ok config
      → is_loopback config.bind_address.ip ≡ false
      → authorize_refresh headers (access config) ≡ ok tt
      → (token : String) × (config.admin_token ≡ some token)
        × (32 ≤ len token)
        × (request.digest token ≡ request.digest (provided_token headers))
  from_lookup-authorize_refresh config headers h outside accepted =
      let safe = from_lookup-IsSafeConfig config h in
      elim ((authorize_refresh_iff headers (access config)).0 accepted).1 [
        | by_token token e same ↦ (token, e, safe.guarded.long_token token e, same)
        | by_locality _ _ _ local _ _ _ _ ↦ absurd (ground arith)
      ]
