-- ===== src/Config.antt =====
-- src/config.rs: the configuration. Durations are whole seconds.
pub mod Env
pub mod Feeds
pub mod Load
pub mod Tests
use cyberwatch_rs.Prelude.{ℕ, String, Bool, not, ◌&&◌, Option, List}
use cyberwatch_rs.Prelude.Sets.{member}
use cyberwatch_rs.Http.Address.{IpAddr}
use cyberwatch_rs.Api.Authorize.{Access}

pub record SocketAddr : Type 0 where
  pub ip : IpAddr
  pub port : ℕ

pub record FeedConfig : Type 0 where
  pub id : String
  pub name : String
  pub url : String
  pub region : String
  pub language : String
  pub trust : ℕ
  pub role : String
  pub enabled : Bool
  pub timeout_seconds : Option ℕ
  pub retry_attempts : Option ℕ

pub record Config : Type 0 where
  pub bind_address : SocketAddr
  pub database_path : String
  pub web_dir : String
  pub refresh_interval : ℕ
  pub refresh_on_start : Bool
  pub refresh_enabled : Bool
  pub demo_mode : Bool
  pub refresh_queue_capacity : ℕ
  pub source_concurrency : ℕ
  pub validation_concurrency : ℕ
  pub validation_batch_size : ℕ
  pub http_connect_timeout : ℕ
  pub source_timeout : ℕ
  pub source_retry_attempts : ℕ
  pub max_source_response_bytes : ℕ
  pub source_failure_backoff : ℕ
  pub source_failure_backoff_max : ℕ
  pub nvd_api_key : Option String
  pub nvd_results_per_page : ℕ
  pub nvd_initial_window_days : ℕ
  pub nvd_overlap_minutes : ℕ
  pub github_token : Option String
  pub github_advisory_pages : ℕ
  pub admin_token : Option String
  pub disabled_sources : List String
  pub feeds : List FeedConfig
  pub news_retention_days : ℕ
  pub ingestion_run_retention_days : ℕ

-- What went wrong, by the variable or the feed that is at fault.
pub data ConfigError : Type 0 where
  bad_bind_address : ConfigError
  backoff_order : ConfigError
  invalid : String → ConfigError
  both_set : String → ConfigError
  unreadable : String → ConfigError
  bad_secret : String → ConfigError
  bad_catalog : ConfigError
  too_many_feeds : ConfigError
  bad_feed_id : ConfigError
  bad_feed_name : ConfigError
  duplicate_feed_id : ConfigError
  duplicate_feed_name : ConfigError
  bad_feed_timeout : ConfigError
  bad_feed_retries : ConfigError
  bad_feed_trust : ConfigError
  bad_feed_url : ConfigError
  short_interval : ConfigError
  short_timeout : ConfigError
  short_token : ConfigError
  token_required : ConfigError

unfoldable pub refresh_allowed : Config → Bool
refresh_allowed config = config.refresh_enabled && not config.demo_mode

unfoldable pub source_enabled : Config → String → Bool
unfolding member
source_enabled config id = not (member id config.disabled_sources)

-- The part of the configuration that the HTTP interface reads to authorise a refresh.
abbrev pub access : Config → Access
access config = record {
  admin_token = config.admin_token;
  bind_ip = config.bind_address.ip;
  bind_port = config.bind_address.port;
}
