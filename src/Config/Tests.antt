-- ===== src/Config/Tests.antt =====
-- An environment to try the configuration on: a server that is bound publicly, with a token.
use cyberwatch_rs.Prelude.{
  ◌==◌, text_eq, if◌then◌else◌, length, ok, err, ◌≤◌, String, len, ◌≡◌, refl, Bool, true, false,
  Option, none, some, List, [], ◌∷◌,
}
use cyberwatch_rs.Prelude.Text.{to_ascii_lowercase}
use cyberwatch_rs.Prelude.Decimal.{parse_below}
use cyberwatch_rs.Http.Address.{v4}
use cyberwatch_rs.Http.Url.{allowed_host, validate_outbound_url}
use cyberwatch_rs.Http.Tests.{site_crate, Site, sites}
use cyberwatch_rs.Api.Authorize.{
  HeaderMap, is_loopback, provided_token, authorize_refresh, RequestApi,
}
use cyberwatch_rs.Config.{access, SocketAddr, FeedConfig, Config, token_required}
use cyberwatch_rs.Config.Env.{Lookup, Files}
use cyberwatch_rs.Config.Feeds.{merge_feeds, validate_feeds, FeedApi, array}
use cyberwatch_rs.Config.Feeds.Laws.{validate_feeds-AreFeeds, AreFeeds}
use cyberwatch_rs.Prelude.Sort.{IsSorted}
use cyberwatch_rs.Config.Feeds.Order.{before}
use cyberwatch_rs.Config.Feeds.Merge.{feed_by, last_by, or_last, feed_by-merge_feeds}
use cyberwatch_rs.Config.Load.{from_lookup}
use cyberwatch_rs.Config.Load.Laws.{
  from_lookup-IsSafeConfig, from_lookup-authorize_refresh, IsSafeConfig,
}

abbrev feed_named : String → Bool → FeedConfig
feed_named id enabled = record {
  id = id;
  name = id;
  url = "https://example.org";
  region = "Global";
  language = "en";
  trust = 2;
  role = "media";
  enabled = enabled;
  timeout_seconds = some 30;
  retry_attempts = none;
}

abbrev two_feeds : List FeedConfig
two_feeds = feed_named "feed-a" true ∷ feed_named "feed-b" false ∷ []

-- Every catalogue holds the same two feeds.
instance abbrev pub test_feeds : FeedApi
test_feeds = record {
  url_crate = site_crate;
  to_lowercase = to_ascii_lowercase;
  parse_catalog = λ text. some (array two_feeds);
}

feeds_accepted : validate_feeds two_feeds ≡ ok (feed_named "feed-a" true ∷ [])
unfolding validate_feeds validate_outbound_url allowed_host
feeds_accepted = refl

validate_feeds-AreFeeds_example :
    (length two_feeds ≤ 128) × AreFeeds [] [] two_feeds (feed_named "feed-a" true ∷ [])
validate_feeds-AreFeeds_example =
    validate_feeds-AreFeeds two_feeds (feed_named "feed-a" true ∷ []) feeds_accepted

feed_by-merge_feeds_example :
    IsSorted before (merge_feeds two_feeds (feed_named "feed-b" true ∷ []))
    × (feed_by "feed-b" (merge_feeds two_feeds (feed_named "feed-b" true ∷ []))
        ≡ or_last (last_by "feed-b" (feed_named "feed-b" true ∷ [])) (last_by "feed-b" two_feeds))
feed_by-merge_feeds_example = feed_by-merge_feeds "feed-b" two_feeds (feed_named "feed-b" true ∷ [])

abbrev secret : String
secret = "8c2f1a09317cb41d1b61a9b762fcc949"

abbrev pub public_lookup : Lookup
public_lookup name =
    if name == "ADMIN_TOKEN"
    then some secret
    else if name == "SOURCE_CONCURRENCY"
    then some "900"
    else none

abbrev pub public_address_of : String → Option SocketAddr
public_address_of text = some (record { ip = v4 0 0 0 0; port = 8080 })

abbrev pub no_files : Files
no_files path = none

abbrev pub public_config : Config
public_config = record {
  bind_address = record { ip = v4 0 0 0 0; port = 8080 };
  database_path = "./data/cyberwatch.db";
  web_dir = "./web";
  refresh_interval = 900;
  refresh_on_start = true;
  refresh_enabled = true;
  demo_mode = false;
  refresh_queue_capacity = 1;
  source_concurrency = 64;
  validation_concurrency = 8;
  validation_batch_size = 250;
  http_connect_timeout = 15;
  source_timeout = 120;
  source_retry_attempts = 2;
  max_source_response_bytes = 33554432;
  source_failure_backoff = 60;
  source_failure_backoff_max = 3600;
  nvd_api_key = none;
  nvd_results_per_page = 500;
  nvd_initial_window_days = 7;
  nvd_overlap_minutes = 10;
  github_token = none;
  github_advisory_pages = 3;
  admin_token = some secret;
  disabled_sources = [];
  feeds = feed_named "feed-a" true ∷ [];
  news_retention_days = 730;
  ingestion_run_retention_days = 90;
}

pub config_accepted : from_lookup public_address_of no_files public_lookup "" ≡ ok public_config
unfolding from_lookup validate_outbound_url allowed_host parse_below
config_accepted = refl

token_needed : from_lookup public_address_of no_files (λ name. none) "" ≡ err token_required
unfolding from_lookup validate_outbound_url allowed_host
token_needed = refl

from_lookup-IsSafeConfig_example :
    IsSafeConfig public_address_of no_files public_lookup "" public_config
from_lookup-IsSafeConfig_example =
    from_lookup-IsSafeConfig public_address_of no_files public_lookup "" public_config
      config_accepted

-- A digest is the length of the text.
instance abbrev length_digest : RequestApi
length_digest = record {
  Url = Site;
  urls = sites;
  parse_authority = λ text. none;
  parse_ip = λ text. none;
  digest = λ text. len text ∷ [];
}

abbrev with_token : HeaderMap
with_token name = if name == "x-admin-token" then some (some secret) else none

not_local : is_loopback public_config.bind_address.ip ≡ false
unfolding is_loopback
not_local = refl

token_accepted : authorize_refresh with_token (access public_config) ≡ ok tt
unfolding authorize_refresh
token_accepted = refl

from_lookup-authorize_refresh_example :
    (token : String) × (public_config.admin_token ≡ some token)
    × (32 ≤ len token)
    × (length_digest.digest token ≡ length_digest.digest (provided_token with_token))
from_lookup-authorize_refresh_example =
    from_lookup-authorize_refresh public_address_of no_files public_lookup "" public_config
      with_token config_accepted not_local token_accepted
