-- ===== src/Ingest/Sources.antt =====
-- `build_registry` of src/ingest/mod.rs, with the descriptors of the adapters (src/ingest/nvd.rs,
-- src/ingest/cisa.rs, src/ingest/github.rs, src/ingest/feeds.rs).
pub mod Laws
pub mod Accepted
mod Tests
use Prim.Native.String as Native
use cyberwatch_rs.Prelude.{
  ◌>>=◌, ◌>>◌, unwrap_or, Result, ok, ℕ, String, Bool, true, false, List, [], ◌∷◌, ◌++◌,
}
use cyberwatch_rs.Models.{SourceDescriptor}
use cyberwatch_rs.Source.Registry.{new, register, RegisterError, SourceAdapter, SourceRegistry}
use cyberwatch_rs.Config.{Config, FeedConfig, source_enabled}

pub data Adapter : Type 0 where
  nvd : Adapter
  cisa_kev : Adapter
  github_advisories : Adapter
  feed_source : FeedConfig → ℕ → ℕ → Adapter

abbrev pub nvd_descriptor : SourceDescriptor
nvd_descriptor = record {
  id = "nvd";
  name = "NIST National Vulnerability Database";
  kind = "structured";
  region = "United States";
  language = "en";
  role = "vulnerability-database";
  trust = 3;
  timeout_seconds = 180;
  retry_attempts = 2;
}

abbrev cisa_descriptor : SourceDescriptor
cisa_descriptor = record {
  id = "cisa-kev";
  name = "CISA Known Exploited Vulnerabilities";
  kind = "structured";
  region = "United States";
  language = "en";
  role = "exploitation-catalog";
  trust = 3;
  timeout_seconds = 120;
  retry_attempts = 2;
}

abbrev github_descriptor : SourceDescriptor
github_descriptor = record {
  id = "github-advisories";
  name = "GitHub Reviewed Security Advisories";
  kind = "structured";
  region = "Global";
  language = "en";
  role = "advisory-database";
  trust = 2;
  timeout_seconds = 120;
  retry_attempts = 2;
}

unfoldable pub describe : Adapter → SourceDescriptor
describe nvd = nvd_descriptor
describe cisa_kev = cisa_descriptor
describe github_advisories = github_descriptor
describe (feed_source feed default_timeout default_retries) = record {
  id = Native.◌++◌ "feed-" feed.id;
  name = feed.name;
  kind = "feed";
  region = feed.region;
  language = feed.language;
  role = feed.role;
  trust = feed.trust;
  timeout_seconds = unwrap_or feed.timeout_seconds default_timeout;
  retry_attempts = unwrap_or feed.retry_attempts default_retries;
}

instance abbrev pub adapters_of : SourceAdapter Adapter
adapters_of = record { descriptor = describe }

-- `if config.source_enabled(id) { registry.register(adapter)?; }`
unfoldable pub register_if :
    Bool → SourceRegistry Adapter → Adapter → Result RegisterError (SourceRegistry Adapter)
unfolding register describe
register_if true registry adapter = register registry adapter
register_if false registry adapter = ok registry

abbrev pub feed_adapter : Config → FeedConfig → Adapter
feed_adapter config feed = feed_source feed config.source_timeout config.source_retry_attempts

abbrev pub feed_source_id : FeedConfig → String
feed_source_id feed = Native.◌++◌ "feed-" feed.id

unfoldable pub register_feeds :
    Config
    → SourceRegistry Adapter
    → List FeedConfig
    → Result RegisterError (SourceRegistry Adapter)
unfolding register_if source_enabled
register_feeds config registry [] = ok registry
register_feeds config registry (feed ∷ more) = do
  next ←
      register_if (source_enabled config (feed_source_id feed)) registry (feed_adapter config feed)
  register_feeds config next more

unfoldable pub build_registry : Config → Result RegisterError (SourceRegistry Adapter)
unfolding register_feeds
build_registry config = do
  first ← register_if (source_enabled config "nvd") new nvd
  second ← register_if (source_enabled config "cisa-kev") first cisa_kev
  third ← register_if (source_enabled config "github-advisories") second github_advisories
  register_feeds config third config.feeds
