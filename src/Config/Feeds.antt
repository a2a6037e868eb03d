-- ===== src/Config/Feeds.antt =====
-- `load_feeds`, `merge_feeds` and `validate_feeds` of src/config.rs. Parsing the catalogue is
-- `serde_json`'s, and `to_lowercase` follows the tables of Unicode.
pub mod Order
pub mod Laws
pub mod Merge
use Prim.Native.Char.{Char, code}
use Prim.Native.Nat.{Ordering}
use Prim.Native.String as Native
use cyberwatch_rs.Prelude.{
  ltb, leb, ◌==◌, number_eq, text_eq, if◌then◌else◌, length, ◌>>=◌, ◌>>◌, bail_if, ok_or, is_ok,
  is_some_and, Result, ok, String, len, Bool, false, not, ◌&&◌, ◌||◌, Option, none, some, List, [],
  ◌∷◌, ◌++◌,
}
use cyberwatch_rs.Prelude.Text.{trim, in_range, is_ascii_digit, all_chars}
use cyberwatch_rs.Prelude.Sets.{member}
use cyberwatch_rs.Http.Url.{UrlCrate, validate_outbound_url}
use cyberwatch_rs.Config.{
  FeedConfig, ConfigError, unreadable, bad_catalog, too_many_feeds, bad_feed_id, bad_feed_name,
  duplicate_feed_id, duplicate_feed_name, bad_feed_timeout, bad_feed_retries, bad_feed_trust,
  bad_feed_url,
}
use cyberwatch_rs.Config.Env.{Lookup, optional_env, Files}

pub data FeedConfigFile : Type 0 where
  array : List FeedConfig → FeedConfigFile
  object : Bool → List FeedConfig → FeedConfigFile

unfoldable pub catalog_parts : FeedConfigFile → Bool × List FeedConfig
catalog_parts (array feeds) = (false, feeds)
catalog_parts (object include_defaults feeds) = (include_defaults, feeds)

-- `BTreeMap::insert` of a feed under its ID.
unfoldable pub insert_feed : FeedConfig → List FeedConfig → List FeedConfig
insert_feed feed [] = feed ∷ []
insert_feed feed (other ∷ more) =
    let rest = insert_feed feed more in
    elim (Native.compare feed.id other.id) [
      | Ordering.lt ↦ feed ∷ other ∷ more
      | Ordering.eq ↦ feed ∷ more
      | Ordering.gt ↦ other ∷ rest
    ]

unfoldable pub insert_feeds : List FeedConfig → List FeedConfig → List FeedConfig
unfolding insert_feed
insert_feeds merged [] = merged
insert_feeds merged (feed ∷ more) = insert_feeds (insert_feed feed merged) more

unfoldable pub merge_feeds : List FeedConfig → List FeedConfig → List FeedConfig
unfolding insert_feeds
merge_feeds defaults overrides = insert_feeds [] (defaults ++ overrides)

-- The pattern `^[a-z0-9][a-z0-9_-]{1,63}$`.
abbrev first_char : Char → Bool
first_char c = in_range b'a' b'z' c || is_ascii_digit c

abbrev later_char : Char → Bool
later_char c = first_char c || (code c == b'_' || code c == b'-')

unfoldable pub is_feed_id : String → Bool
unfolding is_ascii_digit all_chars
is_feed_id Native.[] = false
is_feed_id (Native.◌∷◌ c s) =
    first_char c && (leb 1 (len s) && leb (len s) 63) && all_chars later_char s

-- What loading the feeds calls of other libraries.
pub record FeedApi : Type 1 where
  pub url_crate : UrlCrate
  pub to_lowercase : String → String
  pub parse_catalog : String → Option FeedConfigFile

module _ ⦃api : FeedApi⦄ where
  abbrev pub outbound : String → Result ConfigError (Unit {0})
  outbound text = do
    url ← ok_or (api.url_crate.urls.parse text) bad_feed_url
    bail_if (not (is_ok (validate_outbound_url ⦃api = api.url_crate.urls⦄ url))) bad_feed_url

  -- The loop; `ids` and `names` are the sets of those seen so far.
  unfoldable pub check_feeds :
      List String → List String → List FeedConfig → Result ConfigError (List FeedConfig)
  unfolding is_feed_id trim member
  check_feeds ids names [] = ok []
  check_feeds ids names (feed ∷ more) = do
    bail_if (not (is_feed_id feed.id)) bad_feed_id
    bail_if (trim feed.name == "" || ltb 160 (len feed.name)) bad_feed_name
    bail_if (member feed.id ids) duplicate_feed_id
    bail_if (member (api.to_lowercase feed.name) names) duplicate_feed_name
    bail_if (is_some_and feed.timeout_seconds (λ seconds. not (leb 5 seconds && leb seconds 300)))
        bad_feed_timeout
    bail_if (is_some_and feed.retry_attempts (λ retries. ltb 10 retries)) bad_feed_retries
    bail_if (not (leb 1 feed.trust && leb feed.trust 3)) bad_feed_trust
    outbound feed.url
    validated ← check_feeds (feed.id ∷ ids) (api.to_lowercase feed.name ∷ names) more
    ok (if feed.enabled then feed ∷ validated else validated)

  unfoldable pub validate_feeds : List FeedConfig → Result ConfigError (List FeedConfig)
  unfolding check_feeds
  validate_feeds feeds = do bail_if (ltb 128 (length feeds)) too_many_feeds; check_feeds [] [] feeds

  abbrev pub from_parts : List FeedConfig → Bool × List FeedConfig → List FeedConfig
  from_parts default_feeds (include_defaults, custom) =
      if include_defaults then merge_feeds default_feeds custom else custom

  abbrev pub select_feeds : List FeedConfig → Option String → Result ConfigError (List FeedConfig)
  select_feeds default_feeds none = ok default_feeds
  select_feeds default_feeds (some text) = do
    parsed ← ok_or (api.parse_catalog text) bad_catalog
    ok (from_parts default_feeds (catalog_parts parsed))

  abbrev pub override_of :
      Files → Option String → Option String → Result ConfigError (Option String)
  override_of files (some value) path = ok (some value)
  override_of files none none = ok none
  override_of files none (some path) = do
    text ← ok_or (files path) (unreadable "SOURCE_CONFIG_PATH")
    ok (some text)

  -- `embedded` is the text of sources.default.json.
  unfoldable pub load_feeds : Files → Lookup → String → Result ConfigError (List FeedConfig)
  unfolding optional_env catalog_parts merge_feeds validate_feeds
  load_feeds files lookup embedded = do
    defaults ← ok_or (api.parse_catalog embedded) bad_catalog
    override_text ←
        override_of files (optional_env lookup "NEWS_FEEDS_JSON")
          (optional_env lookup "SOURCE_CONFIG_PATH")
    feeds ← select_feeds (catalog_parts defaults).1 override_text
    validate_feeds feeds
