-- ===== src/Config/Feeds/Laws.antt =====
-- What the feeds of an accepted configuration are.
use cyberwatch_rs.Prelude.{
  ltb, leb, ◌==◌, text_eq, length, keep, All, bail_if, is_some_and, bind-eq-ok, then-eq-ok, ok-inj,
  ok, ◌≤◌, String, len, ◌≡◌, sym, true, false, not, ◌&&◌, ◌||◌, List, [], ◌∷◌, map, arith,
}
use cyberwatch_rs.Prelude.Text.{trim}
use cyberwatch_rs.Prelude.Sets.{member}
use cyberwatch_rs.Config.{
  FeedConfig, too_many_feeds, bad_feed_id, bad_feed_name, duplicate_feed_id, duplicate_feed_name,
  bad_feed_timeout, bad_feed_retries, bad_feed_trust,
}
use cyberwatch_rs.Config.Feeds.{is_feed_id, outbound, check_feeds, validate_feeds, FeedApi}

-- No text of the list occurs twice in it, or among those seen before.
abbrev pub AllNew : List String → List String → Type 0
AllNew seen [] = Unit {0}
AllNew seen (text ∷ more) = (member text seen ≡ false) × AllNew (text ∷ seen) more

module _ ⦃api : FeedApi⦄ where
  -- What each configured feed is, whether it is enabled or not.
  pub record IsFeed (feed : FeedConfig) : Type 0 where
    pub id_pattern : is_feed_id feed.id ≡ true
    pub name_given : (trim feed.name == "") ≡ false
    pub name_short : len feed.name ≤ 160
    pub timeout_range :
        is_some_and feed.timeout_seconds (λ seconds. not (leb 5 seconds && leb seconds 300)) ≡ false
    pub retries_few : is_some_and feed.retry_attempts (λ retries. ltb 10 retries) ≡ false
    pub trust_range : (1 ≤ feed.trust) × (feed.trust ≤ 3)
    pub destination_allowed : outbound feed.url ≡ ok tt

  pub record AreFeeds (ids names : List String) (feeds valid : List FeedConfig) : Type 0 where
    pub each : All IsFeed feeds
    pub new_ids : AllNew ids (map (λ feed. feed.id) feeds)
    pub new_names : AllNew names (map (λ feed. api.to_lowercase feed.name) feeds)
    pub only_enabled : valid ≡ keep (λ feed. feed.enabled) feeds

  check_feeds-AreFeeds :
      (feeds valid : List FeedConfig) (ids names : List String)
      → check_feeds ids names feeds ≡ ok valid
      → AreFeeds ids names feeds valid
  unfolding check_feeds
  check_feeds-AreFeeds [] valid ids names h = record {
    each = tt;
    new_ids = tt;
    new_names = tt;
    only_enabled = sym (ok-inj h);
  }
  check_feeds-AreFeeds (feed ∷ more) valid ids names h =
      let (pattern_, h1) = then-eq-ok (bail_if (not (is_feed_id feed.id)) bad_feed_id) h in
      let (named, h2) =
        then-eq-ok (bail_if (trim feed.name == "" || ltb 160 (len feed.name)) bad_feed_name) h1 in
      let (new_id, h3) = then-eq-ok (bail_if (member feed.id ids) duplicate_feed_id) h2 in
      let (new_name, h4) =
        then-eq-ok (bail_if (member (api.to_lowercase feed.name) names) duplicate_feed_name) h3 in
      let (timeout, h5) =
        then-eq-ok
          (bail_if
            (is_some_and feed.timeout_seconds (λ seconds. not (leb 5 seconds && leb seconds 300)))
            bad_feed_timeout)
          h4 in
      let (retries, h6) =
        then-eq-ok (bail_if (is_some_and feed.retry_attempts (λ n. ltb 10 n)) bad_feed_retries)
          h5 in
      let (trust, h7) =
        then-eq-ok (bail_if (not (leb 1 feed.trust && leb feed.trust 3)) bad_feed_trust) h6 in
      let (url, h8) = then-eq-ok (outbound feed.url) h7 in
      let (validated, e, h9) =
        bind-eq-ok (check_feeds (feed.id ∷ ids) (api.to_lowercase feed.name ∷ names) more) _ h8 in
      let rest = check_feeds-AreFeeds more validated _ _ e in
      record {
        each = (
          record {
            id_pattern = ground arith;
            name_given = ground arith;
            name_short = ground arith;
            timeout_range = ground arith;
            retries_few = ground arith;
            trust_range = (ground arith, ground arith);
            destination_allowed = url;
          },
          rest.each,
        );
        new_ids = (ground arith, rest.new_ids);
        new_names = (ground arith, rest.new_names);
        only_enabled = rw (← rest.only_enabled) (sym (ok-inj h9));
      }

  -- Accepted feeds: at most 128 were configured, each is well formed and at an allowed destination,
  -- no two share an ID or a name, letter case aside, and the answer is the enabled ones, in order.
  pub validate_feeds-AreFeeds :
      (feeds valid : List FeedConfig)
      → validate_feeds feeds ≡ ok valid
      → (length feeds ≤ 128) × AreFeeds [] [] feeds valid
  unfolding validate_feeds
  validate_feeds-AreFeeds feeds valid h =
      let (few, h1) = then-eq-ok (bail_if (ltb 128 (length feeds)) too_many_feeds) h in
      (ground arith, check_feeds-AreFeeds feeds valid [] [] h1)
