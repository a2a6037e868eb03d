-- ===== src/Ingest/Sources/Accepted.antt =====
-- An accepted configuration always has a registry: its enabled sources, in order.
use text.Mathlib.TextEquality.{eq_iff}
use cyberwatch_rs.Prelude.{
  Bool-cases, keep, All, ok, String, ◌≡◌, refl, inl, inr, Bool, true, false, Option, List, [], ◌∷◌,
  map, arith,
}
use cyberwatch_rs.Prelude.Text.{trim}
use cyberwatch_rs.Prelude.Sets.{member}
use cyberwatch_rs.Source.Registry.{id_of, SourceRegistry}
use cyberwatch_rs.Source.Registry.Laws.{NoRepeat, Named, register_all_iff}
use cyberwatch_rs.Config.{Config, FeedConfig, SocketAddr, source_enabled}
use cyberwatch_rs.Config.Env.{Lookup, Files}
use cyberwatch_rs.Config.Feeds.{FeedApi}
use cyberwatch_rs.Config.Feeds.Laws.{AllNew}
use cyberwatch_rs.Config.Load.{from_lookup}
use cyberwatch_rs.Config.Load.Laws.{from_lookup-IsSafeConfig}
use cyberwatch_rs.Ingest.Sources.{
  describe, adapters_of, build_registry, Adapter, nvd, cisa_kev, github_advisories,
}
use cyberwatch_rs.Ingest.Sources.Laws.{
  if_enabled, enabled_feeds, enabled_adapters, build_registry-register_all, builtin-fresh,
  first_code, feed-other, enabled_feeds-Named, enabled_feeds-NoRepeat, if_enabled-NoRepeat,
  if_enabled-Named, member-if_enabled,
}

kev-fresh :
    (config : Config) → member "cisa-kev" (map id_of (enabled_feeds config config.feeds)) ≡ false
unfolding first_code
kev-fresh config =
    builtin-fresh config "cisa-kev" config.feeds (λ text. feed-other text "cisa-kev" (ground arith))

github-fresh :
    (config : Config)
    → member "github-advisories" (map id_of (enabled_feeds config config.feeds)) ≡ false
unfolding first_code
github-fresh config =
    builtin-fresh config "github-advisories" config.feeds
      (λ text. feed-other text "github-advisories" (ground arith))

nvd-fresh : (config : Config) → member "nvd" (map id_of (enabled_feeds config config.feeds)) ≡ false
unfolding first_code
nvd-fresh config =
    builtin-fresh config "nvd" config.feeds (λ text. feed-other text "nvd" (ground arith))

enabled_adapters-NoRepeat :
    (config : Config)
    → NoRepeat (map (λ feed. feed.id) config.feeds)
    → NoRepeat (map id_of (enabled_adapters config))
unfolding describe
enabled_adapters-NoRepeat config h =
    let feeds = enabled_feeds config config.feeds in
    let github = source_enabled config "github-advisories" in
    let kev = source_enabled config "cisa-kev" in
    let last = if_enabled github github_advisories feeds in
    if_enabled-NoRepeat (source_enabled config "nvd") nvd (if_enabled kev cisa_kev last)
      (member-if_enabled "nvd" kev cisa_kev last refl
        (member-if_enabled "nvd" github github_advisories feeds refl (nvd-fresh config)))
      (if_enabled-NoRepeat kev cisa_kev last
        (member-if_enabled "cisa-kev" github github_advisories feeds refl (kev-fresh config))
        (if_enabled-NoRepeat github github_advisories feeds (github-fresh config)
          (enabled_feeds-NoRepeat config config.feeds h)))

enabled_adapters-Named : (config : Config) → All Named (enabled_adapters config)
unfolding describe trim
enabled_adapters-Named config =
    let feeds = enabled_feeds config config.feeds in
    let last = if_enabled (source_enabled config "github-advisories") github_advisories feeds in
    if_enabled-Named _ nvd (if_enabled (source_enabled config "cisa-kev") cisa_kev last) refl (
      if_enabled-Named _ cisa_kev last refl
        (if_enabled-Named _ github_advisories feeds refl (enabled_feeds-Named config config.feeds)))

-- What the feeds of an accepted configuration have: new IDs are distinct IDs.
AllNew-apart :
    (seen texts : List String) (text : String)
    → AllNew seen texts
    → member text texts ≡ true
    → member text seen ≡ false
unfolding member
AllNew-apart seen [] text h k = cc
AllNew-apart seen (other ∷ more) text (h, hs) k =
    ground (arith, AllNew-apart (other ∷ seen) more text, eq_iff other text)

AllNew-NoRepeat : (seen texts : List String) → AllNew seen texts → NoRepeat texts
unfolding member
AllNew-NoRepeat seen [] h = tt
AllNew-NoRepeat seen (text ∷ more) (h, hs) = (
  ground (arith, AllNew-apart (text ∷ seen) more text hs, eq_iff text text),
  AllNew-NoRepeat (text ∷ seen) more hs,
)

member-keep :
    (p : FeedConfig → Bool) (id : String) (feeds : List FeedConfig)
    → member id (map (λ feed. feed.id) feeds) ≡ false
    → member id (map (λ feed. feed.id) (keep p feeds)) ≡ false
unfolding member
member-keep p id [] h = refl
member-keep p id (feed ∷ more) h = elim (Bool-cases (p feed)) [
  | inl on ↦ rw on (ground (arith, member-keep p id more))
  | inr off ↦ rw off (member-keep p id more (ground arith))
]

keep-NoRepeat :
    (p : FeedConfig → Bool) (feeds : List FeedConfig)
    → NoRepeat (map (λ feed. feed.id) feeds)
    → NoRepeat (map (λ feed. feed.id) (keep p feeds))
keep-NoRepeat p [] h = tt
keep-NoRepeat p (feed ∷ more) (h, hs) = elim (Bool-cases (p feed)) [
  | inl on ↦ rw on (member-keep p feed.id more h, keep-NoRepeat p more hs)
  | inr off ↦ rw off (keep-NoRepeat p more hs)
]

module _ ⦃api : FeedApi⦄ (parse_socket : String → Option SocketAddr) (files : Files)
    (lookup : Lookup) (embedded : String) where
  -- From every configuration that is accepted, the registry is built without an error, and holds the
  -- adapters that are not disabled: the three built-in ones, then the enabled feeds, in order.
  pub build_registry_total :
      (config : Config)
      → from_lookup parse_socket files lookup embedded ≡ ok config
      → (registry : SourceRegistry Adapter) × (build_registry config ≡ ok registry)
        × (registry.adapters ≡ enabled_adapters config)
  build_registry_total config h =
      let safe = from_lookup-IsSafeConfig parse_socket files lookup embedded config h in
      let valid = safe.feeds_valid in
      let distinct_ids : NoRepeat (map (λ feed. feed.id) config.feeds) = rw valid.only_enabled (
        keep-NoRepeat (λ feed. feed.enabled) safe.configured
          (AllNew-NoRepeat [] _ valid.new_ids)) in
      rw (build_registry-register_all config) (
        (register_all_iff (enabled_adapters config)).1
          (enabled_adapters-Named config, enabled_adapters-NoRepeat config distinct_ids))
