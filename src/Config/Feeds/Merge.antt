-- ===== src/Config/Feeds/Merge.antt =====
-- What merging the feeds comes to: under each ID stands the last feed that was given.
use text.Mathlib.TextEquality.{eq_iff, path_by_compare}
use cyberwatch_rs.Prelude.{
  ◌==◌, text_eq, if◌then◌else◌, find, String, ◌≡◌, refl, Option, none, some, List, [], ◌∷◌, ◌++◌,
  arith,
}
use cyberwatch_rs.Config.{FeedConfig}
use cyberwatch_rs.Prelude.Sort.{IsSorted}
use cyberwatch_rs.Config.Feeds.Order.{before, insert_feeds-IsSorted}
use cyberwatch_rs.Config.Feeds.{insert_feed, insert_feeds, merge_feeds}

-- The feed of a list with an ID: the first one.
abbrev pub feed_by : String → List FeedConfig → Option FeedConfig
feed_by id feeds = find (λ feed. feed.id == id) feeds

-- The last one.
abbrev pub last_by : String → List FeedConfig → Option FeedConfig
last_by id [] = none
last_by id (feed ∷ more) = elim (last_by id more) [
  | some later ↦ some later
  | none ↦ if feed.id == id then some feed else none
]

feed_by-insert :
    (id : String) (feed : FeedConfig) (merged : List FeedConfig)
    → feed_by id (insert_feed feed merged)
      ≡ (if feed.id == id then some feed else feed_by id merged)
unfolding insert_feed
feed_by-insert id feed [] = refl
feed_by-insert id feed (other ∷ more) = ground (
  arith,
  feed_by-insert id feed more,
  path_by_compare feed.id other.id,
  eq_iff feed.id id,
  eq_iff other.id id,
)

abbrev pub or_last : Option FeedConfig → Option FeedConfig → Option FeedConfig
or_last (some later) earlier = some later
or_last none earlier = earlier

feed_by-insert_feeds :
    (id : String) (feeds merged : List FeedConfig)
    → feed_by id (insert_feeds merged feeds) ≡ or_last (last_by id feeds) (feed_by id merged)
unfolding insert_feeds
feed_by-insert_feeds id [] merged = refl
feed_by-insert_feeds id (feed ∷ more) merged =
    ground
      (arith, feed_by-insert_feeds id more (insert_feed feed merged), feed_by-insert id feed merged)

last_by-append :
    (id : String) (xs ys : List FeedConfig)
    → last_by id (xs ++ ys) ≡ or_last (last_by id ys) (last_by id xs)
last_by-append id [] ys = ground arith
last_by-append id (feed ∷ xs) ys = ground (arith, last_by-append id xs ys)

-- The merged feeds have different IDs and lie in the order of these. Under each ID stands the last
-- override with that ID, or where there is none the last default with it, and nothing stands under an
-- ID that neither has.
pub feed_by-merge_feeds :
    (id : String) (defaults overrides : List FeedConfig)
    → IsSorted before (merge_feeds defaults overrides)
      × (feed_by id (merge_feeds defaults overrides)
          ≡ or_last (last_by id overrides) (last_by id defaults))
unfolding merge_feeds
feed_by-merge_feeds id defaults overrides = (
  insert_feeds-IsSorted (defaults ++ overrides) [] tt,
  ground (
    arith,
    feed_by-insert_feeds id (defaults ++ overrides) [],
    last_by-append id defaults overrides,
  ),
)
