-- ===== src/Config/Feeds/Order.antt =====
-- The merged feeds lie in the order of their IDs, as the entries of a `BTreeMap` do.
use mathlib.Core.Path.{subst⁻¹}
use cyberwatch_rs.Prelude.{All, ◌≡◌, inl, inr, Bool, true, List, [], ◌∷◌, arith}
use cyberwatch_rs.Prelude.Order.{
  text_lt, text_lt_trans, text_lt-cases, compare-lt, compare-same, compare-gt,
}
use cyberwatch_rs.Prelude.Sort.{IsSorted, All-before}
use cyberwatch_rs.Config.{FeedConfig}
use cyberwatch_rs.Config.Feeds.{insert_feed, insert_feeds}

abbrev pub before : FeedConfig → FeedConfig → Bool
before feed other = text_lt feed.id other.id

-- What an insertion does at the first of the feeds.
module _ (feed other : FeedConfig) (more : List FeedConfig) where
  insert_same : feed.id ≡ other.id → insert_feed feed (other ∷ more) ≡ feed ∷ more
  unfolding insert_feed
  insert_same h = ground (arith, compare-same feed.id other.id h)

  insert_less : before feed other ≡ true → insert_feed feed (other ∷ more) ≡ feed ∷ other ∷ more
  unfolding insert_feed
  insert_less h = ground (arith, compare-lt feed.id other.id h)

  insert_greater :
      before other feed ≡ true → insert_feed feed (other ∷ more) ≡ other ∷ insert_feed feed more
  unfolding insert_feed
  insert_greater h = ground (arith, compare-gt feed.id other.id h)

All-insert_feed {κ} :
    (P : FeedConfig → Type κ) (feed : FeedConfig) (rest : List FeedConfig)
    → P feed
    → All P rest
    → All P (insert_feed feed rest)
unfolding insert_feed
All-insert_feed P feed [] h a = (h, tt)
All-insert_feed P feed (other ∷ more) h a = elim (text_lt-cases feed.id other.id) [
  | inl same ↦ subst⁻¹ (All P) (insert_same feed other more same) (h, a.1)
  | inr (inl less) ↦ subst⁻¹ (All P) (insert_less feed other more less) (h, a)
  | inr (inr greater) ↦
      subst⁻¹ (All P) (insert_greater feed other more greater)
        (a.0, All-insert_feed P feed more h a.1)
]

insert_feed-IsSorted :
    (feed : FeedConfig) (merged : List FeedConfig)
    → IsSorted before merged
    → IsSorted before (insert_feed feed merged)
unfolding insert_feed
insert_feed-IsSorted feed [] s = (tt, tt)
insert_feed-IsSorted feed (other ∷ more) s = elim (text_lt-cases feed.id other.id) [
  | inl same ↦
      subst⁻¹ (IsSorted before) (insert_same feed other more same)
        (subst⁻¹ (λ id. All (λ next. text_lt id next.id ≡ true) more) same s.0, s.1)
  | inr (inl less) ↦ subst⁻¹ (IsSorted before) (insert_less feed other more less) (
    (less, All-before before (λ a b c. text_lt_trans a.id b.id c.id) feed other more less s.0),
    s,
  )
  | inr (inr greater) ↦ subst⁻¹ (IsSorted before) (insert_greater feed other more greater) (
    All-insert_feed (λ next. before other next ≡ true) feed more greater s.0,
    insert_feed-IsSorted feed more s.1,
  )
]

pub insert_feeds-IsSorted :
    (feeds merged : List FeedConfig)
    → IsSorted before merged
    → IsSorted before (insert_feeds merged feeds)
unfolding insert_feeds
insert_feeds-IsSorted [] merged s = s
insert_feeds-IsSorted (feed ∷ more) merged s =
    insert_feeds-IsSorted more (insert_feed feed merged) (insert_feed-IsSorted feed merged s)
