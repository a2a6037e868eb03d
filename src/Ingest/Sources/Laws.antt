-- ===== src/Ingest/Sources/Laws.antt =====
-- The registry registers the enabled adapters in order, and their IDs do not clash.
use Prim.Native.Char.{Char, char, code}
use Prim.Native.String as Native
use text.Mathlib.TextEquality.{eq_iff}
use text.Mathlib.TextLemmas.{append_cancel_left, cons-append}
use cyberwatch_rs.Prelude.{
  ◌==◌, text_eq, Bool-cases, All, ◌>>=◌, Result, ok, err, ℕ, String, ◌≡◌, refl, sym, ap, ◌∙◌, ◌≢◌,
  inl, inr, Bool, true, false, List, [], ◌∷◌, map, arith,
}
use cyberwatch_rs.Prelude.Text.{trim, drop_last, trim_end_matches, is_whitespace}
use cyberwatch_rs.Prelude.Sets.{member}
use cyberwatch_rs.Source.Registry.{new, id_of, register_all, SourceRegistry}
use cyberwatch_rs.Source.Registry.Laws.{NoRepeat, Named}
use cyberwatch_rs.Config.{Config, FeedConfig, source_enabled}
use cyberwatch_rs.Ingest.Sources.{
  describe, adapters_of, register_if, feed_adapter, feed_source_id, register_feeds, build_registry,
  Adapter, nvd, cisa_kev, github_advisories,
}

-- The adapter, if the configuration does not disable its ID.
abbrev pub if_enabled : Bool → Adapter → List Adapter → List Adapter
if_enabled true adapter rest = adapter ∷ rest
if_enabled false adapter rest = rest

abbrev pub enabled_feeds : Config → List FeedConfig → List Adapter
enabled_feeds config [] = []
enabled_feeds config (feed ∷ more) =
    if_enabled (source_enabled config (feed_source_id feed)) (feed_adapter config feed)
      (enabled_feeds config more)

abbrev pub enabled_adapters : Config → List Adapter
enabled_adapters config = if_enabled (source_enabled config "nvd") nvd (
    if_enabled (source_enabled config "cisa-kev") cisa_kev (
      if_enabled (source_enabled config "github-advisories") github_advisories
        (enabled_feeds config config.feeds)))

register_if-register_all :
    (enabled : Bool) (registry : SourceRegistry Adapter) (adapter : Adapter) (rest : List Adapter)
    → (register_if enabled registry adapter >>= λ next. register_all next rest)
      ≡ register_all registry (if_enabled enabled adapter rest)
unfolding register_if register_all
register_if-register_all true registry adapter rest = refl
register_if-register_all false registry adapter rest = refl

bind-cong :
    {E A B : Type 0} (m : Result E A) {f g : A → Result E B}
    → ((a : A) → f a ≡ g a)
    → (m >>= f) ≡ (m >>= g)
bind-cong (ok a) h = h a
bind-cong (err e) h = refl

register_feeds-register_all :
    (config : Config) (feeds : List FeedConfig) (registry : SourceRegistry Adapter)
    → register_feeds config registry feeds ≡ register_all registry (enabled_feeds config feeds)
unfolding register_feeds register_all
register_feeds-register_all config [] registry = refl
register_feeds-register_all config (feed ∷ more) registry =
    bind-cong
      (register_if (source_enabled config (feed_source_id feed)) registry
        (feed_adapter config feed))
      (λ next. register_feeds-register_all config more next)
    ∙ register_if-register_all (source_enabled config (feed_source_id feed)) registry
        (feed_adapter config feed) (enabled_feeds config more)

pub build_registry-register_all :
    (config : Config) → build_registry config ≡ register_all new (enabled_adapters config)
unfolding build_registry
build_registry-register_all config =
    let kev = source_enabled config "cisa-kev" in
    let github = source_enabled config "github-advisories" in
    let feeds = enabled_feeds config config.feeds in
    bind-cong (register_if (source_enabled config "nvd") new nvd) (λ one.
      bind-cong (register_if kev one cisa_kev) (λ two.
        bind-cong (register_if github two github_advisories)
          (λ three. register_feeds-register_all config config.feeds three)
        ∙ register_if-register_all github two github_advisories feeds)
      ∙ register_if-register_all kev one cisa_kev (if_enabled github github_advisories feeds))
    ∙ register_if-register_all (source_enabled config "nvd") new nvd _

feed-differs : (id name : String) → Native.◌++◌ "feed-" id ≡ Native.◌++◌ "feed-" name → id ≡ name
feed-differs id name h = append_cancel_left "feed-" id name h

feed-apart :
    (id name : String)
    → (id == name) ≡ false
    → (Native.◌++◌ "feed-" id == Native.◌++◌ "feed-" name) ≡ false
feed-apart id name h = ground (
  arith,
  eq_iff (Native.◌++◌ "feed-" id) (Native.◌++◌ "feed-" name),
  eq_iff id name,
  feed-differs id name,
)

feed_id-fresh :
    (config : Config) (id : String) (feeds : List FeedConfig)
    → member id (map (λ feed. feed.id) feeds) ≡ false
    → member (Native.◌++◌ "feed-" id) (map id_of (enabled_feeds config feeds)) ≡ false
unfolding member describe
feed_id-fresh config id [] h = refl
feed_id-fresh config id (feed ∷ more) h =
    elim (Bool-cases (source_enabled config (feed_source_id feed))) [
      | inl on ↦
          rw (on, feed-apart feed.id id (ground arith))
            (feed_id-fresh config id more (ground arith))
      | inr off ↦ rw off (feed_id-fresh config id more (ground arith))
    ]

pub builtin-fresh :
    (config : Config) (id : String) (feeds : List FeedConfig)
    → ((text : String) → (Native.◌++◌ "feed-" text == id) ≡ false)
    → member id (map id_of (enabled_feeds config feeds)) ≡ false
unfolding member describe
builtin-fresh config id [] differs = refl
builtin-fresh config id (feed ∷ more) differs =
    elim (Bool-cases (source_enabled config (feed_source_id feed))) [
      | inl on ↦ rw (on, differs feed.id) (builtin-fresh config id more differs)
      | inr off ↦ rw off (builtin-fresh config id more differs)
    ]

-- The number of a text's first character.
unfoldable pub first_code : String → ℕ
first_code Native.[] = 0
first_code (Native.◌∷◌ c s) = code c

pub letter_f : Char
letter_f = char 102 tt

feed-cons :
    (text : String) → Native.◌++◌ "feed-" text ≡ Native.◌∷◌ letter_f (Native.◌++◌ "eed-" text)
unfolding letter_f
feed-cons text = cons-append (char 102 tt) "eed-" text

-- A feed's source ID is no text that begins otherwise.
pub feed-other : (text id : String) → first_code id ≢ 102 → (Native.◌++◌ "feed-" text == id) ≡ false
unfolding first_code letter_f
feed-other text id h = elim (Bool-cases (Native.◌++◌ "feed-" text == id)) [
  | inl same ↦
      let e : Native.◌++◌ "feed-" text ≡ id = (eq_iff (Native.◌++◌ "feed-" text) id).0 same in
      absurd (h (ap first_code (sym e ∙ feed-cons text)))
  | inr other ↦ other
]

first_code-drop_last :
    (p : Char → Bool) (c : Char) (s : String) → p c ≡ false → first_code (drop_last p c s) ≡ code c
unfolding first_code
first_code-drop_last p c Native.[] h = rw h refl
first_code-drop_last p c (Native.◌∷◌ d s) h = refl

first_code-trim : (s : String) → first_code (trim (Native.◌∷◌ letter_f s)) ≡ 102
unfolding trim letter_f
first_code-trim s =
    first_code-drop_last is_whitespace (char 102 tt) (trim_end_matches is_whitespace s) refl

feed-named : (text : String) → (trim (Native.◌++◌ "feed-" text) == "") ≡ false
unfolding first_code
feed-named text = elim (Bool-cases (trim (Native.◌++◌ "feed-" text) == "")) [
  | inl blank ↦
      let e : trim (Native.◌++◌ "feed-" text) ≡ "" =
        (eq_iff (trim (Native.◌++◌ "feed-" text)) "").0 blank in
      absurd (
        omega (
          arith,
          ap first_code e,
          first_code-trim (Native.◌++◌ "eed-" text),
          ap first_code (ap trim (feed-cons text)),
        ))
  | inr given ↦ given
]

pub enabled_feeds-Named :
    (config : Config) (feeds : List FeedConfig) → All Named (enabled_feeds config feeds)
unfolding describe
enabled_feeds-Named config [] = tt
enabled_feeds-Named config (feed ∷ more) =
    elim (Bool-cases (source_enabled config (feed_source_id feed))) [
      | inl on ↦ rw on (feed-named feed.id, enabled_feeds-Named config more)
      | inr off ↦ rw off (enabled_feeds-Named config more)
    ]

pub enabled_feeds-NoRepeat :
    (config : Config) (feeds : List FeedConfig)
    → NoRepeat (map (λ feed. feed.id) feeds)
    → NoRepeat (map id_of (enabled_feeds config feeds))
unfolding describe
enabled_feeds-NoRepeat config [] h = tt
enabled_feeds-NoRepeat config (feed ∷ more) (h, hs) =
    elim (Bool-cases (source_enabled config (feed_source_id feed))) [
      | inl on ↦ rw on (feed_id-fresh config feed.id more h, enabled_feeds-NoRepeat config more hs)
      | inr off ↦ rw off (enabled_feeds-NoRepeat config more hs)
    ]

pub if_enabled-NoRepeat :
    (b : Bool) (adapter : Adapter) (rest : List Adapter)
    → member (id_of adapter) (map id_of rest) ≡ false
    → NoRepeat (map id_of rest)
    → NoRepeat (map id_of (if_enabled b adapter rest))
if_enabled-NoRepeat true adapter rest h k = (h, k)
if_enabled-NoRepeat false adapter rest h k = k

pub if_enabled-Named :
    (b : Bool) (adapter : Adapter) (rest : List Adapter)
    → Named adapter
    → All Named rest
    → All Named (if_enabled b adapter rest)
if_enabled-Named true adapter rest h k = (h, k)
if_enabled-Named false adapter rest h k = k

pub member-if_enabled :
    (id : String) (b : Bool) (adapter : Adapter) (rest : List Adapter)
    → (id_of adapter == id) ≡ false
    → member id (map id_of rest) ≡ false
    → member id (map id_of (if_enabled b adapter rest)) ≡ false
unfolding member
member-if_enabled id true adapter rest h k = rw (h, k) refl
member-if_enabled id false adapter rest h k = k
