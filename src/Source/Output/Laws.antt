-- ===== src/Source/Output/Laws.antt =====
-- What the check of an output lets through.
use text.Mathlib.TextEquality.{eq_iff}
use cyberwatch_rs.Prelude.{
  ◌==◌, text_eq, All, bail_if, ok_or, bind-eq-ok, then-eq-ok, ok_or-eq-ok, ok, String, ◌≡◌, refl,
  ◌↔◌, ◌⊎◌, inl, inr, true, false, not, ◌&&◌, some, List, [], ◌∷◌, arith,
}
use cyberwatch_rs.Prelude.Float.{Float}
use cyberwatch_rs.Prelude.Sets.{member}
use cyberwatch_rs.Models.{ItemInput, EvidenceInput, SourceDescriptor}
use cyberwatch_rs.Http.Url.{UrlCrate, is_http}
use cyberwatch_rs.Api.CveId.{is_cve_id}
use cyberwatch_rs.Source.Output.{
  bad_text, is_kind, off_scale, validate_evidence, validate_items, validate, SourceOutput,
  invalid_item_id, invalid_kind, mismatched_source, invalid_title, invalid_url, not_http_url,
  invalid_score, duplicate_news, invalid_cve,
}

same_text : {a b : String} → a ≡ b → (a == b) ≡ true
same_text {a = a} {b = b} h = ground (arith, eq_iff a b)

kind_complete : {kind : String} → (kind ≡ "news") ⊎ (kind ≡ "cve") → is_kind kind ≡ true
kind_complete (inl h) = rw h refl
kind_complete (inr h) = rw h refl

module _ {F : Type 0} ⦃float : Float F⦄ (descriptor : SourceDescriptor) where
  pub record IsEvidence (evidence : EvidenceInput F) : Type 0 where
    pub cve : is_cve_id evidence.cve_id ≡ true
    pub own_source : evidence.source_id ≡ descriptor.id
    pub score : off_scale evidence.cvss_score ≡ false

  validate_evidence-IsEvidence :
      (es : List (EvidenceInput F)) → validate_evidence descriptor es ≡ ok tt → All IsEvidence es
  unfolding validate_evidence
  validate_evidence-IsEvidence [] h = tt
  validate_evidence-IsEvidence (e ∷ es) h =
      let (cve, h1) = then-eq-ok (bail_if (not (is_cve_id e.cve_id)) invalid_cve) h in
      let (own, h2) =
        then-eq-ok (bail_if (not (e.source_id == descriptor.id)) mismatched_source) h1 in
      let (score, h3) = then-eq-ok (bail_if (off_scale e.cvss_score) invalid_score) h2 in
      (
        record {
          cve = ground arith;
          own_source = ground (arith, eq_iff e.source_id descriptor.id);
          score = ground arith;
        },
        validate_evidence-IsEvidence es h3,
      )

  IsEvidence-validate_evidence :
      (es : List (EvidenceInput F)) → All IsEvidence es → validate_evidence descriptor es ≡ ok tt
  unfolding validate_evidence
  IsEvidence-validate_evidence [] h = refl
  IsEvidence-validate_evidence (e ∷ es) (h, hs) =
      rw (h.cve, same_text h.own_source, h.score) (IsEvidence-validate_evidence es hs)

module _ {F : Type 0} ⦃float : Float F⦄ ⦃url_crate : UrlCrate⦄ (descriptor : SourceDescriptor) where
  pub record IsItem (item : ItemInput F) : Type 0 where
    pub own_id : bad_text 240 item.id ≡ false
    pub listed_kind : (item.kind ≡ "news") ⊎ (item.kind ≡ "cve")
    pub own_source : item.source_id ≡ descriptor.id
    pub own_title : bad_text 1000 item.title ≡ false
    pub url : url_crate.Url
    pub parsed : url_crate.urls.parse item.url ≡ some url
    pub over_http : is_http (url_crate.urls.scheme url) ≡ true
    pub score : off_scale item.cvss_score ≡ false

  -- No news item repeats the ID of an item before it.
  abbrev pub NoRepeatedNews : List String → List (ItemInput F) → Type 0
  NoRepeatedNews ids [] = Unit {0}
  NoRepeatedNews ids (item ∷ more) =
      (item.kind ≡ "news" → member item.id ids ≡ false) × NoRepeatedNews (item.id ∷ ids) more

  items_sound :
      (ids : List String) (items : List (ItemInput F))
      → validate_items descriptor ids items ≡ ok tt
      → All IsItem items × NoRepeatedNews ids items
  unfolding validate_items
  items_sound ids [] h = (tt, tt)
  items_sound ids (item ∷ more) h =
      let (id, h1) = then-eq-ok (bail_if (bad_text 240 item.id) invalid_item_id) h in
      let (kind, h2) = then-eq-ok (bail_if (not (is_kind item.kind)) invalid_kind) h1 in
      let (own, h3) =
        then-eq-ok (bail_if (not (item.source_id == descriptor.id)) mismatched_source) h2 in
      let (title, h4) = then-eq-ok (bail_if (bad_text 1000 item.title) invalid_title) h3 in
      let (url, parsed, h5) = bind-eq-ok (ok_or (url_crate.urls.parse item.url) invalid_url) _ h4 in
      let (http, h6) =
        then-eq-ok (bail_if (not (is_http (url_crate.urls.scheme url))) not_http_url) h5 in
      let (score, h7) = then-eq-ok (bail_if (off_scale item.cvss_score) invalid_score) h6 in
      let (news, h8) =
        then-eq-ok (bail_if (member item.id ids && item.kind == "news") duplicate_news) h7 in
      let (items, repeats) = items_sound (item.id ∷ ids) more h8 in
      (
        (
          record {
            own_id = ground arith;
            listed_kind = ground (arith, eq_iff item.kind "news", eq_iff item.kind "cve");
            own_source = ground (arith, eq_iff item.source_id descriptor.id);
            own_title = ground arith;
            url = url;
            parsed = ok_or-eq-ok (url_crate.urls.parse item.url) _ parsed;
            over_http = ground arith;
            score = ground arith;
          },
          items,
        ),
        (ground (arith, eq_iff item.kind "news"), repeats),
      )

  news_complete :
      (item : ItemInput F) (ids : List String)
      → (item.kind ≡ "news" → member item.id ids ≡ false)
      → (member item.id ids && item.kind == "news") ≡ false
  news_complete item ids h = ground (arith, eq_iff item.kind "news")

  items_complete :
      (ids : List String) (items : List (ItemInput F))
      → All IsItem items
      → NoRepeatedNews ids items
      → validate_items descriptor ids items ≡ ok tt
  unfolding validate_items
  items_complete ids [] h r = refl
  items_complete ids (item ∷ more) (h, hs) (r, rs) =
      rw
        (
          h.own_id,
          kind_complete h.listed_kind,
          same_text h.own_source,
          h.own_title,
          h.parsed,
          h.over_http,
          h.score,
          news_complete item ids r,
        )
        (items_complete (item.id ∷ ids) more hs rs)

  -- What an output is that passes, without the order of the checks.
  pub record IsSourceOutput (output : SourceOutput F) : Type 0 where
    pub items : All IsItem output.batch.items
    pub no_repeated_news : NoRepeatedNews [] output.batch.items
    pub evidence : All (IsEvidence descriptor) output.batch.evidence

  -- An output passes its check exactly when every item is well formed and the source's own, no news
  -- item repeats an ID that came before, and every piece of evidence names a CVE and is the source's
  -- own.
  pub validate_iff :
      (output : SourceOutput F) → (validate descriptor output ≡ ok tt) ↔ IsSourceOutput output
  unfolding validate
  validate_iff output = (
    (λ h.
        let (h0, h1) = then-eq-ok (validate_items descriptor [] output.batch.items) h in
        let (items, news) = items_sound [] output.batch.items h0 in
        record {
          items = items;
          no_repeated_news = news;
          evidence = validate_evidence-IsEvidence descriptor output.batch.evidence h1;
        }),
    (λ o.
        rw (items_complete [] output.batch.items o.items o.no_repeated_news)
          (IsEvidence-validate_evidence descriptor output.batch.evidence o.evidence)),
  )
