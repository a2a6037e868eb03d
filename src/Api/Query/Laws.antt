-- ===== src/Api/Query/Laws.antt =====
-- What a filter that the interface hands to the database is bounded by.
use text.Mathlib.TextEquality.{eq_iff}
use cyberwatch_rs.Prelude.{
  ltb, leb, bail_if, unwrap_or, bind-eq-ok, then-eq-ok, ok-inj, ok, ℕ, ◌≤◌, String, len, ◌≡◌, refl,
  ◌≢◌, true, not, ◌&&◌, Option, none, some, List, arith,
}
use cyberwatch_rs.Models.{PageCursor}
use cyberwatch_rs.Api.Query.{
  listed, validate_enum, validate_length, kinds, severities, confidences, decode_cursor,
  decode_optional, validate_item_query, ItemQuery, ItemFilter, CursorCodec,
}

-- Absent, or with a text that has the property.
abbrev pub IfGiven : (String → Type 0) → Option String → Type 0
IfGiven P none = Unit {0}
IfGiven P (some text) = P text

abbrev pub Sized : ℕ → String → Type 0
Sized maximum text = (text ≢ "") × (len text ≤ maximum)

abbrev pub CursorBound : Option PageCursor → Type 0
CursorBound none = Unit {0}
CursorBound (some cursor) = Sized 240 cursor.id

pub record IsBounded (filter : ItemFilter) : Type 0 where
  pub kind_listed : IfGiven (λ text. listed text kinds ≡ true) filter.kind
  pub severity_listed : IfGiven (λ text. listed text severities ≡ true) filter.severity
  pub confidence_listed : IfGiven (λ text. listed text confidences ≡ true) filter.confidence
  pub category_sized : IfGiven (Sized 80) filter.category
  pub source_sized : IfGiven (Sized 120) filter.source
  pub region_sized : IfGiven (Sized 120) filter.region
  pub query_sized : IfGiven (Sized 240) filter.query
  pub limit_bounds : (1 ≤ filter.limit) × (filter.limit ≤ 200)
  pub offset_bound : filter.offset ≤ 10000
  pub cursor_bound : CursorBound filter.cursor

enum-ok :
    (name : String) (value : Option String) (allowed : List String)
    → validate_enum name value allowed ≡ ok tt
    → IfGiven (λ text. listed text allowed ≡ true) value
unfolding validate_enum
enum-ok name none allowed h = tt
enum-ok name (some text) allowed h = ground arith

length-ok :
    (name : String) (value : Option String) (maximum : ℕ)
    → validate_length name value maximum ≡ ok tt
    → IfGiven (Sized maximum) value
unfolding validate_length
length-ok name none maximum h = tt
length-ok name (some text) maximum h = (ground (arith, eq_iff text ""), ground arith)

-- The filter with the fields of a query.
abbrev pub filter_of : ItemQuery → Option PageCursor → ItemFilter
filter_of query cursor = record {
  kind = query.kind;
  category = query.category;
  severity = query.severity;
  confidence = query.confidence;
  source = query.source;
  region = query.region;
  query = query.q;
  exploited = query.exploited;
  limit = unwrap_or query.limit 50;
  offset = unwrap_or query.offset 0;
  cursor = cursor;
}

module _ ⦃codec : CursorCodec⦄ where
  decode_cursor-ok :
      (value : String) (cursor : PageCursor) → decode_cursor value ≡ ok cursor → Sized 240 cursor.id
  unfolding decode_cursor
  decode_cursor-ok value cursor h = (ground (arith, eq_iff cursor.id ""), ground arith)

  decode_optional-ok :
      (value : Option String) (cursor : Option PageCursor)
      → decode_optional value ≡ ok cursor
      → CursorBound cursor
  unfolding decode_optional
  decode_optional-ok none none h = tt
  decode_optional-ok none (some cursor) h = cc
  decode_optional-ok (some value) none h = tt
  decode_optional-ok (some value) (some cursor) h = decode_cursor-ok value cursor (ground arith)

  -- A query that passes the checks becomes a filter with the query's own fields (50 items from
  -- offset 0 unless it says otherwise), within all of the bounds.
  pub validate_item_query-IsBounded :
      (query : ItemQuery) (filter : ItemFilter)
      → validate_item_query query ≡ ok filter
      → (filter ≡ filter_of query filter.cursor) × IsBounded filter
  unfolding validate_item_query
  validate_item_query-IsBounded query filter h =
      let (kind, h1) = then-eq-ok (validate_enum "kind" query.kind kinds) h in
      let (severity, h2) = then-eq-ok (validate_enum "severity" query.severity severities) h1 in
      let (confidence, h3) =
        then-eq-ok (validate_enum "confidence" query.confidence confidences) h2 in
      let (category, h4) = then-eq-ok (validate_length "category" query.category 80) h3 in
      let (source, h5) = then-eq-ok (validate_length "source" query.source 120) h4 in
      let (region, h6) = then-eq-ok (validate_length "region" query.region 120) h5 in
      let (q, h7) = then-eq-ok (validate_length "q" query.q 240) h6 in
      let (limit, h8) =
        then-eq-ok
          (bail_if (not (leb 1 (unwrap_or query.limit 50) && leb (unwrap_or query.limit 50) 200)) _)
          h7 in
      let (offset, h9) = then-eq-ok (bail_if (ltb 10000 (unwrap_or query.offset 0)) _) h8 in
      let (cursor, decoded, h10) = bind-eq-ok (decode_optional query.cursor) _ h9 in
      let built : filter_of query cursor ≡ filter = ok-inj h10 in
      rw (← built) (
        refl,
        record {
          kind_listed = enum-ok "kind" query.kind kinds kind;
          severity_listed = enum-ok "severity" query.severity severities severity;
          confidence_listed = enum-ok "confidence" query.confidence confidences confidence;
          category_sized = length-ok "category" query.category 80 category;
          source_sized = length-ok "source" query.source 120 source;
          region_sized = length-ok "region" query.region 120 region;
          query_sized = length-ok "q" query.q 240 q;
          limit_bounds = (ground arith, ground arith);
          offset_bound = ground arith;
          cursor_bound = decode_optional-ok query.cursor cursor decoded;
        },
      )
