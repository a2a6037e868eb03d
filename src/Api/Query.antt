-- ===== src/Api/Query.antt =====
-- `ItemQuery`, `validate_item_query` and `decode_cursor` of src/api.rs, and `ItemFilter` of
-- src/db.rs.
pub mod Laws
use Prim.Native.String.{◌++◌}
use cyberwatch_rs.Prelude.{
  ltb, leb, ◌==◌, text_eq, any, ◌>>=◌, ◌>>◌, bail_if, ok_or, is_some_and, unwrap_or, Result, ok, ℕ,
  String, len, Bool, not, ◌&&◌, ◌||◌, Option, none, some, List, [], ◌∷◌,
}
use cyberwatch_rs.Models.{PageCursor}
use cyberwatch_rs.Api.Error.{bad_request, ApiError}

-- `ItemQuery` of src/api.rs
pub record ItemQuery : Type 0 where
  pub kind : Option String
  pub category : Option String
  pub severity : Option String
  pub confidence : Option String
  pub source : Option String
  pub region : Option String
  pub q : Option String
  pub exploited : Option Bool
  pub limit : Option ℕ
  pub offset : Option ℕ
  pub cursor : Option String

-- `ItemFilter` of src/db.rs
pub record ItemFilter : Type 0 where
  pub kind : Option String
  pub category : Option String
  pub severity : Option String
  pub confidence : Option String
  pub source : Option String
  pub region : Option String
  pub query : Option String
  pub exploited : Option Bool
  pub limit : ℕ
  pub offset : ℕ
  pub cursor : Option PageCursor

-- What decoding a cursor calls of the `base64`, `serde_json` and `chrono` crates.
pub record CursorCodec : Type 1 where
  pub Bytes : Type 0
  pub decode : String → Option Bytes
  pub from_slice : Bytes → Option PageCursor
  pub is_rfc3339 : String → Bool

abbrev pub invalid_filter : String → ApiError
invalid_filter name = bad_request ("invalid " ++ (name ++ " filter"))

-- `contains` of a slice of texts
abbrev pub listed : String → List String → Bool
listed value allowed = any (λ text. text == value) allowed

unfoldable pub validate_enum : String → Option String → List String → Result ApiError (Unit {0})
validate_enum name value allowed =
    bail_if (is_some_and value (λ text. not (listed text allowed))) (invalid_filter name)

unfoldable pub validate_length : String → Option String → ℕ → Result ApiError (Unit {0})
validate_length name value maximum =
    bail_if (is_some_and value (λ text. text == "" || ltb maximum (len text))) (invalid_filter name)

abbrev pub kinds : List String
kinds = "news" ∷ "cve" ∷ []

abbrev pub severities : List String
severities = "critical" ∷ "high" ∷ "medium" ∷ "low" ∷ "none" ∷ "unknown" ∷ []

abbrev pub confidences : List String
confidences = "very-high" ∷ "high" ∷ "medium" ∷ "low" ∷ "rejected" ∷ []

abbrev pub bad_cursor : ApiError
bad_cursor = bad_request "cursor is invalid"

module _ ⦃codec : CursorCodec⦄ where
  unfoldable pub decode_cursor : String → Result ApiError PageCursor
  decode_cursor value = do
    bail_if (ltb 1024 (len value)) (bad_request "cursor is too long")
    bytes ← ok_or (codec.decode value) bad_cursor
    cursor ← ok_or (codec.from_slice bytes) bad_cursor
    bail_if (not (codec.is_rfc3339 cursor.timestamp) || cursor.id == "" || ltb 240 (len cursor.id))
        bad_cursor
    ok cursor

  -- `map(decode_cursor).transpose()`
  unfoldable pub decode_optional : Option String → Result ApiError (Option PageCursor)
  unfolding decode_cursor
  decode_optional none = ok none
  decode_optional (some value) = do cursor ← decode_cursor value; ok (some cursor)

  unfoldable pub validate_item_query : ItemQuery → Result ApiError ItemFilter
  unfolding validate_enum validate_length decode_optional
  validate_item_query query = do
    validate_enum "kind" query.kind kinds
    validate_enum "severity" query.severity severities
    validate_enum "confidence" query.confidence confidences
    validate_length "category" query.category 80
    validate_length "source" query.source 120
    validate_length "region" query.region 120
    validate_length "q" query.q 240
    bail_if (not (leb 1 (unwrap_or query.limit 50) && leb (unwrap_or query.limit 50) 200))
        (bad_request "limit must be between 1 and 200")
    bail_if (ltb 10000 (unwrap_or query.offset 0))
        (bad_request "offset is too large; use cursor pagination")
    cursor ← decode_optional query.cursor
    ok (record {
      kind = query.kind;
      category = query.category;
      severity = query.severity;
      confidence = query.confidence;
      source = query.source;
      region = query.region;
      query = query.q;
      exploited = query.exploited;
      limit = unwrap_or query.limit 50;
      offset = unwrap_or query.offset 0;
      cursor = cursor;
    })
