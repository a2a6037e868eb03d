-- ===== src/Db/Page.antt =====
-- `list_items`, `get_item`, `get_cve_item` and `item_from_row` of src/db.rs.
pub mod Order
pub mod Browse
pub mod Refused
mod Tests
use Prim.Native.String.{String, [], ◌∷◌, ◌++◌}
use mathlib.Core.List as List
use mathlib.Core.Option as Option
use cyberwatch_rs.Prelude.{
  ltb, ◌==◌, text_eq, if◌then◌else◌, length, take, drop, pop, last, any, find, keep, is_some_and,
  is_some, unwrap_or, ℕ, ◌+◌, ◌-◌, ◌^◌, min, max, Bool, true, not, ◌&&◌, ◌||◌, Option, none, some,
  List, map,
}
use cyberwatch_rs.Prelude.Table.{Table, lookup}
use cyberwatch_rs.Prelude.Text.{from_code, split}
use cyberwatch_rs.Prelude.Order.{text_lt}
use cyberwatch_rs.Prelude.Sort.{sort}
use cyberwatch_rs.Prelude.Like.{like}
use cyberwatch_rs.Models.{ValidationInput, ItemRecord, ItemPage, PageCursor}
use cyberwatch_rs.Api.Query.{ItemFilter}
use cyberwatch_rs.Db.Store.{effective_timestamp, ItemRow, Store}

-- What the rows of an item in a table of pairs say.
abbrev pub values_of : String → Table String → List String
values_of id List.[] = List.[]
values_of id (List.◌∷◌ (i, value) rows) =
    let rest = values_of id rows in if i == id then List.◌∷◌ value rest else rest

-- `COALESCE(GROUP_CONCAT(category, char(31)), '')`
abbrev pub group_concat : List String → String
group_concat List.[] = []
group_concat (List.◌∷◌ value List.[]) = value
group_concat (List.◌∷◌ value (List.◌∷◌ other values)) =
    value ++ (from_code 31 ∷ group_concat (List.◌∷◌ other values))

-- The row of `cve_validation` that `LEFT JOIN` finds.
abbrev pub joined : {F : Type 0} → Store F → ItemRow F → Option (ValidationInput F)
joined store row = elim row.cve_id [
  | none ↦ none
  | some cve_id ↦ lookup cve_id store.cve_validation
]

-- A column of the joined row, `NULL` where none was found.
abbrev pub column {ℓ} :
    {F : Type 0} {A : Type ℓ} → Option (ValidationInput F) → (ValidationInput F → A) → Option A
column none f = none
column (some v) f = some (f v)

abbrev pub column? {ℓ} :
    {F : Type 0} {A : Type ℓ}
    → Option (ValidationInput F)
    → (ValidationInput F → Option A)
    → Option A
column? none f = none
column? (some v) f = f v

-- `?n IS NULL OR ...`
abbrev pub unless_null {ℓ} : {A : Type ℓ} → Option A → (A → Bool) → Bool
unless_null none p = true
unless_null (some a) p = p a

-- A column that may be `NULL` equals a value.
abbrev pub equals : Option String → String → Bool
equals text value = is_some_and text (λ stored. stored == value)

abbrev pub same_bool : Bool → Bool → Bool
same_bool a b = if a then b else not b

-- `format!("%{value}%")`
abbrev pub around : String → String
around value = "%" ++ (value ++ "%")

unfoldable pub key_lt : PageCursor → PageCursor → Bool
unfolding text_lt
key_lt a b = text_lt a.timestamp b.timestamp || (a.timestamp == b.timestamp && text_lt a.id b.id)

-- `filter.limit.clamp(1, 200)`
abbrev pub page_limit : ItemFilter → ℕ
page_limit filter = min (max filter.limit 1) 200

abbrev pub Row : Type 0 → Type 0
Row F = String × ItemRow F

module _ {F : Type 0} where
  unfoldable pub item_from_row : Store F → Row F → ItemRecord F
  unfolding lookup split effective_timestamp from_code
  item_from_row store (id, row) =
      let v = joined store row in
      record {
        id = id;
        kind = row.kind;
        cve_id = row.cve_id;
        title = row.title;
        summary = row.summary;
        url = row.url;
        source_id = row.source_id;
        source_name = row.source_name;
        source_region = row.source_region;
        source_language = row.source_language;
        source_trust = row.source_trust;
        severity = row.severity;
        cvss_score = row.cvss_score;
        published_at = row.published_at;
        source_updated_at = row.source_updated_at;
        ingested_at = row.ingested_at;
        effective_timestamp = effective_timestamp row;
        exploited = row.exploited;
        kev_date_added = row.kev_date_added;
        remediation = row.remediation;
        due_date = row.due_date;
        ransomware_use = row.ransomware_use;
        vendor = row.vendor;
        product = row.product;
        categories =
            keep (λ value. not (value == ""))
              (split 31 (group_concat (values_of id store.item_categories)));
        confidence = column v (λ w. w.confidence);
        independent_sources = column v (λ w. w.independent_sources);
        authoritative_sources = column v (λ w. w.authoritative_sources);
        severity_disagreement = column v (λ w. w.severity_disagreement);
        cvss_disagreement = column v (λ w. w.cvss_disagreement);
        uncorroborated_exploitation = column v (λ w. w.uncorroborated_exploitation);
        epss_probability = column? v (λ w. w.epss_probability);
        epss_percentile = column? v (λ w. w.epss_percentile);
      }

  -- The conditions of `WHERE` but for those on the cursor.
  unfoldable pub selected : Store F → ItemFilter → Row F → Bool
  unfolding like lookup
  selected store filter (id, row) =
      unless_null filter.kind (λ kind. row.kind == kind)
      && unless_null filter.category (λ category.
        any (λ (pair : String × String). pair.0 == id && pair.1 == category) store.item_categories)
      && unless_null filter.severity (λ severity. equals row.severity severity)
      && unless_null filter.confidence
          (λ confidence. equals (column (joined store row) (λ w. w.confidence)) confidence)
      && unless_null filter.source (λ source. like row.source_name (around source))
      && unless_null filter.region (λ region. like row.source_region (around region))
      && unless_null filter.query (λ query.
        like row.title (around query)
        || like row.summary (around query)
        || like (unwrap_or row.cve_id "") (around query))
      && unless_null filter.exploited (λ exploited. same_bool row.exploited exploited)

  -- The time and the ID, by which the rows are ordered.
  abbrev pub row_key : Row F → PageCursor
  row_key (id, row) = record { timestamp = effective_timestamp row; id = id }

  abbrev pub after_cursor : Option PageCursor → Row F → Bool
  after_cursor cursor row = unless_null cursor (λ c. key_lt (row_key row) c)

  -- `ORDER BY ... DESC, i.id DESC`
  unfoldable pub comes_before : Row F → Row F → Bool
  unfolding key_lt effective_timestamp
  comes_before a b = key_lt (row_key b) (row_key a)

  -- The rows from the offset on; with a cursor, the offset is 0.
  unfoldable pub found : Store F → ItemFilter → List (Row F)
  unfolding selected key_lt sort comes_before effective_timestamp
  found store filter = drop (if is_some filter.cursor then 0 else min filter.offset (2 ^ 63 - 1)) (
      sort comes_before
        (keep (λ row. selected store filter row && after_cursor filter.cursor row) store.items))

  -- One row more than the page has is fetched, to see whether another page follows.
  abbrev pub page_cursor : ℕ → List (Row F) → Option PageCursor
  page_cursor limit rows =
      if ltb limit (length rows) then Option.map row_key (last (pop rows)) else none

  abbrev pub page_rows : ℕ → List (Row F) → List (Row F)
  page_rows limit rows = if ltb limit (length rows) then pop rows else rows

  -- `encode` is the Base64 of the cursor's JSON.
  unfoldable pub list_items : (PageCursor → String) → Store F → ItemFilter → ItemPage F
  unfolding found item_from_row
  list_items encode store filter =
      let limit = page_limit filter in
      let rows = take (limit + 1) (found store filter) in
      record {
        items = map (item_from_row store) (page_rows limit rows);
        next_cursor = Option.map encode (page_cursor limit rows);
      }

  -- `LIMIT 1` of the rows that a predicate selects.
  abbrev pub get_single_item : Store F → (Row F → Bool) → Option (ItemRecord F)
  get_single_item store predicate = Option.map (item_from_row store) (find predicate store.items)

  unfoldable pub get_item : Store F → String → Option (ItemRecord F)
  unfolding item_from_row
  get_item store id = get_single_item store (λ row. row.0 == id)

  unfoldable pub get_cve_item : Store F → String → Option (ItemRecord F)
  unfolding item_from_row
  get_cve_item store cve_id =
      get_single_item store (λ row. row.1.kind == "cve" && equals row.1.cve_id cve_id)
