-- ===== src/Db/Page/Tests.antt =====
-- Three items on pages of two.
use cyberwatch_rs.Prelude.{
  leb, ◌==◌, text_eq, if◌then◌else◌, length, drop, last, is_ok, ℕ, ◌-◌, ◌^◌, ◌<◌, min, String, len,
  ◌≡◌, refl, ap, Bool, true, not, ◌&&◌, some, List, [], ◌∷◌, map, arith,
}
use cyberwatch_rs.Prelude.Table.{lookup}
use cyberwatch_rs.Prelude.Sort.{sort}
use cyberwatch_rs.Models.{ItemRecord, PageCursor}
use cyberwatch_rs.Api.Query.{CursorCodec, decode_cursor}
use cyberwatch_rs.Db.Store.{effective_timestamp}
use cyberwatch_rs.Db.Samples.{sample_row, three_rows, every_item}
use cyberwatch_rs.Db.Page.{item_from_row, selected, comes_before, list_items}
use cyberwatch_rs.Db.Page.Browse.{matching, browse, browse_lem}
use cyberwatch_rs.Db.Page.Refused.{list_items-cursor, Reads}

-- A codec that knows the cursors to the three rows, and that takes `b`'s time for a bad one.
abbrev time_of : String → String
time_of id = if id == "b" then "2026-01-02T00:00:00Z" else "2026-01-01T00:00:00Z"

abbrev small_codec : (String → Bool) → CursorCodec
small_codec is_rfc3339 = record {
  Bytes = String;
  decode = λ text. some text;
  from_slice = λ id. some (record { timestamp = time_of id; id = id });
  is_rfc3339 = is_rfc3339;
}

abbrev encode_id : PageCursor → String
encode_id c = c.id

ids_of : List (ItemRecord ℕ) → List String
ids_of items = map (λ (item : ItemRecord ℕ). item.id) items

first_page : ids_of (list_items encode_id three_rows every_item).items ≡ "b" ∷ "c" ∷ []
unfolding ids_of list_items
first_page = refl

first_page_cursor : (list_items encode_id three_rows every_item).next_cursor ≡ some "c"
unfolding list_items
first_page_cursor = refl

one_category :
    ids_of (list_items encode_id three_rows (record every_item { category = some "ai" })).items
    ≡ "a" ∷ []
unfolding ids_of list_items
one_category = refl

three_unique : (lookup "a" three_rows.items ≡ some (sample_row "news" "2026-01-01T00:00:00Z"))
unfolding lookup
three_unique = refl

few : length (matching three_rows every_item) < 4
unfolding matching sort selected comes_before
few = omega arith

browse_lem_example :
    browse ⦃codec = small_codec (λ text. true)⦄ encode_id three_rows 4 every_item
    ≡ map (item_from_row three_rows) (drop (min 0 (2 ^ 63 - 1)) (matching three_rows every_item))
unfolding decode_cursor lookup effective_timestamp matching sort selected comes_before
browse_lem_example =
    browse_lem ⦃codec = small_codec (λ text. true)⦄ encode_id three_rows (refl, (refl, (refl, tt)))
      every_item 4 refl (refl, (refl, (refl, tt))) few

abbrev bad_time : CursorCodec
bad_time = small_codec (λ text. not (text == "2026-01-01T00:00:00Z"))

readable_row :
    (id published_at : String)
    → time_of id ≡ published_at
    → Reads ⦃codec = bad_time⦄ encode_id (record { timestamp = published_at; id = id })
readable_row id published_at h = record {
  bytes = id;
  decoded = refl;
  parsed = ap (λ (t : String). some (record { timestamp = t; id = id })) h;
}

list_items-cursor_example :
    (item : ItemRecord ℕ) × (last (list_items encode_id three_rows every_item).items ≡ some item)
    × (is_ok (decode_cursor ⦃codec = bad_time⦄ "c") ≡ (
        leb 1 1024
        && not (item.effective_timestamp == "2026-01-01T00:00:00Z")
        && not (item.id == "")
        && leb (len item.id) 240))
unfolding effective_timestamp
list_items-cursor_example =
    list_items-cursor ⦃codec = bad_time⦄ encode_id three_rows every_item "c"
      (readable_row "a" _ refl, (readable_row "b" _ refl, (readable_row "c" _ refl, tt)))
      first_page_cursor
