-- ===== src/Db/Page/Browse.antt =====
-- A client that follows the cursors from page to page.
use mathlib.Core.List.{map-append, append_assoc, append-nil}
use mathlib.Core.Path.{subst, subst⁻¹}
use cyberwatch_rs.Prelude.{
  take-all, take-append-drop, ltb, ltb→lt, Bool-cases, tests, length, take, drop, keep, All,
  length-append, length-take, length-drop-le, ok, err, ℕ, zero, suc, ◌+◌, ◌-◌, ◌^◌, ◌<◌, min,
  String, ◌≡◌, refl, sym, ap, ◌∙◌, inl, inr, Bool, true, ◌&&◌, none, some, List, [], ◌∷◌, ◌++◌, map,
  arith,
}
use cyberwatch_rs.Prelude.Sort.{
  sort, IsSorted, IsApart, sort-IsSorted, All-keep, sort-keep, All-middle, keep-after,
}
use cyberwatch_rs.Models.{ItemRecord, PageCursor}
use cyberwatch_rs.Api.Query.{ItemFilter, CursorCodec, decode_cursor}
use cyberwatch_rs.Db.Store.{Store}
use cyberwatch_rs.Db.Items.Growth.{Unique}
use cyberwatch_rs.Db.Page.{
  page_limit, Row, item_from_row, selected, row_key, comes_before, found, page_cursor, page_rows,
  list_items,
}
use cyberwatch_rs.Db.Page.Order.{
  comes_before_irrefl, comes_before_trans, Apart, Unique-IsApart, cut,
}

abbrev pub with_cursor : ItemFilter → PageCursor → ItemFilter
with_cursor filter c = record filter { cursor = some c }

module _ {F : Type 0} where
  -- The rows that a filter selects, the latest first.
  unfoldable pub matching : Store F → ItemFilter → List (Row F)
  matching store filter = sort comes_before (keep (selected store filter) store.items)

  selected-with_cursor :
      (store : Store F) (filter : ItemFilter) (c : PageCursor) (row : Row F)
      → selected store (with_cursor filter c) row ≡ selected store filter row
  unfolding selected
  selected-with_cursor store filter c (id, row) = refl

  keep-and :
      (p q r : Row F → Bool) (rows : List (Row F))
      → ((row : Row F) → r row ≡ (p row && q row))
      → keep r rows ≡ keep q (keep p rows)
  keep-and p q r [] h = refl
  keep-and p q r (row ∷ rows) h = ground (arith, h row, keep-and p q r rows h)

  keep-same :
      (p q : Row F → Bool) (rows : List (Row F))
      → ((row : Row F) → p row ≡ q row)
      → keep p rows ≡ keep q rows
  keep-same p q [] h = refl
  keep-same p q (row ∷ rows) h = ground (arith, h row, keep-same p q rows h)

  IsApart-keep :
      (p : Row F → Bool) (rows : List (Row F))
      → IsApart comes_before rows
      → IsApart comes_before (keep p rows)
  IsApart-keep p [] a = tt
  IsApart-keep p (row ∷ rows) a = elim (Bool-cases (p row)) [
    | inl e ↦
        rw e
          (All-keep comes_before comes_before_trans (Apart row) p rows a.0, IsApart-keep p rows a.1)
    | inr e ↦ rw e (IsApart-keep p rows a.1)
  ]

  matching-with_cursor :
      (store : Store F) (filter : ItemFilter) (c : PageCursor)
      → matching store (with_cursor filter c) ≡ matching store filter
  unfolding matching
  matching-with_cursor store filter c =
      ap (sort comes_before) (keep-same _ _ store.items (selected-with_cursor store filter c))

  found-first :
      (store : Store F) (filter : ItemFilter)
      → filter.cursor ≡ none
      → found store filter ≡ drop (min filter.offset (2 ^ 63 - 1)) (matching store filter)
  unfolding found matching
  found-first store filter first = rw first (
      ap (λ rows. drop (min filter.offset (2 ^ 63 - 1)) (sort comes_before rows))
        (keep-same _ _ store.items (λ row. ground (arith))))

  module _ (store : Store F) (unique : Unique store.items) (filter : ItemFilter) where
    apart : IsApart comes_before (keep (selected store filter) store.items)
    apart = IsApart-keep (selected store filter) store.items (Unique-IsApart store.items unique)

    matching-IsSorted : IsSorted comes_before (matching store filter)
    unfolding matching
    matching-IsSorted = sort-IsSorted comes_before comes_before_trans _ apart

    -- After a row's cursor come the rows that follow it.
    found-after :
        (pre : List (Row F)) (c : Row F) (post : List (Row F))
        → matching store filter ≡ pre ++ c ∷ post
        → found store (with_cursor filter (row_key c)) ≡ post
    unfolding found comes_before matching
    found-after pre c post h =
        ap (sort comes_before) (
          keep-and (selected store filter) (comes_before c) _ store.items (λ row.
            ap (λ b. b && comes_before c row) (selected-with_cursor store filter (row_key c) row)))
        ∙ (sort-keep comes_before comes_before_trans (comes_before c) _ apart
            ∙ (ap (keep (comes_before c)) h
                ∙ keep-after comes_before comes_before_trans comes_before_irrefl pre c post
                    (subst (IsSorted comes_before) h matching-IsSorted)))

-- What a page of a list holds, and the cursor to the next.
pub data PageOf {F : Type 0} (limit : ℕ) (rows : List (Row F)) : Type 0 where
  whole_list :
      page_rows limit (take (limit + 1) rows) ≡ rows
      → page_cursor limit (take (limit + 1) rows) ≡ none
      → PageOf limit rows
  first_part :
      (pre : List (Row F)) (c : Row F) (post : List (Row F))
      → rows ≡ pre ++ c ∷ post
      → page_rows limit (take (limit + 1) rows) ≡ pre ++ c ∷ []
      → page_cursor limit (take (limit + 1) rows) ≡ some (row_key c)
      → PageOf limit rows

pub PageOf-all : {F : Type 0} (limit : ℕ) (rows : List (Row F)) → 0 < limit → PageOf limit rows
PageOf-all limit rows h = elim (Bool-cases (ltb limit (length rows))) [
  | inl more ↦
      let parts = cut (limit - 1) rows (omega (tests, ltb→lt limit (length rows) more)) in
      let size : limit + 1 ≡ suc (suc (limit - 1)) = omega arith in
      let long : ltb limit (length (take (limit + 1) rows)) ≡ true =
        ground (arith, length-take (limit + 1) rows) in
      first_part parts.pre parts.final parts.post parts.whole (rw (long, size) parts.kept)
        (rw (long, size, parts.kept, parts.final_last))
  | inr less ↦
      let same : take (limit + 1) rows ≡ rows = take-all (limit + 1) rows (ground arith) in
      whole_list (rw (same, less)) (rw (same, less))
]

module _ {F : Type 0} ⦃codec : CursorCodec⦄ (encode : PageCursor → String) (store : Store F) where
  -- A client that asks for page after page, at most `fuel` of them, by the cursor that each names.
  unfoldable pub browse : ℕ → ItemFilter → List (ItemRecord F)
  browse zero filter = []
  browse (suc fuel) filter =
      let page = list_items encode store filter in
      page.items ++ elim page.next_cursor [
        | none ↦ []
        | some text ↦ elim (decode_cursor text) [
          | err e ↦ []
          | ok c ↦ browse fuel (with_cursor filter c)
        ]
      ]

  -- The cursor to the row reads back as it was.
  abbrev pub Readable : Row F → Type 0
  Readable row = decode_cursor (encode (row_key row)) ≡ ok (row_key row)

  module _ (unique : Unique store.items) where
    browse_rest :
        (fuel : ℕ) (filter : ItemFilter) (pre rows : List (Row F))
        → matching store filter ≡ pre ++ rows
        → found store filter ≡ rows
        → All Readable (matching store filter)
        → length rows < fuel
        → browse fuel filter ≡ map (item_from_row store) rows
    unfolding browse list_items
    browse_rest zero filter pre rows m f readable h = absurd (omega arith)
    browse_rest (suc fuel) filter pre rows m f readable h =
        elim (PageOf-all (page_limit filter) rows (omega arith)) [
          | whole_list kept none_next ↦ rw (f, kept, none_next) (append-nil _)
          | first_part front c post whole kept next ↦
              let before_it : matching store filter ≡ (pre ++ front) ++ c ∷ post =
                m ∙ (ap (λ l. pre ++ l) whole ∙ sym (append_assoc pre front (c ∷ post))) in
              let ready : Readable c =
                All-middle comes_before comes_before_trans comes_before_irrefl Readable
                  (pre ++ front) c post (subst (All Readable) before_it readable) in
              let rest : browse fuel (with_cursor filter (row_key c))
                  ≡ map (item_from_row store) post =
                browse_rest fuel (with_cursor filter (row_key c)) ((pre ++ front) ++ c ∷ []) post
                  (matching-with_cursor store filter (row_key c)
                    ∙ (before_it ∙ sym (append_assoc (pre ++ front) (c ∷ []) post)))
                  (found-after store unique filter (pre ++ front) c post before_it)
                  (subst⁻¹ (All Readable) (matching-with_cursor store filter (row_key c)) readable)
                  (omega (arith, ap length whole, length-append front (c ∷ post))) in
              rw (f, kept, next) (rw (ready, rest, whole) (simp (map-append, append_assoc)))
        ]

    -- Where the IDs of the stored items differ and the cursor to each item that the filter selects is
    -- read back as it was, a client that follows the cursors from the first page on gets every item
    -- that the filter selects exactly once, the latest first, but for those that the offset skips:
    -- whatever the size of a page, if it asks for more pages than there are items that the filter
    -- selects.
    pub browse_lem :
        (filter : ItemFilter) (fuel : ℕ)
        → filter.cursor ≡ none
        → All Readable (matching store filter)
        → length (matching store filter) < fuel
        → browse fuel filter
          ≡ map
              (item_from_row store)
              (drop (min filter.offset (2 ^ 63 - 1)) (matching store filter))
    browse_lem filter fuel first readable enough =
        browse_rest fuel filter (take (min filter.offset (2 ^ 63 - 1)) (matching store filter))
          (drop (min filter.offset (2 ^ 63 - 1)) (matching store filter))
          (sym (take-append-drop (min filter.offset (2 ^ 63 - 1)) (matching store filter)))
          (found-first store filter first) readable
          (omega (
            arith,
            length-drop-le (min filter.offset (2 ^ 63 - 1)) (matching store filter),
            enough,
          ))
