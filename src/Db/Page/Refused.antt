-- ===== src/Db/Page/Refused.antt =====
-- Which of the cursors that a page names the interface reads back.
use mathlib.Core.List.{map-append}
use mathlib.Core.Path.{subst}
use cyberwatch_rs.Prelude.{
  leb, ◌==◌, text_eq, drop, last, All, is_ok, ℕ, zero, suc, String, len, ◌≡◌, refl, not, ◌&&◌,
  Option, some, List, [], ◌∷◌, ◌++◌, map, arith,
}
use cyberwatch_rs.Prelude.Sort.{All-sort, All-keep, All-middle}
use cyberwatch_rs.Models.{ItemRecord, PageCursor}
use cyberwatch_rs.Api.Query.{ItemFilter, CursorCodec, decode_cursor}
use cyberwatch_rs.Db.Store.{Store}
use cyberwatch_rs.Db.Page.{page_limit, Row, item_from_row, row_key, comes_before, found, list_items}
use cyberwatch_rs.Db.Page.Order.{comes_before_irrefl, comes_before_trans}
use cyberwatch_rs.Db.Page.Browse.{PageOf-all, whole_list, first_part}

-- The crates read back what they wrote.
pub record Reads ⦃codec : CursorCodec⦄ (encode : PageCursor → String) (c : PageCursor)
    : Type 0 where
  pub bytes : codec.Bytes
  pub decoded : codec.decode (encode c) ≡ some bytes
  pub parsed : codec.from_slice bytes ≡ some c

last-end {ℓ} : {A : Type ℓ} (pre : List A) (c : A) → last (pre ++ c ∷ []) ≡ some c
last-end [] c = refl
last-end (x ∷ []) c = refl
last-end (x ∷ y ∷ pre) c = last-end (y ∷ pre) c

some-inj {ℓ} : {A : Type ℓ} {a b : A} → ◌≡◌ {A = Option A} (some a) (some b) → a ≡ b
some-inj h = cc

All-drop {ℓ κ} : {A : Type ℓ} (P : A → Type κ) (n : ℕ) (xs : List A) → All P xs → All P (drop n xs)
All-drop P zero xs h = h
All-drop P (suc n) [] h = h
All-drop P (suc n) (x ∷ xs) h = All-drop P n xs h.1

All-found :
    {F : Type 0} (P : Row F → Type 0) (store : Store F) (filter : ItemFilter)
    → All P store.items
    → All P (found store filter)
unfolding found
All-found P store filter h =
    All-drop P _ _
      (All-sort comes_before P _ (All-keep comes_before comes_before_trans P _ store.items h))

module _ {F : Type 0} ⦃codec : CursorCodec⦄ (encode : PageCursor → String) (store : Store F) where
  decode_cursor-accepts :
      (c : PageCursor)
      → Reads encode c
      → is_ok (decode_cursor (encode c)) ≡ (
          leb (len (encode c)) 1024
          && codec.is_rfc3339 c.timestamp
          && not (c.id == "")
          && leb (len c.id) 240)
  unfolding decode_cursor
  decode_cursor-accepts c r = rw (r.decoded, r.parsed) (ground arith)

  -- The cursor that a page names stands for the page's last item. It is accepted in the next request
  -- exactly when the item's time is written as RFC 3339 wants it, its ID has from 1 to 240 bytes,
  -- and the text of the cursor at most 1024: after an item with another time, the client is stuck.
  pub list_items-cursor :
      (filter : ItemFilter) (text : String)
      → All (λ (row : Row F). Reads encode (row_key row)) store.items
      → (list_items encode store filter).next_cursor ≡ some text
      → (item : ItemRecord F) × (last (list_items encode store filter).items ≡ some item)
        × (is_ok (decode_cursor text) ≡ (
            leb (len text) 1024
            && codec.is_rfc3339 item.effective_timestamp
            && not (item.id == "")
            && leb (len item.id) 240))
  unfolding list_items
  list_items-cursor filter text reads h =
      elim (PageOf-all (page_limit filter) (found store filter) (omega arith)) [
        | whole_list kept none_next ↦ let none_there = rw none_next at h in cc
        | first_part front c post whole kept next ↦
            let same : encode (row_key c) ≡ text = some-inj (rw next at h) in
            let r : Reads encode (row_key c) =
              All-middle comes_before comes_before_trans comes_before_irrefl
                (λ (row : Row F). Reads encode (row_key row)) front c post
                (subst (All (λ (row : Row F). Reads encode (row_key row))) whole
                  (All-found (λ row. Reads encode (row_key row)) store filter reads)) in
            (
              item_from_row store c,
              rw kept (
                  rw (map-append (item_from_row store) front (c ∷ []))
                    (last-end (map (item_from_row store) front) (item_from_row store c))),
              rw (← same) (decode_cursor-accepts (row_key c) r),
            )
      ]
