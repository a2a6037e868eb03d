-- ===== src/Api/Handlers/Laws.antt =====
-- The handlers over a store, and what the health of the sources tells.
use mathlib.Core.Option as Option
use cyberwatch_rs.Prelude.{
  ltb, leb, ◌==◌, text_eq, Bool-cases, any, find, All, ◌>>◌, bail_if, ok_or, is_ok, is_some, ◌>>=◌,
  Result, ok, err, String, len, ◌≡◌, refl, ap, ◌∙◌, inl, inr, Bool, true, false, not, ◌&&◌, ◌||◌,
  Option, none, some, List, [], ◌∷◌, map, arith,
}
use cyberwatch_rs.Prelude.Table.{Table, lookup}
use cyberwatch_rs.Prelude.Order.{text_lt}
use cyberwatch_rs.Prelude.Float.{Float}
use cyberwatch_rs.Models.{ItemInput, IngestBatch, SourceHealth, SourceDescriptor}
use cyberwatch_rs.Api.Error.{bad_request, not_found, ApiError}
use cyberwatch_rs.Api.Handlers.{
  or_internal, handle_get_item, by_source, add_descriptors, hide_error, sources, Queries,
}
use cyberwatch_rs.Db.Store.{ItemRow, Store}
use cyberwatch_rs.Db.Items.{row_of, merged_with, apply_batch}
use cyberwatch_rs.Db.Items.Batch.{kinds_fit, row_after, apply_batch_lem}
use cyberwatch_rs.Db.Page.{get_item, item_from_row, get_cve_item, list_items}
use cyberwatch_rs.Db.Evidence.{get_evidence, get_validation}
use cyberwatch_rs.Db.Stats.{stats}
use cyberwatch_rs.Db.Health.{insert_health, sort_health, list_source_health}

is_ok-answer :
    {A : Type 0} (bad : Bool) (item : Option A)
    → is_ok (bail_if bad (bad_request "invalid item ID") >> ok_or item (not_found "item not found"))
      ≡ (not bad && is_some item)
is_ok-answer true item = refl
is_ok-answer false none = refl
is_ok-answer false (some item) = refl

module _ {F : Type 0} where
  -- The queries of a store, whose statements succeed.
  unfoldable pub queries_of : Store F → Queries F
  queries_of store = record {
    list_items = λ filter. ok (list_items (λ c. c.id) store filter);
    get_item = λ id. ok (get_item store id);
    get_cve_item = λ id. ok (get_cve_item store id);
    get_evidence = λ id. ok (get_evidence id store);
    get_validation = λ id. ok (get_validation id store);
    stats = ok (stats "" store);
    list_source_health = ok (list_source_health (λ table. table) "" store);
    ready = ok tt;
  }

  find-lookup :
      (id : String) (rows : Table (ItemRow F))
      → is_some (find (λ (row : String × ItemRow F). row.0 == id) rows) ≡ is_some (lookup id rows)
  unfolding lookup
  find-lookup id [] = refl
  find-lookup id ((j, row) ∷ rows) = ground (arith, find-lookup id rows)

  is_some-map :
      {A : Type 0} (f : String × ItemRow F → A) (o : Option (String × ItemRow F))
      → is_some (Option.map f o) ≡ is_some o
  is_some-map f none = refl
  is_some-map f (some a) = refl

  -- The handler finds what the table holds under an ID of a proper length.
  handle_get_item-finds :
      (store : Store F) (id : String)
      → is_ok (handle_get_item (queries_of store) id)
        ≡ (not (id == "") && leb (len id) 240 && is_some (lookup id store.items))
  unfolding handle_get_item queries_of get_item
  handle_get_item-finds store id =
      let there : is_some (get_item store id) ≡ is_some (lookup id store.items) =
        is_some-map (item_from_row store)
          (find (λ (row : String × ItemRow F). row.0 == id) store.items)
        ∙ find-lookup id store.items in
      is_ok-answer (id == "" || ltb 240 (len id)) (get_item store id) ∙ ground (arith, there)

  module _ (float : Float F) where
    row_after-stored :
        (id : String) (items : List (ItemInput F)) (row : Option (ItemRow F))
        → is_some (row_after float id items row)
          ≡ (is_some row || any (λ (item : ItemInput F). item.id == id) items)
    unfolding row_after
    row_after-stored id [] row = ground arith
    row_after-stored id (item ∷ items) row = elim (Bool-cases (item.id == id)) [
      | inl e ↦
          rw e
            (row_after-stored id items (some (merged_with float row (row_of item))) ∙ ground arith)
      | inr e ↦ rw e (row_after-stored id items row)
    ]

    -- Once a batch is applied, a request for an item succeeds exactly when its ID has from 1 to 240
    -- bytes and either the item was there before or the batch has one with the ID.
    pub handle_get_item-apply_batch :
        (batch : IngestBatch F) (store : Store F) (id : String)
        → kinds_fit batch.items ≡ true
        → is_ok (handle_get_item (queries_of (apply_batch float batch store).1) id) ≡ (
            not (id == "")
            && leb (len id) 240
            && (is_some (lookup id store.items)
                || any (λ (item : ItemInput F). item.id == id) batch.items))
    handle_get_item-apply_batch batch store id h =
        handle_get_item-finds (apply_batch float batch store).1 id
        ∙ ap (λ b. not (id == "") && leb (len id) 240 && b)
            (ap is_some ((apply_batch_lem float batch store h).1.row id)
              ∙ row_after-stored id batch.items (lookup id store.items))

-- What may be told of an error.
abbrev pub IsHidden : SourceHealth → Type 0
IsHidden health =
    is_some health.last_error ≡ true → health.last_error ≡ some "source failed; inspect server logs"

hide_error-IsHidden : (health : SourceHealth) → IsHidden (hide_error health)
hide_error-IsHidden health = elim (Bool-cases (is_some health.last_error)) [
  | inl e ↦ rw e (λ h. refl)
  | inr e ↦ rw e (λ h. cc)
]

All-hide_error : (healths : List SourceHealth) → All IsHidden (map hide_error healths)
All-hide_error [] = tt
All-hide_error (health ∷ rest) = (hide_error-IsHidden health, All-hide_error rest)

All-insert_health :
    (P : SourceHealth → Type 0) (new : SourceHealth) (rest : List SourceHealth)
    → P new
    → All P rest
    → All P (insert_health new rest)
All-insert_health P new [] h a = (h, tt)
All-insert_health P new (old ∷ rest) h a =
    elim (Bool-cases (text_lt old.source_name new.source_name)) [
      | inl e ↦ rw e (a.0, All-insert_health P new rest h a.1)
      | inr e ↦ rw e (h, a)
    ]

All-sort_health :
    (P : SourceHealth → Type 0) (healths : List SourceHealth)
    → All P healths
    → All P (sort_health healths)
All-sort_health P [] a = tt
All-sort_health P (h ∷ rest) a =
    All-insert_health P h (sort_health rest) a.0 (All-sort_health P rest a.1)

hidden : (healths : List SourceHealth) → All IsHidden (sort_health (map hide_error healths))
hidden healths = All-sort_health IsHidden (map hide_error healths) (All-hide_error healths)

-- An answer that tells the client of no error but in fixed words.
pub data Discreet : Result ApiError (List SourceHealth) → Type 0 where
  listed : (healths : List SourceHealth) → All IsHidden healths → Discreet (ok healths)
  refused : Discreet (
      err (record {
        status = 500;
        code = "internal_error";
        message = "failed to query source health";
      }))

answered-Discreet :
    (found : Result String (List SourceHealth)) (list_of : List SourceHealth → List SourceHealth)
    → Discreet (do
      existing ← or_internal "failed to query source health" found
      ok (sort_health (map hide_error (list_of existing))))
answered-Discreet (ok existing) list_of = listed _ (hidden (list_of existing))
answered-Discreet (err e) list_of = refused

-- Whatever the repository says of the sources, and in whatever order, no answer carries the text of
-- an error: where it lists them, each error is told of in fixed words, and where it fails, the
-- answer is the same whatever the failure.
pub sources-hides :
    {F : Type 0} (queries : Queries F) (iterate : Table SourceHealth → List SourceHealth)
    (descriptors : List SourceDescriptor)
    → Discreet (sources queries iterate descriptors)
unfolding sources
sources-hides queries iterate descriptors =
    answered-Discreet queries.list_source_health
      (λ existing. iterate (add_descriptors descriptors (by_source existing [])))
