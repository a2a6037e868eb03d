-- ===== src/Db/Items/Batch.antt =====
-- What a batch leaves in the store.
use cyberwatch_rs.Prelude.{
  ◌==◌, text_eq, if◌then◌else◌, Bool-cases, length, any, all, ok, err, String, ◌≡◌, refl, ap, ◌∙◌,
  inl, inr, Bool, true, false, not, ◌&&◌, ◌||◌, Option, some, List, [], ◌∷◌, arith,
}
use cyberwatch_rs.Prelude.Table.{Table, lookup, upsert, delete, lookup-upsert}
use cyberwatch_rs.Prelude.Sets.{member}
use cyberwatch_rs.Prelude.Float.{Float}
use text.Mathlib.TextEquality.{eq_iff}
use cyberwatch_rs.Models.{is_nil, is_empty, ItemInput, IngestBatch}
use cyberwatch_rs.Db.Store.{ItemRow, Store, check_failed}
use cyberwatch_rs.Db.Items.{
  row_of, merged_with, insert_pair, insert_pairs, replace_pairs, commit, upsert_item, upsert_items,
  transaction, apply_batch,
}

-- The pair (id, value) is in the table.
unfoldable pub has_pair : String → String → Table String → Bool
has_pair id value rows = any (λ (row : String × String). row.0 == id && row.1 == value) rows

module _ {F : Type 0} where
  -- The `CHECK` of the schema on every item.
  unfoldable pub kinds_fit : List (ItemInput F) → Bool
  kinds_fit items = all (λ (item : ItemInput F). item.kind == "news" || item.kind == "cve") items

  -- The last item with an ID decides which values belong to it.
  unfoldable pub values_after :
      (ItemInput F → List String) → String → String → List (ItemInput F) → Bool → Bool
  values_after part id value [] before = before
  values_after part id value (item ∷ items) before =
      values_after part id value items (if item.id == id then member value (part item) else before)

module _ {F : Type 0} (float : Float F) where
  -- The items with an ID are merged into its row, one after the other.
  unfoldable pub row_after : String → List (ItemInput F) → Option (ItemRow F) → Option (ItemRow F)
  row_after id [] row = row
  row_after id (item ∷ items) row =
      row_after id items (if item.id == id then some (merged_with float row (row_of item)) else row)

has_pair-same :
    (id value i v : String) (rows : Table String)
    → has_pair i v rows ≡ true
    → (i == id && v == value) ≡ true
    → has_pair id value rows ≡ true
has_pair-same id value i v rows h e = ground (arith, eq_iff i id, eq_iff v value)

has_pair-insert_pair :
    (id value i v : String) (rows : Table String)
    → has_pair id value (insert_pair i v rows) ≡ ((i == id && v == value) || has_pair id value rows)
unfolding has_pair
has_pair-insert_pair id value i v rows = elim (Bool-cases (has_pair i v rows)) [
  | inl found ↦
      rw found (ground (arith, has_pair-same id value i v rows, eq_iff i id, eq_iff v value))
  | inr e ↦ rw e
]

has_pair-insert_pairs :
    (id value i : String) (values : List String) (rows : Table String)
    → has_pair id value (insert_pairs i values rows)
      ≡ ((i == id && member value values) || has_pair id value rows)
unfolding insert_pairs member
has_pair-insert_pairs id value i [] rows = ground arith
has_pair-insert_pairs id value i (v ∷ values) rows = ground (
  arith,
  has_pair-insert_pairs id value i values (insert_pair i v rows),
  has_pair-insert_pair id value i v rows,
)

has_pair-delete :
    (id value i : String) (rows : Table String)
    → has_pair id value (delete i rows) ≡ (not (i == id) && has_pair id value rows)
unfolding has_pair delete
has_pair-delete id value i [] = ground arith
has_pair-delete id value i ((j, v) ∷ rows) =
    ground (arith, has_pair-delete id value i rows, eq_iff j i, eq_iff j id, eq_iff i id)

has_pair-replace_pairs :
    (id value i : String) (values : List String) (rows : Table String)
    → has_pair id value (replace_pairs i values rows)
      ≡ (if i == id then member value values else has_pair id value rows)
unfolding replace_pairs
has_pair-replace_pairs id value i values rows = ground (
  arith,
  has_pair-insert_pairs id value i values (delete i rows),
  has_pair-delete id value i rows,
)

module _ {F : Type 0} (float : Float F) where
  -- The store with one item written, where its kind passes the `CHECK`.
  abbrev written : ItemInput F → Store F → Store F
  written item store = record store {
    items =
        upsert item.id (merged_with float (lookup item.id store.items) (row_of item)) store.items;
    item_categories = replace_pairs item.id item.categories store.item_categories;
    item_cves = replace_pairs item.id item.cves store.item_cves;
  }

  lookup-written :
      (item : ItemInput F) (store : Store F) (id : String)
      → lookup id (written item store).items ≡ (
          if item.id == id
          then some (merged_with float (lookup id store.items) (row_of item))
          else lookup id store.items)
  lookup-written item store id = elim (Bool-cases (item.id == id)) [
    | inl e ↦ rw (
      lookup-upsert item.id id (merged_with float (lookup item.id store.items) (row_of item))
          store.items,
      e,
      (eq_iff item.id id).0 e,
    )
    | inr e ↦ rw (
      lookup-upsert item.id id (merged_with float (lookup item.id store.items) (row_of item))
          store.items,
      e,
    )
  ]

  -- What the store says of an ID after the items are written.
  pub record Reflects (items : List (ItemInput F)) (store after : Store F) : Type 0 where
    pub row :
        (id : String) → lookup id after.items ≡ row_after float id items (lookup id store.items)
    pub category :
        (id value : String)
        → has_pair id value after.item_categories
          ≡ values_after
              (λ item. item.categories)
              id
              value
              items
              (has_pair id value store.item_categories)
    pub cve :
        (id value : String)
        → has_pair id value after.item_cves
          ≡ values_after (λ item. item.cves) id value items (has_pair id value store.item_cves)

  Reflects-written :
      (item : ItemInput F) (items : List (ItemInput F)) (store after : Store F)
      → Reflects items (written item store) after
      → Reflects (item ∷ items) store after
  unfolding row_after values_after
  Reflects-written item items store after r = record {
    row = λ id. r.row id ∙ ap (row_after float id items) (lookup-written item store id);
    category = λ id value.
        r.category id value
        ∙ ap (values_after (λ (item : ItemInput F). item.categories) id value items)
            (has_pair-replace_pairs id value item.id item.categories store.item_categories);
    cve = λ id value.
        r.cve id value
        ∙ ap (values_after (λ (item : ItemInput F). item.cves) id value items)
            (has_pair-replace_pairs id value item.id item.cves store.item_cves);
  }

  upsert_item-fit :
      (item : ItemInput F) (store : Store F)
      → (item.kind == "news" || item.kind == "cve") ≡ true
      → upsert_item float item store ≡ ok (written item store)
  unfolding upsert_item
  upsert_item-fit item store h = rw h

  upsert_items-fit :
      (items : List (ItemInput F)) (store : Store F)
      → kinds_fit items ≡ true
      → (after : Store F) × (upsert_items float items store ≡ ok after) × Reflects items store after
  unfolding upsert_items kinds_fit row_after values_after
  upsert_items-fit [] store h =
      (store, refl, record { row = λ id. refl; category = λ id v. refl; cve = λ id v. refl })
  upsert_items-fit (item ∷ items) store h =
      let one : (item.kind == "news" || item.kind == "cve") ≡ true = ground arith in
      let more : kinds_fit items ≡ true = ground arith in
      let rest = upsert_items-fit items (written item store) more in
      (
        rest.0,
        rw (upsert_item-fit item store one) rest.1,
        Reflects-written item items store rest.0 rest.2,
      )

  upsert_items-unfit :
      (items : List (ItemInput F)) (store : Store F)
      → kinds_fit items ≡ false
      → upsert_items float items store ≡ err check_failed
  unfolding upsert_items upsert_item kinds_fit
  upsert_items-unfit [] store h = cc
  upsert_items-unfit (item ∷ items) store h =
      elim (Bool-cases (item.kind == "news" || item.kind == "cve")) [
        | inl e ↦ rw e (upsert_items-unfit items (written item store) (ground arith))
        | inr e ↦ rw e
      ]

  unfit_not_empty : (items : List (ItemInput F)) → items ≡ [] → kinds_fit items ≡ false → ⊥
  unfolding kinds_fit
  unfit_not_empty [] e h = cc
  unfit_not_empty (item ∷ items) e h = cc

  nil_of_and :
      (items : List (ItemInput F)) (a b c : Bool)
      → (is_nil items && a && b && c) ≡ true
      → items ≡ []
  nil_of_and [] a b c h = refl
  nil_of_and (item ∷ items) a b c h = cc

  nothing_written :
      (items : List (ItemInput F)) (store : Store F) → items ≡ [] → Reflects items store store
  unfolding row_after values_after
  nothing_written items store e =
      rw e (record { row = λ id. refl; category = λ id v. refl; cve = λ id v. refl })

  no_items : (batch : IngestBatch F) → is_empty batch ≡ true → batch.items ≡ []
  unfolding is_empty
  no_items batch h =
      nil_of_and batch.items (is_nil batch.evidence) (is_nil batch.sync_updates)
        (is_nil batch.cache_updates) h

  -- A batch whose items are all news or CVEs is applied, and its items are counted. Each stored row
  -- is then the one before with the batch's items of its ID merged into it in turn, and the last of
  -- those items has decided the categories and the CVEs of the ID.
  pub apply_batch_lem :
      (batch : IngestBatch F) (store : Store F)
      → kinds_fit batch.items ≡ true
      → ((apply_batch float batch store).0 ≡ ok (length batch.items))
        × Reflects batch.items store (apply_batch float batch store).1
  unfolding apply_batch transaction commit is_empty
  apply_batch_lem batch store h = elim (Bool-cases (is_empty batch)) [
    | inl e ↦
        let none_there = no_items batch e in
        rw e (rw none_there, nothing_written batch.items store none_there)
    | inr e ↦
        let done = upsert_items-fit batch.items store h in
        rw (e, done.1)
          (refl, record { row = done.2.row; category = done.2.category; cve = done.2.cve })
  ]

  -- A batch with an item of another kind is refused, and the store is as it was.
  pub apply_batch-unfit :
      (batch : IngestBatch F) (store : Store F)
      → kinds_fit batch.items ≡ false
      → apply_batch float batch store ≡ (err check_failed, store)
  unfolding apply_batch transaction commit is_empty
  apply_batch-unfit batch store h = elim (Bool-cases (is_empty batch)) [
    | inl e ↦ absurd (unfit_not_empty batch.items (no_items batch e) h)
    | inr e ↦ rw (e, upsert_items-unfit batch.items store h)
  ]
