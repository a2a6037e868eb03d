-- ===== src/Db/Items/Growth.antt =====
-- What no batch takes from the store, and what every batch keeps true of it.
use cyberwatch_rs.Prelude.{
  ◌==◌, text_eq, Bool-cases, All, bind-eq-ok, ok-inj, Result, ok, err, String, ◌≡◌, refl, ap, ◌∙◌,
  inl, inr, true, ◌||◌, Option, none, some, List, [], ◌∷◌, arith,
}
use cyberwatch_rs.Prelude.Table.{upsert-All, Table, lookup, upsert, lookup-upsert}
use cyberwatch_rs.Prelude.Float.{Float}
use mathlib.Core.Path.{subst}
use text.Mathlib.TextEquality.{eq_iff}
use cyberwatch_rs.Models.{is_empty, ItemInput, IngestBatch}
use cyberwatch_rs.Db.Store.{ItemRow, Store, DbError}
use cyberwatch_rs.Db.Items.{
  row_of, merge, merged_with, commit, upsert_item, upsert_items, transaction, apply_batch,
}
use cyberwatch_rs.Db.Items.Merge.{Grows-refl, Grows-trans, merge-Grows, Grows}
use cyberwatch_rs.Db.Items.Batch.{kinds_fit, row_after, apply_batch_lem, apply_batch-unfit}

module _ {F : Type 0} (float : Float F) where
  row_after-Grows :
      (id : String) (items : List (ItemInput F)) (old : ItemRow F)
      → (new : ItemRow F) × (row_after float id items (some old) ≡ some new) × Grows old new
  unfolding row_after
  row_after-Grows id [] old = (old, refl, Grows-refl old)
  row_after-Grows id (item ∷ items) old = elim (Bool-cases (item.id == id)) [
    | inl e ↦
        let rest = row_after-Grows id items (merge float old (row_of item)) in
        (
          rest.0,
          rw e rest.1,
          Grows-trans old (merge float old (row_of item)) rest.0
              (merge-Grows float old (row_of item)) rest.2,
        )
    | inr e ↦ let rest = row_after-Grows id items old in (rest.0, rw e rest.1, rest.2)
  ]

  -- Whatever a batch says, an item that is stored stays stored: its trust and the rank of its
  -- severity do not fall, an exploited CVE stays exploited, its publication gets no later and its
  -- update no earlier, and a CVE ID, a score, a KEV date or a due date that is known stays known.
  pub apply_batch-Grows :
      (batch : IngestBatch F) (store : Store F) (id : String) (old : ItemRow F)
      → lookup id store.items ≡ some old
      → (new : ItemRow F) × (lookup id (apply_batch float batch store).1.items ≡ some new)
        × Grows old new
  apply_batch-Grows batch store id old h = elim (Bool-cases (kinds_fit batch.items)) [
    | inl e ↦
        let grown = row_after-Grows id batch.items old in
        let done = apply_batch_lem float batch store e in
        (grown.0, done.1.row id ∙ (ap (row_after float id batch.items) h ∙ grown.1), grown.2)
    | inr e ↦ (old, rw (apply_batch-unfit float batch store e) h, Grows-refl old)
  ]

-- No two rows have the same key.
abbrev pub Unique {ℓ} : {V : Type ℓ} → Table V → Type ℓ
Unique [] = Unit
Unique ((k, v) ∷ rows) = (lookup k rows ≡ none) × Unique rows

lookup_nil {ℓ} : {V : Type ℓ} (k : String) → lookup {V = V} k [] ≡ none
unfolding lookup
lookup_nil k = refl

pub upsert-Unique {ℓ} :
    {V : Type ℓ} (k : String) (v : V) (rows : Table V) → Unique rows → Unique (upsert k v rows)
unfolding upsert
upsert-Unique k v [] u = (lookup_nil k, tt)
upsert-Unique k v ((j, w) ∷ rows) u = elim (Bool-cases (j == k)) [
  | inl e ↦ rw e (rw (← (eq_iff j k).0 e) u.0, u.1)
  | inr e ↦
      rw e (
        ground (arith, lookup-upsert k j v rows, eq_iff k j, eq_iff j k),
        upsert-Unique k v rows u.1,
      )
]

abbrev pub IsKind : String → Type 0
IsKind kind = (kind == "news" || kind == "cve") ≡ true

-- The `CHECK` and the primary key of `items`.
pub record IsValid {F : Type 0} (store : Store F) : Type 0 where
  pub keys : Unique store.items
  pub kinds : All (λ (row : String × ItemRow F). IsKind row.1.kind) store.items

module _ {F : Type 0} (float : Float F) where
  merged_kind :
      (row : Option (ItemRow F)) (item : ItemInput F)
      → (merged_with float row (row_of item)).kind ≡ item.kind
  unfolding merge row_of
  merged_kind none item = refl
  merged_kind (some row) item = refl

  upsert_item-IsValid :
      (item : ItemInput F) (store after : Store F)
      → IsValid store
      → upsert_item float item store ≡ ok after
      → IsValid after
  unfolding upsert_item
  upsert_item-IsValid item store after v h =
      elim (Bool-cases (item.kind == "news" || item.kind == "cve")) [
        | inl e ↦
            let same = ok-inj (rw e at h) in
            subst IsValid (same) (record {
              keys = upsert-Unique item.id _ store.items v.keys;
              kinds =
                  upsert-All _ item.id _ store.items
                    (rw (merged_kind (lookup item.id store.items) item) e) v.kinds;
            })
        | inr e ↦ let none_after = rw e at h in cc
      ]

  upsert_items-IsValid :
      (items : List (ItemInput F)) (store after : Store F)
      → IsValid store
      → upsert_items float items store ≡ ok after
      → IsValid after
  unfolding upsert_items
  upsert_items-IsValid [] store after v h = subst IsValid (ok-inj h) v
  upsert_items-IsValid (item ∷ items) store after v h =
      let first = bind-eq-ok (upsert_item float item store) (upsert_items float items) h in
      upsert_items-IsValid items first.0 after (upsert_item-IsValid item store first.0 v first.1)
        first.2

  commit-IsValid {ℓ} :
      {A : Type ℓ} (a : A) (store : Store F) (result : Result DbError (Store F))
      → IsValid store
      → ((after : Store F) → result ≡ ok after → IsValid after)
      → IsValid (commit a store result).1
  unfolding commit
  commit-IsValid a store (ok after) v h = h after refl
  commit-IsValid a store (err e) v h = v

  -- A batch keeps the table of items valid, whether it is applied or refused: no two rows have the
  -- same ID, and each is news or a CVE.
  pub apply_batch-IsValid :
      (batch : IngestBatch F) (store : Store F)
      → IsValid store
      → IsValid (apply_batch float batch store).1
  unfolding apply_batch transaction
  apply_batch-IsValid batch store v = elim (Bool-cases (is_empty batch)) [
    | inl e ↦ rw e v
    | inr e ↦ rw e (
        commit-IsValid _ store (transaction float batch store) v (λ after h.
          let first = bind-eq-ok (upsert_items float batch.items store) _ h in
          let kept = upsert_items-IsValid batch.items store first.0 v first.1 in
          subst IsValid (ok-inj first.2) (record { keys = kept.keys; kinds = kept.kinds })))
  ]
