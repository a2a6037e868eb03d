-- ===== src/Db/Retention/Laws.antt =====
-- What the cleanup deletes, and what it leaves.
use cyberwatch_rs.Prelude.{
  unwrap_or, ltb, ◌==◌, text_eq, if◌then◌else◌, Bool-cases, keep, All, is_some_and, ℕ, String, ◌≡◌,
  refl, ap, ◌∙◌, inl, inr, Bool, true, false, not, ◌&&◌, Option, none, some, List, [], ◌∷◌, arith,
}
use cyberwatch_rs.Prelude.Table.{Table, lookup}
use mathlib.Core.Path.{subst, subst⁻¹, fun_ext}
use cyberwatch_rs.Prelude.Order.{text_lt}
use text.Mathlib.TextEquality.{eq_iff}
use cyberwatch_rs.Db.Store.{coalesce, effective_timestamp, ItemRow, Store}
use cyberwatch_rs.Db.Items.Batch.{has_pair}
use cyberwatch_rs.Db.Items.Growth.{Unique, IsValid}
use cyberwatch_rs.Db.Retention.{is_expired, is_deleted, delete_news, delete_runs, cleanup_retention}

-- The value of a row, if it passes.
abbrev pub passing {ℓ} : {A : Type ℓ} → (A → Bool) → Option A → Option A
passing p none = none
passing p (some a) = if p a then some a else none

lookup-keep {ℓ} :
    {V : Type ℓ} (p : V → Bool) (id : String) (rows : Table V)
    → Unique rows
    → lookup id (keep (λ (row : String × V). p row.1) rows) ≡ passing p (lookup id rows)
unfolding lookup
lookup-keep p id [] u = refl
lookup-keep p id ((j, v) ∷ rows) u = elim (Bool-cases (j == id)) [
  | inl e ↦
      let absent : lookup id rows ≡ none =
        subst (λ k. lookup k rows ≡ none) ((eq_iff j id).0 e) u.0 in
      elim (Bool-cases (p v)) [
        | inl f ↦ rw (f, e, f)
        | inr f ↦ rw (f, e, f) (lookup-keep p id rows u.1 ∙ ap (passing p) absent)
      ]
  | inr e ↦ elim (Bool-cases (p v)) [
    | inl f ↦ rw (f, e) (lookup-keep p id rows u.1)
    | inr f ↦ rw (f, e) (lookup-keep p id rows u.1)
  ]
]

Unique-keep {ℓ} :
    {V : Type ℓ} (p : V → Bool) (rows : Table V)
    → Unique rows
    → Unique (keep (λ (row : String × V). p row.1) rows)
Unique-keep p [] u = u
Unique-keep p ((j, v) ∷ rows) u = elim (Bool-cases (p v)) [
  | inl e ↦ rw e (rw (lookup-keep p j rows u.1, u.0), Unique-keep p rows u.1)
  | inr e ↦ rw e (Unique-keep p rows u.1)
]

All-keep_rows {ℓ κ} :
    {A : Type ℓ} (P : A → Type κ) (q : A → Bool) (xs : List A) → All P xs → All P (keep q xs)
All-keep_rows P q [] h = h
All-keep_rows P q (x ∷ xs) h = elim (Bool-cases (q x)) [
  | inl e ↦ rw e (h.0, All-keep_rows P q xs h.1)
  | inr e ↦ rw e (All-keep_rows P q xs h.1)
]

has_pair-keep :
    (p : String → Bool) (id value : String) (rows : Table String)
    → has_pair id value (keep (λ (row : String × String). p row.0) rows)
      ≡ (p id && has_pair id value rows)
unfolding has_pair
has_pair-keep p id value [] = ground arith
has_pair-keep p id value ((j, v) ∷ rows) = elim (Bool-cases (j == id)) [
  | inl e ↦ ground (arith, has_pair-keep p id value rows, ap p ((eq_iff j id).0 e))
  | inr e ↦ ground (arith, has_pair-keep p id value rows)
]

-- When an item was published, or else changed at its source, or else taken in.
abbrev pub time_of : Option String → Option String → String → String
time_of (some published) changed taken_in = published
time_of none (some changed) taken_in = changed
time_of none none taken_in = taken_in

time_of_lem :
    (published changed : Option String) (taken_in : String)
    → unwrap_or (coalesce published changed) taken_in ≡ time_of published changed taken_in
time_of_lem none none taken_in = refl
time_of_lem none (some changed) taken_in = refl
time_of_lem (some published) changed taken_in = refl

module _ {F : Type 0} where
  is_deleted-lookup :
      (cutoff id : String) (rows : Table (ItemRow F))
      → Unique rows
      → is_deleted cutoff rows id ≡ is_some_and (lookup id rows) (is_expired cutoff)
  unfolding lookup
  is_deleted-lookup cutoff id [] u = refl
  is_deleted-lookup cutoff id ((j, row) ∷ rows) u = elim (Bool-cases (j == id)) [
    | inl e ↦
        let absent : lookup id rows ≡ none =
          subst (λ k. lookup k rows ≡ none) ((eq_iff j id).0 e) u.0 in
        ground (arith, is_deleted-lookup cutoff id rows u.1, absent)
    | inr e ↦ ground (arith, is_deleted-lookup cutoff id rows u.1)
  ]

  -- Of the items, those that do not pass are stored as they were, with what belongs to them.
  pub record Retained (old : ItemRow F → Bool) (store after : Store F) : Type 0 where
    pub valid : IsValid after
    pub row :
        (id : String)
        → lookup id after.items ≡ passing (λ row. not (old row)) (lookup id store.items)
    pub category :
        (id value : String)
        → has_pair id value after.item_categories ≡ (
            not (is_some_and (lookup id store.items) old)
            && has_pair id value store.item_categories)
    pub cve :
        (id value : String)
        → has_pair id value after.item_cves
          ≡ (not (is_some_and (lookup id store.items) old) && has_pair id value store.item_cves)

  delete_news-Retained :
      (cutoff : String) (store : Store F)
      → IsValid store
      → Retained (is_expired cutoff) store (delete_news cutoff store)
  unfolding delete_news
  delete_news-Retained cutoff store v =
      let gone = λ (id : String). is_deleted-lookup cutoff id store.items v.keys in
      let kept = λ (id : String). not (is_deleted cutoff store.items id) in
      record {
        valid = record {
          keys = Unique-keep (λ row. not (is_expired cutoff row)) store.items v.keys;
          kinds = All-keep_rows _ _ store.items v.kinds;
        };
        row = λ id. lookup-keep (λ row. not (is_expired cutoff row)) id store.items v.keys;
        category = λ id value.
            has_pair-keep kept id value store.item_categories
            ∙ ap (λ b. not b && has_pair id value store.item_categories) (gone id);
        cve = λ id value.
            has_pair-keep kept id value store.item_cves
            ∙ ap (λ b. not b && has_pair id value store.item_cves) (gone id);
      }

  passing-all : (row : Option (ItemRow F)) → row ≡ passing (λ r. true) row
  passing-all none = refl
  passing-all (some row) = refl

  none_old : (row : Option (ItemRow F)) → is_some_and row (λ r. false) ≡ false
  none_old none = refl
  none_old (some row) = refl

  Retained-all : (store : Store F) → IsValid store → Retained (λ row. false) store store
  Retained-all store v = record {
    valid = v;
    row = λ id. passing-all (lookup id store.items);
    category = λ id value. rw (none_old (lookup id store.items));
    cve = λ id value. rw (none_old (lookup id store.items));
  }

  Retained-runs :
      (old new : ItemRow F → Bool) (cutoff : String) (store after : Store F)
      → new ≡ old
      → Retained old store after
      → Retained new store (delete_runs cutoff after)
  Retained-runs old new cutoff store after e r =
      subst⁻¹ (λ p. Retained p store (delete_runs cutoff after)) e
        (record {
          valid = record { keys = r.valid.keys; kinds = r.valid.kinds };
          row = r.row;
          category = r.category;
          cve = r.cve;
        })

  -- A retention of some days is set, and a piece of news is from before the cutoff.
  abbrev pub expired_news : String → ℕ → ItemRow F → Bool
  expired_news cutoff days row =
      ltb 0 days
      && row.kind == "news"
      && text_lt (time_of row.published_at row.source_updated_at row.ingested_at) cutoff

  is_expired_lem :
      (cutoff : String) (row : ItemRow F)
      → is_expired cutoff row ≡ (
          row.kind == "news"
          && text_lt (time_of row.published_at row.source_updated_at row.ingested_at) cutoff)
  unfolding is_expired effective_timestamp
  is_expired_lem cutoff row =
      ap (λ time. row.kind == "news" && text_lt time cutoff)
        (time_of_lem row.published_at row.source_updated_at row.ingested_at)

  -- In a valid table of items, what has been published, or else changed at its source, or else taken
  -- in before the cutoff is deleted if it is news and a retention of some days is set. Every other
  -- item is stored as it was, a CVE whatever its age; the categories and the CVEs of the deleted
  -- items are gone and those of the others are as they were; of the runs, those that did not end
  -- before their own cutoff are left; and the table stays valid.
  pub cleanup_retention_lem :
      (days_ago : ℕ → String) (news_days run_days : ℕ) (store : Store F)
      → IsValid store
      → Retained
          (expired_news (days_ago news_days) news_days)
          store
          (cleanup_retention days_ago news_days run_days store)
        × ((cleanup_retention days_ago news_days run_days store).ingestion_runs
            ≡ keep (λ run. not (text_lt run.finished_at (days_ago run_days))) store.ingestion_runs)
  unfolding cleanup_retention delete_news
  cleanup_retention_lem days_ago news_days run_days store v = elim (Bool-cases (ltb 0 news_days)) [
    | inl e ↦ rw e (
      Retained-runs (is_expired (days_ago news_days)) _ (days_ago run_days) store
          (delete_news (days_ago news_days) store)
          (fun_ext (λ row. ground (arith, is_expired_lem (days_ago news_days) row)))
          (delete_news-Retained (days_ago news_days) store v),
      refl,
    )
    | inr e ↦ rw e (
      Retained-runs (λ row. false) _ (days_ago run_days) store store (fun_ext (λ row. ground arith))
          (Retained-all store v),
      refl,
    )
  ]
