-- ===== src/Db/Items.antt =====
-- `apply_batch`, `upsert_evidence` and `upsert_validations` of src/db.rs.
pub mod Merge
pub mod Batch
pub mod Growth
mod Tests
use cyberwatch_rs.Prelude.{
  leb, ◌==◌, text_eq, if◌then◌else◌, length, any, ◌>>=◌, ◌>>◌, bail_if, Result, ok, err, ℕ, ◌-◌,
  ◌^◌, min, max, String, Bool, not, ◌&&◌, ◌||◌, Option, none, some, List, [], ◌∷◌,
}
use cyberwatch_rs.Prelude.Table.{Table, lookup, upsert, delete}
use cyberwatch_rs.Prelude.Order.{min_text, max_text}
use cyberwatch_rs.Prelude.Float.{Float}
use cyberwatch_rs.Models.{
  is_empty, ItemInput, EvidenceInput, ValidationInput, SyncUpdate, SourceCacheUpdate, IngestBatch,
  SourceCacheEntry, IngestionRunInput,
}
use cyberwatch_rs.Db.Store.{coalesce, ItemRow, Store, DbError, check_failed}

-- The numbers of a run, as a signed column of 64 bits holds them: `try_from(...).unwrap_or(i64::MAX)`.
abbrev pub stored_run : IngestionRunInput → IngestionRunInput
stored_run run = record run {
  fetched = min run.fetched (2 ^ 63 - 1);
  upserted = min run.upserted (2 ^ 63 - 1);
  duration_ms = min run.duration_ms (2 ^ 63 - 1);
}

module _ {F : Type 0} where
  -- The row that `INSERT` writes.
  unfoldable pub row_of : ItemInput F → ItemRow F
  row_of item = record {
    kind = item.kind;
    cve_id = item.cve_id;
    title = item.title;
    summary = item.summary;
    url = item.url;
    source_id = item.source_id;
    source_name = item.source_name;
    source_region = item.source_region;
    source_language = item.source_language;
    source_trust = item.source_trust;
    severity = item.severity;
    cvss_score = item.cvss_score;
    published_at = item.published_at;
    source_updated_at = item.source_updated_at;
    ingested_at = item.ingested_at;
    exploited = item.exploited;
    kev_date_added = item.kev_date_added;
    remediation = item.remediation;
    due_date = item.due_date;
    ransomware_use = item.ransomware_use;
    vendor = item.vendor;
    product = item.product;
    raw_json = item.raw_json;
    content_hash = item.content_hash;
  }

-- The ranks of the severities in the statement; `NULL` and any other text have 0.
abbrev pub rank_of : String → ℕ
rank_of severity =
    if severity == "critical"
    then 5
    else if severity == "high"
    then 4
    else if severity == "medium"
    then 3
    else if severity == "low"
    then 2
    else if severity == "none"
    then 1
    else 0

unfoldable pub stored_rank : Option String → ℕ
stored_rank none = 0
stored_rank (some severity) = rank_of severity

-- Of two values that may be missing, one that is there, or both combined.
abbrev pub either {ℓ} : {A : Type ℓ} → (A → A → A) → Option A → Option A → Option A
either f none b = b
either f (some a) none = some a
either f (some a) (some b) = some (f a b)

module _ {F : Type 0} (float : Float F) where
  -- `ON CONFLICT(id) DO UPDATE`: a source that is trusted as much as the stored one replaces what
  -- the item says; the rest is combined, whoever says it.
  unfoldable pub merge : ItemRow F → ItemRow F → ItemRow F
  unfolding stored_rank min_text max_text
  merge stored excluded =
      let trusted = leb stored.source_trust excluded.source_trust in
      record {
        kind = excluded.kind;
        cve_id = coalesce excluded.cve_id stored.cve_id;
        title = if trusted then excluded.title else stored.title;
        summary =
            if trusted && not (excluded.summary == "") then excluded.summary else stored.summary;
        url = if trusted then excluded.url else stored.url;
        source_id = if trusted then excluded.source_id else stored.source_id;
        source_name = if trusted then excluded.source_name else stored.source_name;
        source_region = if trusted then excluded.source_region else stored.source_region;
        source_language = if trusted then excluded.source_language else stored.source_language;
        source_trust = max stored.source_trust excluded.source_trust;
        severity =
            if leb (stored_rank stored.severity) (stored_rank excluded.severity)
            then coalesce excluded.severity stored.severity
            else stored.severity;
        cvss_score = either float.maximum stored.cvss_score excluded.cvss_score;
        published_at = either min_text stored.published_at excluded.published_at;
        source_updated_at = either max_text stored.source_updated_at excluded.source_updated_at;
        ingested_at = excluded.ingested_at;
        exploited = stored.exploited || excluded.exploited;
        kev_date_added = coalesce excluded.kev_date_added stored.kev_date_added;
        remediation = coalesce excluded.remediation stored.remediation;
        due_date = coalesce excluded.due_date stored.due_date;
        ransomware_use = coalesce excluded.ransomware_use stored.ransomware_use;
        vendor = coalesce excluded.vendor stored.vendor;
        product = coalesce excluded.product stored.product;
        raw_json = if trusted then excluded.raw_json else stored.raw_json;
        content_hash = excluded.content_hash;
      }

  abbrev pub merged_with : Option (ItemRow F) → ItemRow F → ItemRow F
  merged_with none excluded = excluded
  merged_with (some stored) excluded = merge stored excluded

-- `INSERT OR IGNORE` of a pair.
abbrev pub insert_pair : String → String → Table String → Table String
insert_pair id value rows =
    if any (λ (row : String × String). row.0 == id && row.1 == value) rows
    then rows
    else (id, value) ∷ rows

unfoldable pub insert_pairs : String → List String → Table String → Table String
insert_pairs id [] rows = rows
insert_pairs id (value ∷ values) rows = insert_pairs id values (insert_pair id value rows)

-- `DELETE` of what belongs to the item, and the new values.
unfoldable pub replace_pairs : String → List String → Table String → Table String
unfolding insert_pairs delete
replace_pairs id values rows = insert_pairs id values (delete id rows)

unfoldable pub write_sync : List SyncUpdate → Table String → Table String
unfolding upsert
write_sync [] rows = rows
write_sync (update ∷ updates) rows = write_sync updates (upsert update.key update.value rows)

unfoldable pub write_cache :
    List SourceCacheUpdate → Table SourceCacheEntry → Table SourceCacheEntry
unfolding upsert
write_cache [] rows = rows
write_cache (update ∷ updates) rows = write_cache updates (
    upsert update.source_id
      (record {
        etag = update.etag;
        last_modified = update.last_modified;
        content_hash = update.content_hash;
      })
      rows)

module _ {F : Type 0} where
  -- The primary key of `cve_evidence`.
  abbrev pub same_evidence : EvidenceInput F → EvidenceInput F → Bool
  same_evidence a b =
      a.cve_id == b.cve_id && a.source_id == b.source_id && a.evidence_type == b.evidence_type

  unfoldable pub upsert_record : EvidenceInput F → List (EvidenceInput F) → List (EvidenceInput F)
  upsert_record new [] = new ∷ []
  upsert_record new (old ∷ rows) =
      if same_evidence old new then new ∷ rows else old ∷ upsert_record new rows

  unfoldable pub upsert_evidence_in_transaction :
      List (EvidenceInput F) → List (EvidenceInput F) → List (EvidenceInput F)
  unfolding upsert_record
  upsert_evidence_in_transaction [] rows = rows
  upsert_evidence_in_transaction (new ∷ evidence) rows =
      upsert_evidence_in_transaction evidence (upsert_record new rows)

  -- A transaction that is dropped before its commit leaves the store as it was.
  unfoldable pub commit {ℓ} :
      {A : Type ℓ} → A → Store F → Result DbError (Store F) → Result DbError A × Store F
  commit a store (ok written) = (ok a, written)
  commit a store (err e) = (err e, store)

  unfoldable pub upsert_evidence : List (EvidenceInput F) → Store F → Store F
  unfolding upsert_evidence_in_transaction
  upsert_evidence evidence store = record store {
    cve_evidence = upsert_evidence_in_transaction evidence store.cve_evidence;
  }

  unfoldable pub write_validations :
      List (ValidationInput F) → Table (ValidationInput F) → Table (ValidationInput F)
  unfolding upsert
  write_validations [] rows = rows
  write_validations (validation ∷ validations) rows =
      write_validations validations (upsert validation.cve_id validation rows)

  unfoldable pub upsert_validations : List (ValidationInput F) → Store F → Store F
  unfolding write_validations
  upsert_validations validations store = record store {
    cve_validation = write_validations validations store.cve_validation;
  }

  unfoldable pub record_ingestion_run : IngestionRunInput → Store F → Store F
  record_ingestion_run run store = record store {
    ingestion_runs = stored_run run ∷ store.ingestion_runs;
  }

  unfoldable pub get_source_cache : String → Store F → Option SourceCacheEntry
  unfolding lookup
  get_source_cache source_id store = lookup source_id store.source_cache

module _ {F : Type 0} (float : Float F) where
  unfoldable pub upsert_item : ItemInput F → Store F → Result DbError (Store F)
  unfolding row_of merge upsert lookup replace_pairs
  upsert_item item store = do
    bail_if (not (item.kind == "news" || item.kind == "cve")) check_failed
    ok (record store {
      items =
          upsert item.id (merged_with float (lookup item.id store.items) (row_of item)) store.items;
      item_categories = replace_pairs item.id item.categories store.item_categories;
      item_cves = replace_pairs item.id item.cves store.item_cves;
    })

  unfoldable pub upsert_items : List (ItemInput F) → Store F → Result DbError (Store F)
  unfolding upsert_item
  upsert_items [] store = ok store
  upsert_items (item ∷ items) store = upsert_item item store >>= upsert_items items

  -- The statements of the transaction, in their order.
  unfoldable pub transaction : IngestBatch F → Store F → Result DbError (Store F)
  unfolding upsert_items upsert_evidence_in_transaction write_sync write_cache
  transaction batch store = do
    written ← upsert_items batch.items store
    ok (record written {
      cve_evidence = upsert_evidence_in_transaction batch.evidence written.cve_evidence;
      sync_state = write_sync batch.sync_updates written.sync_state;
      source_cache = write_cache batch.cache_updates written.source_cache;
    })

  unfoldable pub apply_batch : IngestBatch F → Store F → Result DbError ℕ × Store F
  unfolding is_empty transaction commit
  apply_batch batch store =
      if is_empty batch
      then (ok 0, store)
      else commit (length batch.items) store (transaction batch store)
