-- ===== src/Db/Store.antt =====
-- The tables of src/db.rs (src/schema.sql). A table with a primary key is an association list, and
-- a row of `items` is what the item says but for its ID, which is the key. Columns that no statement
-- reads (`updated_at`) are left out; what the `REFERENCES` clauses promise is that a deleted item
-- takes its rows of `item_categories` and `item_cves` with it.
use cyberwatch_rs.Prelude.{unwrap_or, ℕ, String, Bool, Option, none, some, List}
use cyberwatch_rs.Prelude.Table.{Table}
use cyberwatch_rs.Models.{EvidenceInput, ValidationInput, SourceCacheEntry, IngestionRunInput}

pub record ItemRow (F : Type 0) : Type 0 where
  pub kind : String
  pub cve_id : Option String
  pub title : String
  pub summary : String
  pub url : String
  pub source_id : String
  pub source_name : String
  pub source_region : String
  pub source_language : String
  pub source_trust : ℕ
  pub severity : Option String
  pub cvss_score : Option F
  pub published_at : Option String
  pub source_updated_at : Option String
  pub ingested_at : String
  pub exploited : Bool
  pub kev_date_added : Option String
  pub remediation : Option String
  pub due_date : Option String
  pub ransomware_use : Option String
  pub vendor : Option String
  pub product : Option String
  pub raw_json : Option String
  pub content_hash : String

pub record Store (F : Type 0) : Type 0 where
  pub items : Table (ItemRow F)
  pub item_categories : Table String
  pub item_cves : Table String
  pub cve_evidence : List (EvidenceInput F)
  pub cve_validation : Table (ValidationInput F)
  -- The newest first: `ORDER BY id DESC`.
  pub ingestion_runs : List IngestionRunInput
  pub sync_state : Table String
  pub source_cache : Table SourceCacheEntry

-- A `CHECK` of the schema fails: the statement and with it the transaction.
pub data DbError : Type 0 where
  check_failed : DbError

-- `COALESCE(a, b)`
abbrev pub coalesce {ℓ} : {A : Type ℓ} → Option A → Option A → Option A
coalesce none b = b
coalesce (some a) b = some a

-- `COALESCE(published_at, source_updated_at, ingested_at)`
unfoldable pub effective_timestamp : {F : Type 0} → ItemRow F → String
effective_timestamp row =
    unwrap_or (coalesce row.published_at row.source_updated_at) row.ingested_at
