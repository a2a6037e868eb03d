-- ===== src/Models/Input.antt =====
-- src/models.rs: what the sources emit.
use cyberwatch_rs.Prelude.{ℕ, String, Bool, true, false, ◌&&◌, Option, List, [], ◌∷◌, ◌++◌}

pub record ItemInput (F : Type 0) : Type 0 where
  pub id : String
  pub kind : String
  pub cve_id : Option String
  pub title : String
  pub summary : String
  pub url : String
  pub source_id : String
  pub source_name : String
  pub source_region : String
  pub source_language : String
  pub source_trust : ℕ
  pub severity : Option String
  pub cvss_score : Option F
  pub published_at : Option String
  pub source_updated_at : Option String
  pub ingested_at : String
  pub exploited : Bool
  pub kev_date_added : Option String
  pub remediation : Option String
  pub due_date : Option String
  pub ransomware_use : Option String
  pub vendor : Option String
  pub product : Option String
  pub raw_json : Option String
  pub content_hash : String
  pub categories : List String
  pub cves : List String

pub record EvidenceInput (F : Type 0) : Type 0 where
  pub cve_id : String
  pub source_id : String
  pub source_name : String
  pub evidence_type : String
  pub status : Option String
  pub severity : Option String
  pub cvss_score : Option F
  pub exploited : Option Bool
  pub vendor : Option String
  pub product : Option String
  pub published_at : Option String
  pub updated_at : Option String
  pub summary : Option String
  pub url : Option String
  pub raw_json : Option String
  pub authoritative : Bool
  pub observed_at : String

pub record ValidationInput (F : Type 0) : Type 0 where
  pub cve_id : String
  pub confidence : String
  pub independent_sources : ℕ
  pub authoritative_sources : ℕ
  pub severity_disagreement : Bool
  pub cvss_disagreement : Bool
  pub uncorroborated_exploitation : Bool
  pub missing_canonical : Bool
  pub canonical_status : Option String
  pub epss_probability : Option F
  pub epss_percentile : Option F
  pub calculated_at : String

pub record SyncUpdate : Type 0 where
  pub key : String
  pub value : String

pub record SourceCacheUpdate : Type 0 where
  pub source_id : String
  pub etag : Option String
  pub last_modified : Option String
  pub content_hash : String

pub record IngestBatch (F : Type 0) : Type 0 where
  pub items : List (ItemInput F)
  pub evidence : List (EvidenceInput F)
  pub sync_updates : List SyncUpdate
  pub cache_updates : List SourceCacheUpdate

-- `IngestBatch::default`, `extend` and `is_empty`.
abbrev pub empty_batch : {F : Type 0} → IngestBatch F
empty_batch = record { items = []; evidence = []; sync_updates = []; cache_updates = [] }

unfoldable pub extend : {F : Type 0} → IngestBatch F → IngestBatch F → IngestBatch F
extend batch other = record {
  items = batch.items ++ other.items;
  evidence = batch.evidence ++ other.evidence;
  sync_updates = batch.sync_updates ++ other.sync_updates;
  cache_updates = batch.cache_updates ++ other.cache_updates;
}

abbrev pub is_nil {ℓ} : {A : Type ℓ} → List A → Bool
is_nil [] = true
is_nil (x ∷ xs) = false

unfoldable pub is_empty : {F : Type 0} → IngestBatch F → Bool
is_empty batch =
    is_nil batch.items
    && is_nil batch.evidence
    && is_nil batch.sync_updates
    && is_nil batch.cache_updates
