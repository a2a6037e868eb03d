-- ===== src/Models/Stored.antt =====
-- src/models.rs: what the repository holds and the interface serves.
use cyberwatch_rs.Prelude.{ℕ, String, Bool, Option, List}
use cyberwatch_rs.Prelude.Table.{Table}

pub record ItemRecord (F : Type 0) : Type 0 where
  pub id : String
  pub kind : String
  pub cve_id : Option String
  pub title : String
  pub summary : String
  pub url : String
  pub source_id : String
  pub source_name : String
  pub source_region : String
  pub source_language : String
  pub source_trust : ℕ
  pub severity : Option String
  pub cvss_score : Option F
  pub published_at : Option String
  pub source_updated_at : Option String
  pub ingested_at : String
  pub effective_timestamp : String
  pub exploited : Bool
  pub kev_date_added : Option String
  pub remediation : Option String
  pub due_date : Option String
  pub ransomware_use : Option String
  pub vendor : Option String
  pub product : Option String
  pub categories : List String
  pub confidence : Option String
  pub independent_sources : Option ℕ
  pub authoritative_sources : Option ℕ
  pub severity_disagreement : Option Bool
  pub cvss_disagreement : Option Bool
  pub uncorroborated_exploitation : Option Bool
  pub epss_probability : Option F
  pub epss_percentile : Option F

pub record ItemPage (F : Type 0) : Type 0 where
  pub items : List (ItemRecord F)
  pub next_cursor : Option String

pub record EvidenceRecord (F : Type 0) : Type 0 where
  pub cve_id : String
  pub source_id : String
  pub source_name : String
  pub evidence_type : String
  pub status : Option String
  pub severity : Option String
  pub cvss_score : Option F
  pub exploited : Option Bool
  pub vendor : Option String
  pub product : Option String
  pub published_at : Option String
  pub updated_at : Option String
  pub summary : Option String
  pub url : Option String
  pub authoritative : Bool
  pub observed_at : String

pub record ValidationRecord (F : Type 0) : Type 0 where
  pub cve_id : String
  pub confidence : String
  pub independent_sources : ℕ
  pub authoritative_sources : ℕ
  pub severity_disagreement : Bool
  pub cvss_disagreement : Bool
  pub uncorroborated_exploitation : Bool
  pub missing_canonical : Bool
  pub canonical_status : Option String
  pub epss_probability : Option F
  pub epss_percentile : Option F
  pub calculated_at : String

pub record CveDetail (F : Type 0) : Type 0 where
  pub item : ItemRecord F
  pub evidence : List (EvidenceRecord F)
  pub validation : Option (ValidationRecord F)

pub record Stats : Type 0 where
  pub total_items : ℕ
  pub news_items : ℕ
  pub cve_items : ℕ
  pub critical_cves : ℕ
  pub high_cves : ℕ
  pub exploited_cves : ℕ
  pub kev_cves : ℕ
  pub validated_cves : ℕ
  pub sources_seen : ℕ
  pub categories : Table ℕ
  pub generated_at : String

pub record SourceHealth : Type 0 where
  pub source_id : String
  pub source_name : String
  pub source_kind : String
  pub last_status : String
  pub last_run_at : Option String
  pub last_success_at : Option String
  pub failures_24h : ℕ
  pub last_error : Option String
  pub backoff_until : Option String

pub record SourceCacheEntry : Type 0 where
  pub etag : Option String
  pub last_modified : Option String
  pub content_hash : String

pub record EpssScore (F : Type 0) : Type 0 where
  pub probability : F
  pub percentile : F

pub record PageCursor : Type 0 where
  pub timestamp : String
  pub id : String
