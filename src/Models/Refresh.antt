-- ===== src/Models/Refresh.antt =====
-- src/models.rs: the runs of the sources, and the state of a refresh.
use cyberwatch_rs.Prelude.{ℕ, String, Bool, Option, none, List}

pub record IngestionRunInput : Type 0 where
  pub job_id : String
  pub source_id : String
  pub source_name : String
  pub source_kind : String
  pub status : String
  pub fetched : ℕ
  pub upserted : ℕ
  pub error : Option String
  pub started_at : String
  pub finished_at : String
  pub duration_ms : ℕ

pub record SourceDescriptor : Type 0 where
  pub id : String
  pub name : String
  pub kind : String
  pub region : String
  pub language : String
  pub role : String
  pub trust : ℕ
  pub timeout_seconds : ℕ
  pub retry_attempts : ℕ

pub record RefreshReport : Type 0 where
  pub job_id : String
  pub started_at : String
  pub finished_at : String
  pub sources_total : ℕ
  pub sources_succeeded : ℕ
  pub sources_failed : ℕ
  pub sources_skipped : ℕ
  pub fetched : ℕ
  pub upserted : ℕ
  pub validated : ℕ
  pub errors : List String

pub record RefreshStatus : Type 0 where
  pub job_id : Option String
  pub state : String
  pub reason : Option String
  pub queued_at : Option String
  pub started_at : Option String
  pub finished_at : Option String
  pub report : Option RefreshReport
  pub error : Option String

pub record RefreshAccepted : Type 0 where
  pub accepted : Bool
  pub job_id : String
  pub state : String

-- `RefreshStatus::default`
abbrev pub default_status : RefreshStatus
default_status = record {
  job_id = none;
  state = "idle";
  reason = none;
  queued_at = none;
  started_at = none;
  finished_at = none;
  report = none;
  error = none;
}
