-- ===== src/Ingest/Tally.antt =====
-- The loop of `run_sources` of src/ingest/mod.rs: the sources run at the same time, and their
-- outcomes are added up in the order in which they finish.
pub mod Laws
use Prim.Native.String as Native
use cyberwatch_rs.Prelude.{
  ◌==◌, text_eq, if◌then◌else◌, Result, ok, err, ℕ, ◌+◌, String, ◌||◌, Option, none, some, List, [],
  ◌∷◌, ◌++◌,
}
use cyberwatch_rs.Models.{RefreshReport}
use cyberwatch_rs.Http.Fetch.{saturating_add}

pub record SourceRunOutcome : Type 0 where
  pub status : String
  pub fetched : ℕ
  pub upserted : ℕ
  pub error : Option String

-- The report before any source has finished.
unfoldable pub new_report : String → String → ℕ → RefreshReport
new_report job_id started_at sources_total = record {
  job_id = job_id;
  started_at = started_at;
  finished_at = "";
  sources_total = sources_total;
  sources_succeeded = 0;
  sources_failed = 0;
  sources_skipped = 0;
  fetched = 0;
  upserted = 0;
  validated = 0;
  errors = [];
}

abbrev pub if_some : Option String → List String → List String
if_some none errors = errors
if_some (some error) errors = errors ++ error ∷ []

-- One finished source. An error's text is the one that `{error:#}` prints.
unfoldable pub add_outcome : RefreshReport → Result String SourceRunOutcome → RefreshReport
add_outcome report (ok outcome) = record {
  job_id = report.job_id;
  started_at = report.started_at;
  finished_at = report.finished_at;
  sources_total = report.sources_total;
  sources_succeeded =
      if outcome.status == "success"
      then report.sources_succeeded + 1
      else report.sources_succeeded;
  sources_skipped =
      if outcome.status == "skipped" then report.sources_skipped + 1 else report.sources_skipped;
  sources_failed =
      if outcome.status == "success" || outcome.status == "skipped"
      then report.sources_failed
      else report.sources_failed + 1;
  fetched = saturating_add report.fetched outcome.fetched;
  upserted = saturating_add report.upserted outcome.upserted;
  validated = report.validated;
  errors = if_some outcome.error report.errors;
}
add_outcome report (err error) = record {
  job_id = report.job_id;
  started_at = report.started_at;
  finished_at = report.finished_at;
  sources_total = report.sources_total;
  sources_succeeded = report.sources_succeeded;
  sources_skipped = report.sources_skipped;
  sources_failed = report.sources_failed + 1;
  fetched = report.fetched;
  upserted = report.upserted;
  validated = report.validated;
  errors = report.errors ++ Native.◌++◌ "source worker failed: " error ∷ [];
}

unfoldable pub add_outcomes : RefreshReport → List (Result String SourceRunOutcome) → RefreshReport
unfolding add_outcome
add_outcomes report [] = report
add_outcomes report (outcome ∷ more) = add_outcomes (add_outcome report outcome) more
