-- ===== src/Api/Diagnostics.antt =====
-- `refresh_status` of src/api.rs: the status of the refresh, without the texts of its errors.
pub mod Laws
use cyberwatch_rs.Prelude.{String, Option, none, some, List, [], ◌∷◌}
use cyberwatch_rs.Models.{RefreshReport, RefreshStatus}

abbrev pub hide : String → Option String → Option String
hide message none = none
hide message (some error) = some message

unfoldable pub hide_all : List String → List String
hide_all [] = []
hide_all (error ∷ errors) = "source stage failed; inspect server logs" ∷ hide_all errors

abbrev pub hide_report : Option RefreshReport → Option RefreshReport
hide_report none = none
hide_report (some report) = some (record report { errors = hide_all report.errors })

unfoldable pub refresh_status : RefreshStatus → RefreshStatus
unfolding hide_all
refresh_status status = record status {
  error = hide "refresh failed; inspect server logs" status.error;
  report = hide_report status.report;
}
