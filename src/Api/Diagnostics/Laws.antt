-- ===== src/Api/Diagnostics/Laws.antt =====
-- What an answer tells of an error: that there is one, and no more.
use cyberwatch_rs.Prelude.{
  length, is_some, String, ◌≡◌, refl, Option, none, some, List, [], ◌∷◌, arith,
}
use cyberwatch_rs.Models.{RefreshReport, RefreshStatus}
use cyberwatch_rs.Api.Diagnostics.{hide, hide_all, hide_report, refresh_status}

hide_all-length : (xs ys : List String) → length xs ≡ length ys → hide_all xs ≡ hide_all ys
unfolding hide_all
hide_all-length [] [] h = refl
hide_all-length [] (y ∷ ys) h = absurd (omega (arith, h))
hide_all-length (x ∷ xs) [] h = absurd (omega (arith, h))
hide_all-length (x ∷ xs) (y ∷ ys) h = rw (hide_all-length xs ys (omega (arith, h))) refl

abbrev pub with_errors : List String → Option RefreshReport → Option RefreshReport
with_errors errors none = none
with_errors errors (some report) = some (record report { errors = errors })

-- A status with other texts of errors: its own error's, where it has one, and its report's, where it
-- has one.
abbrev pub failed_with : RefreshStatus → Option String → List String → RefreshStatus
failed_with status error errors = record status {
  error = error;
  report = with_errors errors status.report;
}

hide_same :
    (message : String) (error other : Option String)
    → is_some error ≡ is_some other
    → hide message error ≡ hide message other
hide_same message none none h = refl
hide_same message none (some other) h = cc
hide_same message (some error) none h = cc
hide_same message (some error) (some other) h = refl

hide_report_same :
    (report : Option RefreshReport) (errors others : List String)
    → length errors ≡ length others
    → hide_report (with_errors errors report) ≡ hide_report (with_errors others report)
hide_report_same none errors others h = refl
hide_report_same (some report) errors others h = rw (hide_all-length errors others h) refl

-- The answer does not depend on the text of any error, whether the status has an error, a report,
-- both or neither: two statuses that differ only in those texts, with as many errors in their
-- reports, are answered alike.
pub refresh_status-hides :
    (status : RefreshStatus) (error other : Option String) (errors others : List String)
    → is_some error ≡ is_some other
    → length errors ≡ length others
    → refresh_status (failed_with status error errors)
      ≡ refresh_status (failed_with status other others)
unfolding refresh_status
refresh_status-hides status error other errors others same h =
    rw
      (
        hide_same "refresh failed; inspect server logs" error other same,
        hide_report_same status.report errors others h,
      )
      refl
