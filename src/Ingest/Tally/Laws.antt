-- ===== src/Ingest/Tally/Laws.antt =====
-- Every source is counted once, and the numbers do not depend on the order in which sources finish.
use native.Mathlib.Nat.{ℕ_set}
use mathlib.Core.Logic.{∥∥₁_elim}
use mathlib.Core.List.{Perm, Permᴰ}
use text.Mathlib.TextEquality.{eq_iff}
use cyberwatch_rs.Prelude.{
  ◌==◌, text_eq, Bool-cases, length, Result, ok, err, ℕ, ◌+◌, ◌≤◌, min, String, ◌≡◌, refl, ◌∙◌, inl,
  inr, Bool, true, false, not, ◌||◌, List, [], ◌∷◌, arith,
}
use cyberwatch_rs.Models.{RefreshReport}
use cyberwatch_rs.Http.Fetch.{usize_max}
use cyberwatch_rs.Ingest.Tally.{new_report, add_outcome, add_outcomes, SourceRunOutcome}

abbrev pub Outcome : Type 0
Outcome = Result String SourceRunOutcome

-- The sum of a number over a list.
abbrev pub total : (Outcome → ℕ) → List Outcome → ℕ
total weight [] = 0
total weight (outcome ∷ more) = weight outcome + total weight more

abbrev one_if : Bool → ℕ
one_if true = 1
one_if false = 0

abbrev pub succeeded : Outcome → ℕ
succeeded (ok outcome) = one_if (outcome.status == "success")
succeeded (err error) = 0

abbrev pub skipped : Outcome → ℕ
skipped (ok outcome) = one_if (outcome.status == "skipped")
skipped (err error) = 0

abbrev pub failed : Outcome → ℕ
failed (ok outcome) = one_if (not (outcome.status == "success" || outcome.status == "skipped"))
failed (err error) = 1

abbrev pub fetched_of : Outcome → ℕ
fetched_of (ok outcome) = outcome.fetched
fetched_of (err error) = 0

abbrev pub upserted_of : Outcome → ℕ
upserted_of (ok outcome) = outcome.upserted
upserted_of (err error) = 0

-- What a report says when the numbers of some outcomes are added to those of a start.
pub record IsTally (start : RefreshReport) (outcomes : List Outcome) (end : RefreshReport)
    : Type 0 where
  pub succeeded_sum : end.sources_succeeded ≡ start.sources_succeeded + total succeeded outcomes
  pub skipped_sum : end.sources_skipped ≡ start.sources_skipped + total skipped outcomes
  pub failed_sum : end.sources_failed ≡ start.sources_failed + total failed outcomes
  pub fetched_sum : end.fetched ≡ min (start.fetched + total fetched_of outcomes) usize_max
  pub upserted_sum : end.upserted ≡ min (start.upserted + total upserted_of outcomes) usize_max

abbrev Small : RefreshReport → Type 0
Small report = (report.fetched ≤ usize_max) × (report.upserted ≤ usize_max)

add_outcome-Small :
    (report : RefreshReport) (outcome : Outcome) → Small report → Small (add_outcome report outcome)
unfolding add_outcome
add_outcome-Small report (ok outcome) h = (ground arith, ground arith)
add_outcome-Small report (err error) h = h

add_outcomes-IsTally :
    (report : RefreshReport) (outcomes : List Outcome)
    → Small report
    → IsTally report outcomes (add_outcomes report outcomes)
unfolding add_outcomes add_outcome
add_outcomes-IsTally report [] h = record {
  succeeded_sum = omega arith;
  skipped_sum = omega arith;
  failed_sum = omega arith;
  fetched_sum = ground arith;
  upserted_sum = ground arith;
}
add_outcomes-IsTally report (ok outcome ∷ more) h =
    let t =
      add_outcomes-IsTally (add_outcome report (ok outcome)) more
        (add_outcome-Small report (ok outcome) h) in
    record {
      succeeded_sum = ground (arith, t.succeeded_sum);
      skipped_sum = ground (arith, t.skipped_sum);
      failed_sum = ground (arith, t.failed_sum);
      fetched_sum = ground (arith, t.fetched_sum);
      upserted_sum = ground (arith, t.upserted_sum);
    }
add_outcomes-IsTally report (err error ∷ more) h =
    let t =
      add_outcomes-IsTally (add_outcome report (err error)) more
        (add_outcome-Small report (err error) h) in
    record {
      succeeded_sum = ground (arith, t.succeeded_sum);
      skipped_sum = ground (arith, t.skipped_sum);
      failed_sum = ground (arith, t.failed_sum);
      fetched_sum = ground (arith, t.fetched_sum);
      upserted_sum = ground (arith, t.upserted_sum);
    }

total-Permᴰ :
    (weight : Outcome → ℕ) {xs ys : List Outcome} → Permᴰ xs ys → total weight xs ≡ total weight ys
total-Permᴰ weight Permᴰ.nil = refl
total-Permᴰ weight (Permᴰ.cons e p) = rw (e, total-Permᴰ weight p) refl
total-Permᴰ weight (Permᴰ.swap e f) = rw (e, f) (omega arith)
total-Permᴰ weight (Permᴰ.trans p q) = total-Permᴰ weight p ∙ total-Permᴰ weight q

total-Perm :
    (weight : Outcome → ℕ) {xs ys : List Outcome} → Perm xs ys → total weight xs ≡ total weight ys
total-Perm weight p = ∥∥₁_elim p (ℕ_set _ _) (total-Permᴰ weight)

once_by_status :
    (status : String)
    → one_if (status == "success")
        + one_if (status == "skipped")
        + one_if (not (status == "success" || status == "skipped"))
      ≡ 1
once_by_status status = elim (Bool-cases (status == "success")) [
  | inl h ↦ let e : status ≡ "success" = ground (arith, eq_iff status "success") in rw e refl
  | inr h ↦ ground arith
]

counted :
    (outcomes : List Outcome)
    → total succeeded outcomes + total skipped outcomes + total failed outcomes ≡ length outcomes
counted [] = refl
counted (ok outcome ∷ more) = omega (arith, counted more, once_by_status outcome.status)
counted (err error ∷ more) = omega (arith, counted more)

module _ (job_id started_at : String) (sources_total : ℕ) where
  abbrev run_report : List Outcome → RefreshReport
  run_report outcomes = add_outcomes (new_report job_id started_at sources_total) outcomes

  run_report-IsTally :
      (outcomes : List Outcome)
      → IsTally (new_report job_id started_at sources_total) outcomes (run_report outcomes)
  unfolding new_report
  run_report-IsTally outcomes =
      add_outcomes-IsTally (new_report job_id started_at sources_total) outcomes
        (ground arith, ground arith)

  -- Every source that finishes is counted once: as succeeded, as skipped or as failed.
  pub add_outcomes-counts :
      (outcomes : List Outcome)
      → (run_report outcomes).sources_succeeded
          + (run_report outcomes).sources_skipped
          + (run_report outcomes).sources_failed
        ≡ length outcomes
  unfolding new_report
  add_outcomes-counts outcomes =
      let t = run_report-IsTally outcomes in
      omega (arith, t.succeeded_sum, t.skipped_sum, t.failed_sum, counted outcomes)

  -- The numbers of the report do not depend on the order in which the sources finish.
  pub add_outcomes-Perm :
      (xs ys : List Outcome)
      → Perm xs ys
      → ((run_report xs).sources_succeeded ≡ (run_report ys).sources_succeeded)
        × ((run_report xs).sources_skipped ≡ (run_report ys).sources_skipped)
        × ((run_report xs).sources_failed ≡ (run_report ys).sources_failed)
        × ((run_report xs).fetched ≡ (run_report ys).fetched)
        × ((run_report xs).upserted ≡ (run_report ys).upserted)
  unfolding new_report
  add_outcomes-Perm xs ys p =
      let s = run_report-IsTally xs in
      let t = run_report-IsTally ys in
      (
        omega (arith, s.succeeded_sum, t.succeeded_sum, total-Perm succeeded p),
        omega (arith, s.skipped_sum, t.skipped_sum, total-Perm skipped p),
        omega (arith, s.failed_sum, t.failed_sum, total-Perm failed p),
        ground (arith, s.fetched_sum, t.fetched_sum, total-Perm fetched_of p),
        ground (arith, s.upserted_sum, t.upserted_sum, total-Perm upserted_of p),
      )
