-- ===== src/Ingest/Tests.antt =====
-- Turns and outcomes to try the ingestion on, over the backoff of the database.
use mathlib.Core.List.Perm
use cyberwatch_rs.Prelude.{length, Result, ok, err, ℕ, ◌+◌, String, ◌≡◌, none, some, List, [], ◌∷◌}
use cyberwatch_rs.Models.{IngestionRunInput, SourceDescriptor}
use cyberwatch_rs.Validate.Tests.{whole}
use cyberwatch_rs.Source.Tests.{descriptor_of, test_crate}
use cyberwatch_rs.Ingest.Tally.{new_report, add_outcomes, SourceRunOutcome}
use cyberwatch_rs.Ingest.Tally.Laws.{add_outcomes-counts, add_outcomes-Perm}
use cyberwatch_rs.Ingest.Run.{run_input, run_one_source, Repository, Surroundings, unwound}
use cyberwatch_rs.Ingest.Run.Stored.{repository_of, ErrorTexts}
use cyberwatch_rs.Db.Backoff as Backoff
use cyberwatch_rs.Db.Backoff.{Chrono}
use cyberwatch_rs.Db.Store.{Store}
use cyberwatch_rs.Db.Samples.{empty_store}

-- A clock whose times are all written alike.
abbrev clock : Chrono
clock = record {
  add_seconds = λ now seconds. some (now + seconds);
  to_rfc3339 = λ time. "later";
  parse_from_rfc3339 = λ text. none;
}

abbrev texts : ErrorTexts
texts = record {
  show_backoff = λ e. "invalid timestamp";
  show_database = λ e. "CHECK constraint failed";
}

abbrev tables : Repository (Store ℕ) ℕ
tables = repository_of clock texts 7

abbrev noon : Surroundings
noon = record {
  now = 7;
  started_at = "12:00";
  finished_at = "12:01";
  duration_ms = 900;
  show_time = λ time. "later";
  show_error = λ error. "invalid output";
  deadline_message = "source adapter exceeded its deadline";
}

abbrev failed_outcome : SourceRunOutcome
failed_outcome = record {
  status = "failed";
  fetched = 0;
  upserted = 0;
  error = some "feed-a failed: source adapter panicked; retry after later";
}

abbrev feed_a : SourceDescriptor
feed_a = descriptor_of "feed-a"

abbrev run_of_failed : IngestionRunInput
run_of_failed = run_input tables noon "job-1" feed_a "failed" 0 0 failed_outcome.error

-- The state after a turn in which the adapter panics.
abbrev after_panic : Store ℕ
after_panic = (run_one_source tables noon "job-1" feed_a 60 3600 unwound empty_store).1

abbrev done : SourceRunOutcome
done = record { status = "success"; fetched = 3; upserted = 2; error = none }

abbrev two_outcomes : List (Result String SourceRunOutcome)
two_outcomes = ok done ∷ err "closed" ∷ []

add_outcomes-counts_example :
    (add_outcomes (new_report "job-1" "12:00" 2) two_outcomes).sources_succeeded
      + (add_outcomes (new_report "job-1" "12:00" 2) two_outcomes).sources_skipped
      + (add_outcomes (new_report "job-1" "12:00" 2) two_outcomes).sources_failed
    ≡ length two_outcomes
add_outcomes-counts_example = add_outcomes-counts "job-1" "12:00" 2 two_outcomes

add_outcomes-Perm_example :
    ((add_outcomes (new_report "job-1" "12:00" 2) two_outcomes).sources_succeeded
      ≡ (add_outcomes
          (new_report "job-1" "12:00" 2)
          (err "closed" ∷ ok done ∷ [])).sources_succeeded)
    × ((add_outcomes (new_report "job-1" "12:00" 2) two_outcomes).sources_skipped
        ≡ (add_outcomes
            (new_report "job-1" "12:00" 2)
            (err "closed" ∷ ok done ∷ [])).sources_skipped)
    × ((add_outcomes (new_report "job-1" "12:00" 2) two_outcomes).sources_failed
        ≡ (add_outcomes
            (new_report "job-1" "12:00" 2)
            (err "closed" ∷ ok done ∷ [])).sources_failed)
    × ((add_outcomes (new_report "job-1" "12:00" 2) two_outcomes).fetched
        ≡ (add_outcomes (new_report "job-1" "12:00" 2) (err "closed" ∷ ok done ∷ [])).fetched)
    × ((add_outcomes (new_report "job-1" "12:00" 2) two_outcomes).upserted
        ≡ (add_outcomes (new_report "job-1" "12:00" 2) (err "closed" ∷ ok done ∷ [])).upserted)
add_outcomes-Perm_example =
    add_outcomes-Perm "job-1" "12:00" 2 two_outcomes (err "closed" ∷ ok done ∷ [])
      (Perm.swap (err "closed") (ok done) [])
