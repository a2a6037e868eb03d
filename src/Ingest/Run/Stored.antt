-- ===== src/Ingest/Run/Stored.antt =====
-- A turn over the tables of src/db.rs: the `Repository` of the context is that of the store.
use cyberwatch_rs.Prelude.{Result, ok, err, ℕ, String, Option, none, some}
use cyberwatch_rs.Prelude.Float.{Float}
use cyberwatch_rs.Db.Store.{Store, DbError}
use cyberwatch_rs.Prelude.Table.{Table}
use cyberwatch_rs.Db.Items as Items
use cyberwatch_rs.Db.Backoff as Backoff
use cyberwatch_rs.Db.Backoff.{Chrono, BackoffError}
use cyberwatch_rs.Ingest.Run.{RunError, Repository, database, panicked}

-- The texts of the errors of the database.
pub record ErrorTexts : Type 0 where
  pub show_backoff : BackoffError → String
  pub show_database : DbError → String

abbrev until_of : ErrorTexts → Result BackoffError (Option ℕ) → Result RunError (Option ℕ)
until_of texts (ok until) = ok until
until_of texts (err e) = err (database (texts.show_backoff e))

abbrev applied : ErrorTexts → Result DbError ℕ → Result RunError ℕ
applied texts (ok upserted) = ok upserted
applied texts (err e) = err (database (texts.show_database e))

module _ {F : Type 0} ⦃float : Float F⦄ (chrono : Chrono) (texts : ErrorTexts) (now : ℕ) where
  abbrev marked : Store F → Option (ℕ × Table String) → Result RunError ℕ × Store F
  marked store none = (err panicked, store)
  marked store (some (until, state)) = (ok until, record store { sync_state = state })

  -- `now` is the clock's reading where a failure is marked.
  abbrev pub repository_of : Repository (Store F) F
  repository_of = record {
    source_backoff_until = λ source_id store.
        (until_of texts (Backoff.source_backoff_until chrono source_id store.sync_state), store);
    mark_source_failure = λ source_id base maximum store.
        marked store
          (Backoff.mark_source_failure chrono now source_id base maximum store.sync_state);
    clear_source_failure = λ source_id store. (
      ok tt,
      record store { sync_state = Backoff.clear_source_failure source_id store.sync_state },
    );
    record_ingestion_run = λ run store. (ok tt, Items.record_ingestion_run run store);
    apply_batch = λ batch store.
        let result = Items.apply_batch float batch store in (applied texts result.0, result.1);
  }
