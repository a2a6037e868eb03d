-- ===== src/Ingest/Run.antt =====
-- `run_one_source` of src/ingest/mod.rs: one source's turn, over the operations of the repository.
pub mod Laws
pub mod Stored
use Prim.Native.Char.{Char, len_utf8}
use Prim.Native.String as Native
use cyberwatch_rs.Prelude.{
  ltb, leb, if◌then◌else◌, Result, ok, err, len, ℕ, String, Option, none, some, [], ◌∷◌, ◌-◌,
}
use cyberwatch_rs.Models.{IngestBatch, IngestionRunInput, SourceDescriptor}
use cyberwatch_rs.Prelude.Float.{Float}
use cyberwatch_rs.Http.Url.{UrlCrate}
use cyberwatch_rs.Source.Output.{SourceOutput, OutputError, validate}
use cyberwatch_rs.Ingest.Tally.{SourceRunOutcome}

-- Why a source's turn has no outcome: the database failed, or the task panicked.
pub data RunError : Type 0 where
  database : String → RunError
  panicked : RunError

-- A computation on the repository's state, which a failure leaves as it is at that point.
abbrev pub Run : Type 0 → Type 0 → Type 0
Run S A = S → Result RunError A × S

abbrev pub continue :
    {S A B : Type 0} → Result RunError A × S → (A → Run S B) → Result RunError B × S
continue (ok a, s) f = f a s
continue (err e, s) f = (err e, s)

infixl 5 ◌>>=◌ ◌>>◌
abbrev pub ◌>>=◌ : {S A B : Type 0} → Run S A → (A → Run S B) → Run S B
◌>>=◌ m f = λ s. continue (m s) f

abbrev pub ◌>>◌ : {S B : Type 0} → Run S (Unit {0}) → Run S B → Run S B
◌>>◌ m k = m >>= λ _. k

abbrev pub pure : {S A : Type 0} → A → Run S A
pure a = λ s. (ok a, s)

-- The operations of the repository that a turn calls.
pub record Repository (S F : Type 0) : Type 0 where
  pub source_backoff_until : String → Run S (Option ℕ)
  pub mark_source_failure : String → ℕ → ℕ → Run S ℕ
  pub clear_source_failure : String → Run S (Unit {0})
  pub record_ingestion_run : IngestionRunInput → Run S (Unit {0})
  pub apply_batch : IngestBatch F → Run S ℕ

-- How an adapter's `run` ends, under `catch_unwind` and the deadline.
pub data Execution (F : Type 0) : Type 0 where
  returned : Result String (SourceOutput F) → Execution F
  unwound : Execution F
  timed_out : Execution F

-- The clock's readings and the texts that `format!` makes of an error, a time and a deadline.
pub record Surroundings : Type 0 where
  pub now : ℕ
  pub started_at : String
  pub finished_at : String
  pub duration_ms : ℕ
  pub show_time : ℕ → String
  pub show_error : OutputError → String
  pub deadline_message : String

abbrev push : Char → Option String → Option String
push c none = none
push c (some s) = some (Native.◌∷◌ c s)

-- `String::truncate`: the first `n` bytes; none where it panics, since they end within a character.
unfoldable pub truncate : ℕ → String → Option String
truncate n Native.[] = some Native.[]
truncate n (Native.◌∷◌ c s) =
    let rest = truncate (n - len_utf8 c) s in
    if leb (len_utf8 c) n then push c rest else (if leb n 0 then some Native.[] else none)

-- `push('…')`
abbrev ellipsis : Option String → Option String
ellipsis none = none
ellipsis (some s) = some (Native.◌++◌ s "…")

unfoldable pub truncate_error : String → Option String
unfolding truncate
truncate_error value = if ltb 2000 (len value) then ellipsis (truncate 2000 value) else some value

module _ {S F : Type 0} ⦃float : Float F⦄ ⦃url_crate : UrlCrate⦄ (repository : Repository S F)
    (around : Surroundings) (job_id : String) (descriptor : SourceDescriptor) where
  abbrev pub run_input : String → ℕ → ℕ → Option String → IngestionRunInput
  run_input status fetched upserted error = record {
    job_id = job_id;
    source_id = descriptor.id;
    source_name = descriptor.name;
    source_kind = descriptor.kind;
    status = status;
    fetched = fetched;
    upserted = upserted;
    error = error;
    started_at = around.started_at;
    finished_at = around.finished_at;
    duration_ms = around.duration_ms;
  }

  -- Record the turn in the database, and return its outcome.
  unfoldable pub finish : String → ℕ → ℕ → Option String → Run S SourceRunOutcome
  finish status fetched upserted error = do
    repository.record_ingestion_run (run_input status fetched upserted error)
    pure (record { status = status; fetched = fetched; upserted = upserted; error = error })

  -- `adapter_result`
  abbrev pub adapter_result : Execution F → Result String (SourceOutput F)
  adapter_result (returned result) = result
  adapter_result unwound = err "source adapter panicked"
  adapter_result timed_out = err around.deadline_message

  -- What applying a batch gives, as a value.
  abbrev pub caught :
      SourceOutput F
      → Result RunError ℕ × S
      → Result RunError (Result String (SourceOutput F × ℕ)) × S
  caught output (ok upserted, s) = (ok (ok (output, upserted)), s)
  caught output (err (database error), s) = (ok (err error), s)
  caught output (err panicked, s) = (err panicked, s)

  abbrev pub apply_valid :
      SourceOutput F → Result OutputError (Unit {0}) → Run S (Result String (SourceOutput F × ℕ))
  apply_valid output (ok _) = λ s. caught output (repository.apply_batch output.batch s)
  apply_valid output (err error) = pure (err (around.show_error error))

  unfoldable pub apply_output :
      Result String (SourceOutput F) → Run S (Result String (SourceOutput F × ℕ))
  unfolding validate
  apply_output (err error) = pure (err error)
  apply_output (ok output) = apply_valid output (validate descriptor output)

  abbrev pub status_of : SourceOutput F → String
  status_of output = if output.skipped then "skipped" else "success"

  abbrev pub failure_message : String → ℕ → String
  failure_message error backoff_until = Native.◌++◌ descriptor.name (
      Native.◌++◌ " failed: "
        (Native.◌++◌ error (Native.◌++◌ "; retry after " (around.show_time backoff_until))))

  abbrev pub or_panic : {A : Type 0} → Option A → Run S A
  or_panic none = λ s. (err panicked, s)
  or_panic (some a) = pure a

  module _ (base maximum : ℕ) where
    unfoldable pub conclude : Result String (SourceOutput F × ℕ) → Run S SourceRunOutcome
    unfolding finish truncate_error
    conclude (ok (output, upserted)) = do
      repository.clear_source_failure descriptor.id
      finish (status_of output) output.fetched upserted none
    conclude (err error) = do
      backoff_until ← repository.mark_source_failure descriptor.id base maximum
      message ← or_panic (truncate_error (failure_message error backoff_until))
      finish "failed" 0 0 (some message)

    unfoldable pub execute : Execution F → Run S SourceRunOutcome
    unfolding conclude apply_output
    execute execution = do result ← apply_output (adapter_result execution); conclude result

    abbrev pub backoff_message : ℕ → String
    backoff_message until =
        Native.◌++◌ "source "
          (Native.◌++◌ descriptor.id (Native.◌++◌ " is in backoff until " (around.show_time until)))

    unfoldable pub attempt : Execution F → Option ℕ → Run S SourceRunOutcome
    unfolding execute finish
    attempt execution none = execute execution
    attempt execution (some until) =
        if ltb around.now until
        then finish "skipped" 0 0 (some (backoff_message until))
        else execute execution

    unfoldable pub run_one_source : Execution F → Run S SourceRunOutcome
    unfolding attempt
    run_one_source execution = do
      until ← repository.source_backoff_until descriptor.id
      attempt execution until
