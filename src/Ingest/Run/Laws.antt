-- ===== src/Ingest/Run/Laws.antt =====
-- What a turn leaves of the recorded runs, whatever keeps them.
use cyberwatch_rs.Prelude.{
  ltb, Result, ok, err, ℕ, String, Option, none, some, List, ◌∷◌, ◌≡◌, refl, ap, sym, ◌∙◌, ok-inj,
  inl, inr, Bool-cases,
}
use cyberwatch_rs.Models.{IngestBatch, IngestionRunInput, SourceDescriptor}
use cyberwatch_rs.Prelude.Float.{Float}
use cyberwatch_rs.Http.Url.{UrlCrate}
use cyberwatch_rs.Source.Output.{SourceOutput, OutputError, validate}
use cyberwatch_rs.Db.Items.{stored_run}
use cyberwatch_rs.Ingest.Tally.{SourceRunOutcome}
use cyberwatch_rs.Ingest.Run.{
  Run, continue, truncate_error, run_input, finish, adapter_result, caught, apply_valid,
  apply_output, failure_message, or_panic, conclude, execute, backoff_message, attempt,
  run_one_source, RunError, Repository, Execution, Surroundings, database, panicked,
}

run-ok :
    {S A B : Type 0} (r : Result RunError A × S) (f : A → Run S B) {b : B} {end : S}
    → continue r f ≡ (ok b, end)
    → (a : A) × (mid : S) × (r ≡ (ok a, mid)) × (f a mid ≡ (ok b, end))
run-ok (ok a, s) f h = (a, s, refl, h)
run-ok (err e, s) f h = cc

pub state-of :
    {S A : Type 0} {r : Result RunError A × S} {a : A} {mid : S} → r ≡ (ok a, mid) → r.1 ≡ mid
state-of h = ap (λ p. p.1) h

-- A repository that adds a run to the recorded ones, as it stores it, and whose other operations
-- leave them alone.
pub record KeepsRuns {S F : Type 0} (repository : Repository S F)
    (runs : S → List IngestionRunInput) : Type 0 where
  pub recorded :
      (run : IngestionRunInput) (s end : S)
      → repository.record_ingestion_run run s ≡ (ok tt, end)
      → runs end ≡ stored_run run ∷ runs s
  pub backoff_kept : (id : String) (s : S) → runs (repository.source_backoff_until id s).1 ≡ runs s
  pub mark_kept :
      (id : String) (base maximum : ℕ) (s : S)
      → runs (repository.mark_source_failure id base maximum s).1 ≡ runs s
  pub clear_kept : (id : String) (s : S) → runs (repository.clear_source_failure id s).1 ≡ runs s
  pub batch_kept :
      (batch : IngestBatch F) (s : S) → runs (repository.apply_batch batch s).1 ≡ runs s

module _ {S F : Type 0} ⦃float : Float F⦄ ⦃url_crate : UrlCrate⦄ (repository : Repository S F)
    (runs : S → List IngestionRunInput) (keeps : KeepsRuns repository runs) (around : Surroundings)
    (job_id : String) (descriptor : SourceDescriptor) where
  abbrev pub run_of : SourceRunOutcome → IngestionRunInput
  run_of outcome =
      run_input repository around job_id descriptor outcome.status outcome.fetched outcome.upserted
        outcome.error

  finish-records :
      (status : String) (fetched upserted : ℕ) (error : Option String) (s end : S)
      (outcome : SourceRunOutcome)
      → finish repository around job_id descriptor status fetched upserted error s
        ≡ (ok outcome, end)
      → runs end ≡ stored_run (run_of outcome) ∷ runs s
  unfolding finish
  finish-records status fetched upserted error s end outcome h =
      let (_, mid, e, h1) = run-ok (repository.record_ingestion_run _ s) _ h in
      let ended : mid ≡ end = ap (λ p. p.1) h1 in
      let made : _ ≡ outcome = ok-inj (ap (λ p. p.0) h1) in
      ap runs (sym ended)
      ∙ (keeps.recorded _ s mid e ∙ ap (λ o. stored_run (run_of o) ∷ runs s) made)

  caught-state :
      (output : SourceOutput F) (r : Result RunError ℕ × S)
      → (caught repository around job_id descriptor output r).1 ≡ r.1
  caught-state output (ok upserted, s) = refl
  caught-state output (err (database error), s) = refl
  caught-state output (err panicked, s) = refl

  apply_valid-keeps :
      (output : SourceOutput F) (checked : Result OutputError (Unit {0})) (s : S)
      → runs (apply_valid repository around job_id descriptor output checked s).1 ≡ runs s
  apply_valid-keeps output (ok _) s =
      ap runs (caught-state output (repository.apply_batch output.batch s))
      ∙ keeps.batch_kept output.batch s
  apply_valid-keeps output (err error) s = refl

  apply_output-keeps :
      (result : Result String (SourceOutput F)) (s : S)
      → runs (apply_output repository around job_id descriptor result s).1 ≡ runs s
  unfolding apply_output
  apply_output-keeps (err error) s = refl
  apply_output-keeps (ok output) s = apply_valid-keeps output (validate descriptor output) s

  message-ok :
      (message : Option String) (f : String → Run S SourceRunOutcome) (s : S) {end : S}
      {outcome : SourceRunOutcome}
      → continue (or_panic repository around job_id descriptor message s) f ≡ (ok outcome, end)
      → (text : String) × (f text s ≡ (ok outcome, end))
  message-ok none f s h = cc
  message-ok (some text) f s h = (text, h)

  module _ (base maximum : ℕ) where
    conclude-records :
        (result : Result String (SourceOutput F × ℕ)) (s end : S) (outcome : SourceRunOutcome)
        → conclude repository around job_id descriptor base maximum result s ≡ (ok outcome, end)
        → runs end ≡ stored_run (run_of outcome) ∷ runs s
    unfolding conclude
    conclude-records (ok (output, upserted)) s end outcome h =
        let (_, mid, e, h1) = run-ok (repository.clear_source_failure descriptor.id s) _ h in
        let kept : runs mid ≡ runs s =
          ap runs (sym (state-of e)) ∙ keeps.clear_kept descriptor.id s in
        rw (← kept) (finish-records _ _ _ _ mid end outcome h1)
    conclude-records (err error) s end outcome h =
        let (until, mid, e, h1) =
          run-ok (repository.mark_source_failure descriptor.id base maximum s) _ h in
        let (message, h2) =
          message-ok
            (truncate_error (failure_message repository around job_id descriptor error until)) _ mid
            h1 in
        let kept : runs mid ≡ runs s =
          ap runs (sym (state-of e)) ∙ keeps.mark_kept descriptor.id base maximum s in
        rw (← kept) (finish-records _ _ _ _ mid end outcome h2)

    execute-records :
        (execution : Execution F) (s end : S) (outcome : SourceRunOutcome)
        → execute repository around job_id descriptor base maximum execution s ≡ (ok outcome, end)
        → runs end ≡ stored_run (run_of outcome) ∷ runs s
    unfolding execute
    execute-records execution s end outcome h =
        let result = adapter_result repository around job_id descriptor execution in
        let (value, mid, e, h1) =
          run-ok (apply_output repository around job_id descriptor result s) _ h in
        let kept : runs mid ≡ runs s = ap runs (sym (state-of e)) ∙ apply_output-keeps result s in
        rw (← kept) (conclude-records value mid end outcome h1)

    attempt-records :
        (execution : Execution F) (until : Option ℕ) (s end : S) (outcome : SourceRunOutcome)
        → attempt repository around job_id descriptor base maximum execution until s
          ≡ (ok outcome, end)
        → runs end ≡ stored_run (run_of outcome) ∷ runs s
    unfolding attempt
    attempt-records execution none s end outcome h = execute-records execution s end outcome h
    attempt-records execution (some until) s end outcome h =
        elim (Bool-cases (ltb around.now until)) [
          | inl early ↦
              finish-records "skipped" 0 0
                (some (backoff_message repository around job_id descriptor base maximum until)) s
                end outcome (rw (← h, early) refl)
          | inr late ↦ execute-records execution s end outcome (rw (← h, late) refl)
        ]

    pub run_one_source-keeps :
        (execution : Execution F) (s end : S) (outcome : SourceRunOutcome)
        → run_one_source repository around job_id descriptor base maximum execution s
          ≡ (ok outcome, end)
        → runs end ≡ stored_run (run_of outcome) ∷ runs s
    unfolding run_one_source
    run_one_source-keeps execution s end outcome h =
        let (until, mid, e, h1) = run-ok (repository.source_backoff_until descriptor.id s) _ h in
        let kept : runs mid ≡ runs s =
          ap runs (sym (state-of e)) ∙ keeps.backoff_kept descriptor.id s in
        rw (← kept) (attempt-records execution until mid end outcome h1)
