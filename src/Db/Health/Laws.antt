-- ===== src/Db/Health/Laws.antt =====
-- What the health of a source says of its runs.
use text.Mathlib.TextEquality.{eq_iff}
use cyberwatch_rs.Prelude.{
  ◌==◌, text_eq, if◌then◌else◌, Bool-cases, find, keep, is_some, unwrap_or, ℕ, ◌+◌, String, ◌≡◌,
  refl, ap, ◌∙◌, inl, inr, true, not, ◌&&◌, Option, none, some, List, [], ◌∷◌, arith,
}
use cyberwatch_rs.Prelude.Table.{Table, lookup, lookup-upsert}
use cyberwatch_rs.Prelude.Order.{text_lt}
use cyberwatch_rs.Models.{IngestionRunInput}
use cyberwatch_rs.Db.Stats.{count}
use cyberwatch_rs.Db.Health.{default_aggregate, see_run, aggregates, Aggregate}

-- The runs of a source, the newest first.
unfoldable pub runs_of : String → List IngestionRunInput → List IngestionRunInput
runs_of id runs = keep (λ run. run.source_id == id) runs

abbrev pub first_finish : Option IngestionRunInput → Option String
first_finish none = none
first_finish (some run) = some run.finished_at

-- What the newest run, the newest successful one and the failures since the cutoff give.

unfoldable pub summary : String → IngestionRunInput → List IngestionRunInput → Aggregate
unfolding count
summary cutoff newest runs = record {
  name = newest.source_name;
  kind = newest.source_kind;
  last_status = newest.status;
  last_run_at = some newest.finished_at;
  last_success_at = first_finish (find (λ run. run.status == "success") runs);
  failures_24h = count (λ run. run.status == "failed" && not (text_lt run.finished_at cutoff)) runs;
  last_error = newest.error;
}

-- Runs that were seen, and older ones that follow: what is known after the first, and after all.
module _ (cutoff : String) where
  seen_by : List IngestionRunInput → Aggregate → Aggregate
  seen_by [] a = a
  seen_by (run ∷ runs) a = seen_by runs (see_run cutoff run a)

  seen_from : String → List IngestionRunInput → Option Aggregate → Option Aggregate
  seen_from id [] a = a
  seen_from id (run ∷ runs) a =
      seen_from id runs (
        if run.source_id == id
        then some (see_run cutoff run (unwrap_or a default_aggregate))
        else a)

  lookup-aggregates :
      (id : String) (runs : List IngestionRunInput) (table : Table Aggregate)
      → lookup id (aggregates cutoff runs table) ≡ seen_from id runs (lookup id table)
  unfolding aggregates seen_from
  lookup-aggregates id [] table = refl
  lookup-aggregates id (run ∷ runs) table =
      lookup-aggregates id runs _
      ∙ ap (seen_from id runs) (elim (Bool-cases (run.source_id == id)) [
        | inl e ↦ rw (
          lookup-upsert run.source_id id
              (see_run cutoff run (unwrap_or (lookup run.source_id table) default_aggregate)) table,
          e,
          (eq_iff run.source_id id).0 e,
        )
        | inr e ↦ rw (
          lookup-upsert run.source_id id
              (see_run cutoff run (unwrap_or (lookup run.source_id table) default_aggregate)) table,
          e,
        )
      ])

  seen_from-some :
      (id : String) (runs : List IngestionRunInput) (a : Aggregate)
      → seen_from id runs (some a) ≡ some (seen_by (runs_of id runs) a)
  unfolding seen_from seen_by runs_of
  seen_from-some id [] a = refl
  seen_from-some id (run ∷ runs) a = elim (Bool-cases (run.source_id == id)) [
    | inl e ↦ rw e (seen_from-some id runs (see_run cutoff run a))
    | inr e ↦ rw e (seen_from-some id runs a)
  ]

  -- What older runs add: a success if none was seen, and the failures.
  abbrev or_success : Option String → List IngestionRunInput → Option String
  or_success none runs = first_finish (find (λ run. run.status == "success") runs)
  or_success (some time) runs = some time

  abbrev failures : List IngestionRunInput → ℕ
  failures runs = count (λ run. run.status == "failed" && not (text_lt run.finished_at cutoff)) runs

  seen_by_lem :
      (runs : List IngestionRunInput) (a : Aggregate)
      → is_some a.last_run_at ≡ true
      → seen_by runs a ≡ record a {
        last_success_at = or_success a.last_success_at runs;
        failures_24h = a.failures_24h + failures runs;
      }
  unfolding seen_by see_run count
  seen_by_lem [] a h = ground arith
  seen_by_lem (run ∷ runs) a h =
      seen_by_lem runs (see_run cutoff run a) (ground arith) ∙ ground arith

  -- Without runs a source has no entry.
  unfoldable pub summarize : List IngestionRunInput → Option Aggregate
  summarize [] = none
  summarize (newest ∷ older) = some (summary cutoff newest (newest ∷ older))

  summary_first :
      (run : IngestionRunInput) (runs : List IngestionRunInput)
      → seen_by runs (see_run cutoff run default_aggregate) ≡ summary cutoff run (run ∷ runs)
  unfolding summary see_run count
  summary_first run runs =
      seen_by_lem runs (see_run cutoff run default_aggregate) (ground arith) ∙ ground arith

  seen_from-none :
      (id : String) (runs : List IngestionRunInput)
      → seen_from id runs none ≡ summarize (runs_of id runs)
  unfolding seen_from runs_of summarize
  seen_from-none id [] = refl
  seen_from-none id (run ∷ runs) = elim (Bool-cases (run.source_id == id)) [
    | inl e ↦ rw e (
        seen_from-some id runs (see_run cutoff run default_aggregate)
        ∙ ap some (summary_first run (runs_of id runs)))
    | inr e ↦ rw e (seen_from-none id runs)
  ]

  -- Of the runs that the loop reads, a source without any has no entry. That of another says its
  -- name, kind, status, time and error by its newest run, its last success by its newest successful
  -- one, and its failures by the number of its failed ones that did not end before the cutoff.
  pub aggregates_lem :
      (id : String) (runs : List IngestionRunInput)
      → lookup id (aggregates cutoff runs []) ≡ summarize (runs_of id runs)
  unfolding lookup
  aggregates_lem id runs = lookup-aggregates id runs [] ∙ seen_from-none id runs
