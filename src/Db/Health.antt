-- ===== src/Db/Health.antt =====
-- `list_source_health` of src/db.rs.
pub mod Laws
pub mod Listed
use cyberwatch_rs.Prelude.{
  ◌==◌, text_eq, if◌then◌else◌, take, is_some, unwrap_or, ℕ, ◌+◌, String, not, ◌&&◌, Option, none,
  some, List, [], ◌∷◌, map,
}
use cyberwatch_rs.Prelude.Table.{Table, lookup, upsert}
use cyberwatch_rs.Prelude.Order.{text_lt}
use cyberwatch_rs.Models.{SourceHealth, IngestionRunInput}
use cyberwatch_rs.Db.Store.{Store}
use cyberwatch_rs.Db.SyncState.{SyncState, get_sync_state}
use cyberwatch_rs.Db.Backoff.{until_key}

pub record Aggregate : Type 0 where
  pub name : String
  pub kind : String
  pub last_status : String
  pub last_run_at : Option String
  pub last_success_at : Option String
  pub failures_24h : ℕ
  pub last_error : Option String

-- `Aggregate::default`
abbrev pub default_aggregate : Aggregate
default_aggregate = record {
  name = "";
  kind = "";
  last_status = "";
  last_run_at = none;
  last_success_at = none;
  failures_24h = 0;
  last_error = none;
}

-- What the newest run of a source says is kept.
abbrev pub see_last : IngestionRunInput → Aggregate → Aggregate
see_last run aggregate = if is_some aggregate.last_run_at then aggregate else record aggregate {
  name = run.source_name;
  kind = run.source_kind;
  last_status = run.status;
  last_run_at = some run.finished_at;
  last_error = run.error;
}

abbrev pub see_success : IngestionRunInput → Aggregate → Aggregate
see_success run aggregate =
    if run.status == "success" && not (is_some aggregate.last_success_at)
    then record aggregate { last_success_at = some run.finished_at }
    else aggregate

abbrev pub see_failure : String → IngestionRunInput → Aggregate → Aggregate
see_failure cutoff run aggregate =
    if run.status == "failed" && not (text_lt run.finished_at cutoff)
    then record aggregate { failures_24h = aggregate.failures_24h + 1 }
    else aggregate

unfoldable pub see_run : String → IngestionRunInput → Aggregate → Aggregate
unfolding text_lt
see_run cutoff run aggregate = see_failure cutoff run (see_success run (see_last run aggregate))

-- The loop over the rows, the newest first.
unfoldable pub aggregates : String → List IngestionRunInput → Table Aggregate → Table Aggregate
unfolding see_run upsert lookup
aggregates cutoff [] table = table
aggregates cutoff (run ∷ runs) table = aggregates cutoff runs (
    upsert run.source_id
      (see_run cutoff run (unwrap_or (lookup run.source_id table) default_aggregate)) table)

abbrev pub health_of : SyncState → String × Aggregate → SourceHealth
health_of state (source_id, aggregate) = record {
  source_id = source_id;
  source_name = aggregate.name;
  source_kind = aggregate.kind;
  last_status = aggregate.last_status;
  last_run_at = aggregate.last_run_at;
  last_success_at = aggregate.last_success_at;
  failures_24h = aggregate.failures_24h;
  last_error = aggregate.last_error;
  backoff_until = get_sync_state (until_key source_id) state;
}

-- `sort_by` of the names: stable, and `iterate` is the order in which the `HashMap` gives its
-- entries, which may be any.
abbrev pub insert_health : SourceHealth → List SourceHealth → List SourceHealth
insert_health new [] = new ∷ []
insert_health new (old ∷ rest) =
    let later = insert_health new rest in
    if text_lt old.source_name new.source_name then old ∷ later else new ∷ old ∷ rest

abbrev pub sort_health : List SourceHealth → List SourceHealth
sort_health [] = []
sort_health (new ∷ rest) = insert_health new (sort_health rest)

module _ {F : Type 0} where
  unfoldable pub list_source_health :
      (Table Aggregate → Table Aggregate) → String → Store F → List SourceHealth
  unfolding aggregates text_lt get_sync_state
  list_source_health iterate cutoff store = sort_health (
      map (health_of store.sync_state)
        (iterate (aggregates cutoff (take 10000 store.ingestion_runs) [])))
