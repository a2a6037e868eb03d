-- ===== src/Db/Health/Listed.antt =====
-- What the list of the sources' health has for each source.
use Prim.Native.String.{◌++◌}
use mathlib.Core.Option as Option
use text.Mathlib.TextEquality.{eq_iff}
use cyberwatch_rs.Prelude.{
  ◌==◌, text_eq, if◌then◌else◌, Bool-cases, length, take, find, keep, String, ◌≡◌, refl, ap, ◌∙◌,
  inl, inr, Bool, not, ◌&&◌, Option, none, some, List, [], ◌∷◌, map, arith,
}
use cyberwatch_rs.Prelude.Table.{Table, lookup}
use cyberwatch_rs.Prelude.Order.{text_lt}
use cyberwatch_rs.Models.{SourceHealth, IngestionRunInput}
use cyberwatch_rs.Db.Store.{Store}
use cyberwatch_rs.Db.SyncState.{SyncState, get_sync_state}
use cyberwatch_rs.Db.Items.Growth.{Unique, upsert-Unique}
use cyberwatch_rs.Db.Stats.{count}
use cyberwatch_rs.Db.Health.{
  aggregates, health_of, insert_health, sort_health, list_source_health, Aggregate,
}
use cyberwatch_rs.Db.Health.Laws.{runs_of, first_finish, summary, summarize, aggregates_lem}

abbrev pub health_by : String → List SourceHealth → Option SourceHealth
health_by id healths = find (λ health. health.source_id == id) healths

-- No source has two entries.
abbrev pub Distinct : List SourceHealth → Type 0
Distinct [] = Unit
Distinct (health ∷ rest) = (health_by health.source_id rest ≡ none) × Distinct rest

health_by-insert :
    (id : String) (new : SourceHealth) (rest : List SourceHealth)
    → health_by new.source_id rest ≡ none
    → health_by id (insert_health new rest)
      ≡ (if new.source_id == id then some new else health_by id rest)
health_by-insert id new [] h = refl
health_by-insert id new (old ∷ rest) h = ground (
  arith,
  health_by-insert id new rest,
  eq_iff old.source_id new.source_id,
  eq_iff old.source_id id,
  eq_iff new.source_id id,
)

insert_health-Distinct :
    (new : SourceHealth) (rest : List SourceHealth)
    → health_by new.source_id rest ≡ none
    → Distinct rest
    → Distinct (insert_health new rest)
insert_health-Distinct new [] h d = (refl, tt)
insert_health-Distinct new (old ∷ rest) h d =
    elim (Bool-cases (text_lt old.source_name new.source_name)) [
      | inl e ↦
          let absent : health_by new.source_id rest ≡ none = ground arith in
          rw e (
            ground (
              arith,
              health_by-insert old.source_id new rest absent,
              d.0,
              eq_iff old.source_id new.source_id,
              eq_iff new.source_id old.source_id,
            ),
            insert_health-Distinct new rest absent d.1,
          )
      | inr e ↦ rw e (h, d)
    ]

health_by-sort :
    (id : String) (healths : List SourceHealth)
    → Distinct healths
    → health_by id (sort_health healths) ≡ health_by id healths
health_by-sort id [] d = refl
health_by-sort id (new ∷ rest) d =
    health_by-insert id new (sort_health rest) (health_by-sort new.source_id rest d.1 ∙ d.0)
    ∙ ap (λ found. if new.source_id == id then some new else found) (health_by-sort id rest d.1)

sort_health-Distinct :
    (healths : List SourceHealth) → Distinct healths → Distinct (sort_health healths)
sort_health-Distinct [] d = d
sort_health-Distinct (new ∷ rest) d =
    insert_health-Distinct new (sort_health rest) (health_by-sort new.source_id rest d.1 ∙ d.0)
      (sort_health-Distinct rest d.1)

module _ (state : SyncState) where
  health_by-map :
      (id : String) (table : Table Aggregate)
      → health_by id (map (health_of state) table)
        ≡ Option.map (λ (a : Aggregate). health_of state (id, a)) (lookup id table)
  unfolding lookup
  health_by-map id [] = refl
  health_by-map id ((j, a) ∷ table) = elim (Bool-cases (j == id)) [
    | inl e ↦ rw e (ap (λ (k : String). some (health_of state (k, a))) ((eq_iff j id).0 e))
    | inr e ↦ rw e (health_by-map id table)
  ]

  Distinct-map : (table : Table Aggregate) → Unique table → Distinct (map (health_of state) table)
  Distinct-map [] u = tt
  Distinct-map ((j, a) ∷ table) u = (rw (health_by-map j table, u.0), Distinct-map table u.1)

aggregates-Unique :
    (cutoff : String) (runs : List IngestionRunInput) (table : Table Aggregate)
    → Unique table
    → Unique (aggregates cutoff runs table)
unfolding aggregates
aggregates-Unique cutoff [] table u = u
aggregates-Unique cutoff (run ∷ runs) table u =
    aggregates-Unique cutoff runs _ (upsert-Unique run.source_id _ table u)

-- An order of the entries of a `HashMap`: each key has the value it has, once.
pub record Iterates (iterate : Table Aggregate → Table Aggregate) : Type 0 where
  pub once : (table : Table Aggregate) → Unique table → Unique (iterate table)
  pub same :
      (id : String) (table : Table Aggregate)
      → Unique table
      → lookup id (iterate table) ≡ lookup id table

-- What the runs of a source tell of it, the newest first.
abbrev pub told : SyncState → String → String → List IngestionRunInput → Option SourceHealth
told state cutoff id [] = none
told state cutoff id (newest ∷ older) = some (record {
  source_id = id;
  source_name = newest.source_name;
  source_kind = newest.source_kind;
  last_status = newest.status;
  last_run_at = some newest.finished_at;
  last_success_at = first_finish (find (λ run. run.status == "success") (newest ∷ older));
  failures_24h = length (
      keep (λ run. run.status == "failed" && not (text_lt run.finished_at cutoff))
        (newest ∷ older));
  last_error = newest.error;
  backoff_until = get_sync_state ("source:" ++ (id ++ ":backoff_until")) state;
})

count-keep : {A : Type 0} (p : A → Bool) (xs : List A) → count p xs ≡ length (keep p xs)
unfolding count
count-keep p [] = refl
count-keep p (x ∷ xs) = ground (arith, count-keep p xs)

told_lem :
    (state : SyncState) (cutoff id : String) (runs : List IngestionRunInput)
    → Option.map (λ (a : Aggregate). health_of state (id, a)) (summarize cutoff runs)
      ≡ told state cutoff id runs
unfolding summarize summary
told_lem state cutoff id [] = refl
told_lem state cutoff id (newest ∷ older) =
    rw
      (count-keep (λ run. run.status == "failed" && not (text_lt run.finished_at cutoff))
        (newest ∷ older))
      refl

-- However the map of the sources is iterated: of the 10000 newest runs of all the sources, those of
-- one source decide what is listed of it. If there are none, it is not listed; else its name, kind,
-- status, time and error are those of the newest, its last success is that of the newest successful
-- one, its failures are the failed ones that did not end before the cutoff, and its backoff is the
-- stored one. No source is listed twice.
pub list_source_health_lem :
    {F : Type 0} (iterate : Table Aggregate → Table Aggregate) (cutoff id : String)
    (store : Store F)
    → Iterates iterate
    → Distinct (list_source_health iterate cutoff store)
      × (health_by id (list_source_health iterate cutoff store)
          ≡ told store.sync_state cutoff id (runs_of id (take 10000 store.ingestion_runs)))
unfolding list_source_health
list_source_health_lem iterate cutoff id store order =
    let runs = take 10000 store.ingestion_runs in
    let table = aggregates cutoff runs [] in
    let unique : Unique table = aggregates-Unique cutoff runs [] tt in
    let distinct : Distinct (map (health_of store.sync_state) (iterate table)) =
      Distinct-map store.sync_state (iterate table) (order.once table unique) in
    (
      sort_health-Distinct _ distinct,
      health_by-sort id _ distinct
          ∙ (health_by-map store.sync_state id (iterate table)
              ∙ (ap (Option.map (λ (a : Aggregate). health_of store.sync_state (id, a)))
                    (order.same id table unique ∙ aggregates_lem cutoff id runs)
                  ∙ told_lem store.sync_state cutoff id (runs_of id runs))),
    )
