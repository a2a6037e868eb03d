-- ===== src/Db/Tests.antt =====
-- Retention, statistics and health of the three sample rows.
use cyberwatch_rs.Prelude.{take, keep, ℕ, String, ◌≡◌, refl, not, none, List, [], ◌∷◌, map}
use cyberwatch_rs.Prelude.Table.{lookup}
use cyberwatch_rs.Prelude.Order.{text_lt}
use cyberwatch_rs.Models.{SourceHealth, IngestionRunInput}
use cyberwatch_rs.Db.Store.{ItemRow, Store}
use cyberwatch_rs.Db.Samples.{three_rows}
use cyberwatch_rs.Db.Items.Growth.{IsValid}
use cyberwatch_rs.Db.Retention.{cleanup_retention}
use cyberwatch_rs.Db.Retention.Laws.{expired_news, cleanup_retention_lem, Retained}
use cyberwatch_rs.Db.Stats.{stats}
use cyberwatch_rs.Db.Health.{list_source_health}
use cyberwatch_rs.Db.Health.Laws.{runs_of}
use cyberwatch_rs.Db.Health.Listed.{health_by, Distinct, told, list_source_health_lem, Iterates}

rows-IsValid : IsValid three_rows
unfolding lookup
rows-IsValid = record { keys = (refl, (refl, (refl, tt))); kinds = (refl, (refl, (refl, tt))) }

abbrev noon : ℕ → String
noon days = "2026-01-01T12:00:00Z"

-- The two pieces of news are older than the cutoff; the CVE stays.
cleaned_items :
    map (λ (row : String × ItemRow ℕ). row.0) (cleanup_retention noon 30 30 three_rows).items
    ≡ "b" ∷ []
unfolding cleanup_retention
cleaned_items = refl

cleaned_categories :
    (cleanup_retention noon 30 30 three_rows).item_categories ≡ ("b", "patching") ∷ []
unfolding cleanup_retention
cleaned_categories = refl

cleanup_retention_lem_example :
    Retained (expired_news (noon 30) 30) three_rows (cleanup_retention noon 30 30 three_rows)
    × ((cleanup_retention noon 30 30 three_rows).ingestion_runs
        ≡ keep (λ run. not (text_lt run.finished_at (noon 30))) three_rows.ingestion_runs)
cleanup_retention_lem_example = cleanup_retention_lem noon 30 30 three_rows rows-IsValid

stats_test :
    ((stats "now" three_rows).news_items ≡ 2)
    × ((stats "now" three_rows).exploited_cves ≡ 1)
    × ((stats "now" three_rows).sources_seen ≡ 1)
unfolding stats
stats_test = (refl, refl, refl)

abbrev sample_run : String → String → String → IngestionRunInput
sample_run source_id status finished_at = record {
  job_id = "job-1";
  source_id = source_id;
  source_name = "Source";
  source_kind = "feed";
  status = status;
  fetched = 1;
  upserted = 1;
  error = none;
  started_at = "";
  finished_at = finished_at;
  duration_ms = 1;
}

abbrev three_runs : List IngestionRunInput
three_runs =
    sample_run "a" "failed" "2026-01-03"
    ∷ sample_run "b" "success" "2026-01-02"
    ∷ sample_run "a" "success" "2026-01-01"
    ∷ []

abbrev ran : Store ℕ
ran = record three_rows { ingestion_runs = three_runs }

as_it_is : Iterates (λ table. table)
as_it_is = record { once = λ table u. u; same = λ id table u. refl }

list_source_health_lem_example :
    Distinct (list_source_health (λ table. table) "2026-01-02" ran)
    × (health_by "a" (list_source_health (λ table. table) "2026-01-02" ran)
        ≡ told ran.sync_state "2026-01-02" "a" (runs_of "a" (take 10000 three_runs)))
list_source_health_lem_example =
    list_source_health_lem (λ table. table) "2026-01-02" "a" ran as_it_is

health_test :
    map
      (λ (h : SourceHealth). h.failures_24h)
      (list_source_health
        (λ table. table)
        "2026-01-02"
        (record three_rows { ingestion_runs = three_runs }))
    ≡ 1 ∷ 0 ∷ []
unfolding list_source_health lookup
health_test = refl
