-- ===== src/Api/Handlers/Tests.antt =====
-- The handlers over a small store.
use cyberwatch_rs.Prelude.{
  leb, ◌==◌, text_eq, any, is_ok, is_some, ok, err, ℕ, String, len, ◌≡◌, refl, true, not, ◌&&◌,
  ◌||◌, none, some, List, [], ◌∷◌, map,
}
use cyberwatch_rs.Prelude.Table.{Table, lookup}
use cyberwatch_rs.Models.{empty_batch, ItemInput, IngestBatch, SourceHealth}
use cyberwatch_rs.Api.Handlers.{handle_get_item, sources, Queries}
use cyberwatch_rs.Api.Handlers.Laws.{
  queries_of, handle_get_item-apply_batch, Discreet, sources-hides,
}
use cyberwatch_rs.Db.Samples.{number_float, sample_item, three_rows}
use cyberwatch_rs.Db.Items.{apply_batch}
use cyberwatch_rs.Db.Items.Batch.{kinds_fit}

abbrev one_cve : IngestBatch ℕ
one_cve = record empty_batch { items = sample_item "cve:CVE-1" "high" 3 ∷ [] }

one_fits : kinds_fit one_cve.items ≡ true
unfolding kinds_fit
one_fits = refl

handle_get_item-apply_batch_example :
    is_ok (handle_get_item (queries_of (apply_batch number_float one_cve three_rows).1) "cve:CVE-1")
    ≡ (not (◌==◌ {A = String} "cve:CVE-1" "")
        && leb (len "cve:CVE-1") 240
        && (is_some (lookup "cve:CVE-1" three_rows.items)
            || any (λ (item : ItemInput ℕ). item.id == "cve:CVE-1") one_cve.items))
handle_get_item-apply_batch_example =
    handle_get_item-apply_batch number_float one_cve three_rows "cve:CVE-1" one_fits

abbrev failed_once : SourceHealth
failed_once = record {
  source_id = "nvd";
  source_name = "NVD";
  source_kind = "structured";
  last_status = "failed";
  last_run_at = none;
  last_success_at = none;
  failures_24h = 1;
  last_error = some "GET https://example.com?key=abc failed";
  backoff_until = none;
}

abbrev with_failure : Queries ℕ
with_failure = record {
  list_items = λ filter. err "";
  get_item = λ id. err "";
  get_cve_item = λ id. err "";
  get_evidence = λ id. err "";
  get_validation = λ id. err "";
  stats = err "";
  list_source_health = ok (failed_once ∷ []);
  ready = err "";
}

values : Table SourceHealth → List SourceHealth
values table = map (λ (row : String × SourceHealth). row.1) table

abbrev answered : List SourceHealth
answered = record failed_once { last_error = some "source failed; inspect server logs" } ∷ []

answered_test : sources with_failure values [] ≡ ok answered
unfolding sources values
answered_test = refl

sources-hides_example : Discreet (sources with_failure values [])
sources-hides_example = sources-hides with_failure values []
