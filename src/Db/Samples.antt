-- ===== src/Db/Samples.antt =====
-- Small stores for the tests of src/db.rs. Scores are numbers.
use cyberwatch_rs.Prelude.{ltb, leb, ℕ, ◌-◌, min, max, String, true, false, none, some, [], ◌∷◌}
use cyberwatch_rs.Prelude.Float.{Float}
use cyberwatch_rs.Models.{ItemInput}
use cyberwatch_rs.Api.Query.{ItemFilter}
use cyberwatch_rs.Db.Store.{ItemRow, Store}

abbrev pub number_float : Float ℕ
number_float = record {
  le = leb;
  lt = ltb;
  minimum = min;
  maximum = max;
  minus = λ a b. a - b;
  zero = 0;
  one = 1;
  four = 4;
  seven = 7;
  nine = 9;
  ten = 10;
}

abbrev pub sample_item : String → String → ℕ → ItemInput ℕ
sample_item id severity trust = record {
  id = id;
  kind = "cve";
  cve_id = some id;
  title = severity;
  summary = "";
  url = "https://example.com";
  source_id = "nvd";
  source_name = "NVD";
  source_region = "Global";
  source_language = "en";
  source_trust = trust;
  severity = some severity;
  cvss_score = some 7;
  published_at = none;
  source_updated_at = none;
  ingested_at = "2026-01-03T00:00:00Z";
  exploited = false;
  kev_date_added = none;
  remediation = none;
  due_date = none;
  ransomware_use = none;
  vendor = none;
  product = none;
  raw_json = none;
  content_hash = "";
  categories = "patching" ∷ [];
  cves = id ∷ [];
}

abbrev pub sample_row : String → String → ItemRow ℕ
sample_row kind published_at = record {
  kind = kind;
  cve_id = none;
  title = "Title";
  summary = "";
  url = "https://example.com";
  source_id = "feed-a";
  source_name = "A";
  source_region = "Global";
  source_language = "en";
  source_trust = 2;
  severity = some "high";
  cvss_score = none;
  published_at = some published_at;
  source_updated_at = none;
  ingested_at = "2026-01-03T00:00:00Z";
  exploited = true;
  kev_date_added = none;
  remediation = none;
  due_date = none;
  ransomware_use = none;
  vendor = none;
  product = none;
  raw_json = none;
  content_hash = "";
}

abbrev pub empty_store : Store ℕ
empty_store = record {
  items = [];
  item_categories = [];
  item_cves = [];
  cve_evidence = [];
  cve_validation = [];
  ingestion_runs = [];
  sync_state = [];
  source_cache = [];
}

abbrev pub three_rows : Store ℕ
three_rows = record empty_store {
  items =
      ("a", sample_row "news" "2026-01-01T00:00:00Z")
      ∷ ("b", sample_row "cve" "2026-01-02T00:00:00Z")
      ∷ ("c", sample_row "news" "2026-01-01T00:00:00Z")
      ∷ [];
  item_categories = ("a", "ai") ∷ ("b", "patching") ∷ [];
}

-- Pages of two items.
abbrev pub every_item : ItemFilter
every_item = record {
  kind = none;
  category = none;
  severity = none;
  confidence = none;
  source = none;
  region = none;
  query = none;
  exploited = none;
  limit = 2;
  offset = 0;
  cursor = none;
}
