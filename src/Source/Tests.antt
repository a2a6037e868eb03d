-- ===== src/Source/Tests.antt =====
-- An output and adapters to try the checks on.
use cyberwatch_rs.Prelude.{All, ok, err, ℕ, String, ◌≡◌, refl, ◌↔◌, false, none, [], ◌∷◌, map}
use cyberwatch_rs.Models.{empty_batch, ItemInput, SourceDescriptor}
use cyberwatch_rs.Http.Url.{UrlCrate}
use cyberwatch_rs.Http.Tests.{site_crate}
use cyberwatch_rs.Validate.Tests.{whole}
use cyberwatch_rs.Source.Output.{validate, SourceOutput, mismatched_source}
use cyberwatch_rs.Source.Output.Laws.{validate_iff, IsSourceOutput}
use cyberwatch_rs.Source.Registry.{new, id_of, register_all, SourceAdapter, SourceRegistry}
use cyberwatch_rs.Source.Registry.Laws.{NoRepeat, Named, register_all_iff}

abbrev pub descriptor_of : String → SourceDescriptor
descriptor_of id = record {
  id = id;
  name = id;
  kind = "feed";
  region = "Global";
  language = "en";
  role = "media";
  trust = 1;
  timeout_seconds = 30;
  retry_attempts = 0;
}

abbrev news_item : ItemInput ℕ
news_item = record {
  id = "news-1";
  kind = "news";
  cve_id = none;
  title = "A title";
  summary = "";
  url = "https://example.org";
  source_id = "feed-a";
  source_name = "A";
  source_region = "Global";
  source_language = "en";
  source_trust = 1;
  severity = none;
  cvss_score = none;
  published_at = none;
  source_updated_at = none;
  ingested_at = "2026-01-01T00:00:00Z";
  exploited = false;
  kev_date_added = none;
  remediation = none;
  due_date = none;
  ransomware_use = none;
  vendor = none;
  product = none;
  raw_json = none;
  content_hash = "";
  categories = [];
  cves = [];
}

abbrev pub one_item : SourceOutput ℕ
one_item = record {
  batch = record empty_batch { items = news_item ∷ [] };
  fetched = 1;
  candidate_upserts = 1;
  skipped = false;
  note = none;
}

instance abbrev pub test_crate : UrlCrate
test_crate = site_crate

output_tests :
    (validate (descriptor_of "feed-a") one_item ≡ ok tt)
    × (validate (descriptor_of "feed-b") one_item ≡ err mismatched_source)
unfolding validate
output_tests = (refl, refl)

validate_iff_example :
    (validate (descriptor_of "feed-a") one_item ≡ ok tt)
    ↔ IsSourceOutput (descriptor_of "feed-a") one_item
validate_iff_example = validate_iff (descriptor_of "feed-a") one_item

-- An adapter is its ID.
instance abbrev named : SourceAdapter String
named = record { descriptor = descriptor_of }

register_all_iff_example :
    ((final : SourceRegistry String) × (register_all new ("nvd" ∷ "feed-a" ∷ []) ≡ ok final)
      × (final.adapters ≡ "nvd" ∷ "feed-a" ∷ []))
    ↔ (All {A = String} Named ("nvd" ∷ "feed-a" ∷ [])
        × NoRepeat (map {A = String} id_of ("nvd" ∷ "feed-a" ∷ [])))
register_all_iff_example = register_all_iff ("nvd" ∷ "feed-a" ∷ [])
