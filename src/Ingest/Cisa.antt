-- ===== src/Ingest/Cisa.antt =====
-- `run` of src/ingest/cisa.rs: the KEV catalogue from the first of its addresses that has it, as items
-- and evidence.
mod Tests
use Prim.Native.Char.{Char, code}
use Prim.Native.String.{String, [], ◌∷◌, ◌++◌}
use mathlib.Core.List as List
use mathlib.Core.Option as Option
use text.Mathlib.Text.{starts_with}
use cyberwatch_rs.Prelude.{
  eqb, ◌==◌, text_eq, if◌then◌else◌, length, find, is_some_and, unwrap_or, Bool, true, false, ◌||◌,
  Option, none, some, List, map,
}
use cyberwatch_rs.Prelude.Text.{
  to_ascii_uppercase, trim_start_matches, trim_end_matches, is_whitespace, trim, push_front,
  contains,
}
use cyberwatch_rs.Models.{
  empty_batch, ItemInput, EvidenceInput, SyncUpdate, SourceCacheUpdate, SourceDescriptor,
}
use cyberwatch_rs.Classifier.{classify}
use cyberwatch_rs.Source.Output.{unchanged, SourceOutput}
use cyberwatch_rs.Ingest.Json.{◌>>?◌, trim_matches, Crates}

unfoldable pub date_to_timestamp : String → String
unfolding contains
date_to_timestamp date = if contains date "T" then date else date ++ "T00:00:00Z"

abbrev is_separator : Char → Bool
is_separator c = is_whitespace c || eqb (code c) b';' || eqb (code c) b','

abbrev is_bracket : Char → Bool
is_bracket c = eqb (code c) b'(' || eqb (code c) b')' || eqb (code c) b'[' || eqb (code c) b']'

-- `split` at each character that passes.
unfoldable pub split_where : (Char → Bool) → String → List String
split_where p [] = List.◌∷◌ [] List.[]
split_where p (c ∷ s) =
    let rest = split_where p s in if p c then List.◌∷◌ [] rest else push_front c rest

unfoldable pub first_http_url : String → Option String
unfolding split_where is_whitespace trim_start_matches trim_end_matches
first_http_url notes =
    find (λ part. starts_with part "https://" || starts_with part "http://")
      (map (trim_matches is_bracket) (split_where is_separator notes))

-- What a fetch of the catalogue answers: the body's hash, its JSON if it is one, and the validators.
pub record CatalogReply (V : Type 0) : Type 0 where
  pub hash : String
  pub payload : Option V
  pub etag : Option String
  pub last_modified : Option String
  pub final_url : String

module _ {F : Type 0} (crates : Crates F) where
  unfoldable pub string_field : crates.Value → String → Option String
  unfolding trim
  string_field value key = crates.get value key >>? crates.as_str >>? λ text.
      if trim text == "" then none else some (trim text)

  abbrev record_title : crates.Value → String → String
  record_title entry cve_id =
      unwrap_or (string_field entry "vulnerabilityName")
        (cve_id ++ " — known exploited vulnerability")

  abbrev record_summary : crates.Value → String
  record_summary entry = unwrap_or (string_field entry "shortDescription") ""

  abbrev record_text : crates.Value → String → String
  record_text entry cve_id =
      record_title entry cve_id
      ++ (" "
          ++ (record_summary entry ++ (" " ++ unwrap_or (string_field entry "requiredAction") "")))

  abbrev record_url : crates.Value → String
  record_url entry =
      unwrap_or (string_field entry "notes" >>? first_http_url)
        "https://www.cisa.gov/known-exploited-vulnerabilities-catalog"

  module _ (descriptor : SourceDescriptor) (now : String) where
    abbrev cisa_item : crates.Value → String → ItemInput F
    cisa_item entry cve_id = record {
      id = "cve:" ++ cve_id;
      kind = "cve";
      cve_id = some cve_id;
      title = record_title entry cve_id;
      summary = record_summary entry;
      url = record_url entry;
      source_id = descriptor.id;
      source_name = descriptor.name;
      source_region = descriptor.region;
      source_language = descriptor.language;
      source_trust = descriptor.trust;
      severity = none;
      cvss_score = none;
      published_at = Option.map date_to_timestamp (string_field entry "dateAdded");
      source_updated_at = none;
      ingested_at = now;
      exploited = true;
      kev_date_added = string_field entry "dateAdded";
      remediation = string_field entry "requiredAction";
      due_date = string_field entry "dueDate";
      ransomware_use = string_field entry "knownRansomwareCampaignUse";
      vendor = string_field entry "vendorProject";
      product = string_field entry "product";
      raw_json = crates.to_string entry;
      content_hash =
          crates.content_hash (unwrap_or (crates.to_string entry) (record_text entry cve_id));
      categories = classify crates.to_lowercase (record_text entry cve_id);
      cves = List.◌∷◌ cve_id List.[];
    }

    abbrev cisa_evidence : crates.Value → String → EvidenceInput F
    cisa_evidence entry cve_id = record {
      cve_id = cve_id;
      source_id = descriptor.id;
      source_name = descriptor.name;
      evidence_type = "known-exploitation";
      status = some "KNOWN_EXPLOITED";
      severity = none;
      cvss_score = none;
      exploited = some true;
      vendor = string_field entry "vendorProject";
      product = string_field entry "product";
      published_at = Option.map date_to_timestamp (string_field entry "dateAdded");
      updated_at = none;
      summary = some (record_summary entry);
      url = some (record_url entry);
      raw_json = crates.to_string entry;
      authoritative = true;
      observed_at = now;
    }

    -- The loop over the entries of the catalogue; one without an ID is passed over.
    unfoldable pub map_entries : List crates.Value → List (ItemInput F × EvidenceInput F)
    unfolding to_ascii_uppercase string_field date_to_timestamp first_http_url classify
    map_entries List.[] = List.[]
    map_entries (List.◌∷◌ entry entries) =
        let rest = map_entries entries in
        elim (crates.get entry "cveID" >>? crates.as_str) [
          | none ↦ rest
          | some text ↦
              let cve_id = to_ascii_uppercase text in
              List.◌∷◌ (cisa_item entry cve_id, cisa_evidence entry cve_id) rest
        ]

    abbrev cache_update : CatalogReply crates.Value → SourceCacheUpdate
    cache_update reply = record {
      source_id = descriptor.id;
      etag = reply.etag;
      last_modified = reply.last_modified;
      content_hash = reply.hash;
    }

    abbrev vulnerabilities_of : CatalogReply crates.Value → Option (List crates.Value)
    vulnerabilities_of reply =
        reply.payload >>? λ payload. crates.get payload "vulnerabilities" >>? crates.as_array

    abbrev version_update : CatalogReply crates.Value → List SyncUpdate
    version_update reply =
        elim (reply.payload >>? λ payload. crates.get payload "catalogVersion" >>? crates.as_str) [
          | none ↦ List.[]
          | some version ↦
              List.◌∷◌ (record { key = "cursor:cisa-kev:catalog-version"; value = version }) List.[]
        ]

    unfoldable pub catalog_output : CatalogReply crates.Value → List crates.Value → SourceOutput F
    unfolding map_entries
    catalog_output reply vulnerabilities =
        let mapped = map_entries vulnerabilities in
        record {
          batch = record {
            items = map (λ pair. pair.0) mapped;
            evidence = map (λ pair. pair.1) mapped;
            sync_updates = version_update reply;
            cache_updates = List.◌∷◌ (cache_update reply) List.[];
          };
          fetched = length vulnerabilities;
          candidate_upserts = length mapped;
          skipped = false;
          note = some ("source_url=" ++ reply.final_url);
        }

    abbrev unchanged_output : CatalogReply crates.Value → SourceOutput F
    unchanged_output reply =
        let output : SourceOutput F = unchanged "CISA KEV catalog is unchanged" in
        record output {
          batch = record empty_batch { cache_updates = List.◌∷◌ (cache_update reply) List.[] };
        }

    -- The loop over the addresses: the replies in their order, none where the fetch fails. An
    -- unchanged catalogue ends the run, and a reply without the array of vulnerabilities counts as
    -- a failure; the run fails where none is left.
    unfoldable pub run_catalog :
        Option String → List (Option (CatalogReply crates.Value)) → Option (SourceOutput F)
    unfolding catalog_output unchanged
    run_catalog cached List.[] = none
    run_catalog cached (List.◌∷◌ none replies) = run_catalog cached replies
    run_catalog cached (List.◌∷◌ (some reply) replies) =
        let rest = run_catalog cached replies in
        elim (is_some_and cached (λ hash. hash == reply.hash)) [
          | true ↦ some (unchanged_output reply)
          | false ↦ elim (vulnerabilities_of reply) [
            | some vulnerabilities ↦ some (catalog_output reply vulnerabilities)
            | none ↦ rest
          ]
        ]
