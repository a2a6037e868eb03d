-- ===== src/Ingest/Nvd.antt =====
-- `parse_cve` of src/ingest/nvd.rs: a record of the NVD as an item and a piece of evidence.
pub mod Pages
pub mod Laws
mod Tests
use Prim.Native.String.{String, ◌++◌}
use mathlib.Core.Option as Option
use cyberwatch_rs.Prelude.{
  ◌==◌, text_eq, if◌then◌else◌, find, is_some_and, is_some, unwrap_or, ℕ, zero, suc, true, false,
  ◌||◌, Option, none, some, List, [], ◌∷◌, map,
}
use cyberwatch_rs.Prelude.Text.{to_ascii_uppercase, split}
use cyberwatch_rs.Prelude.Float.{Float}
use cyberwatch_rs.Models.{ItemInput, EvidenceInput, SourceDescriptor}
use cyberwatch_rs.Classifier.{classify, normalize_severity, severity_from_score, first_sentence}
use cyberwatch_rs.Ingest.Json.{◌>>?◌, or_else, find_map, first, replace_char, replace_pair, Crates}

-- `cve.get(...).and_then(Value::as_str)` and the like, in a section over the crates.
module _ {F : Type 0} (crates : Crates F) where
  abbrev pub text_at : crates.Value → String → Option String
  text_at value key = crates.get value key >>? crates.as_str

  abbrev pub array_at : crates.Value → String → Option (List crates.Value)
  array_at value key = crates.get value key >>? crates.as_array

  -- The English description, or else the first.
  unfoldable pub english_description : crates.Value → Option String
  english_description cve = array_at cve "descriptions" >>? λ descriptions.
      or_else
        (find (λ entry. is_some_and (text_at entry "lang") (λ lang. lang == "en")) descriptions)
        (first descriptions)
      >>? λ entry. text_at entry "value"

  abbrev decode_cpe : String → Option String
  decode_cpe value =
      if value == "*" || value == "-" || value == ""
      then none
      else some (replace_pair 0x5c b'!' b'!' (replace_char b'_' b' ' value))

  -- The vendor and the product of a CPE name: its fourth and its fifth part.
  abbrev cpe_parts : List String → Option (Option String × Option String)
  cpe_parts (part ∷ version ∷ kind ∷ vendor ∷ product ∷ rest) =
      if part == "cpe" then some (decode_cpe vendor, decode_cpe product) else none
  cpe_parts other = none

  -- The first CPE name anywhere in a value. `serde_json` refuses a text that nests deeper than 128.
  unfoldable pub first_cpe : ℕ → crates.Value → Option (Option String × Option String)
  unfolding split replace_pair replace_char
  first_cpe zero value = none
  first_cpe (suc depth) value =
      or_else (text_at value "criteria" >>? λ criteria. cpe_parts (split b':' criteria))
        (find_map (first_cpe depth) (crates.children value))

  module _ ⦃float : Float F⦄ where
    -- The score and the severity of one entry of the metrics.
    abbrev entry_score : crates.Value → Option F
    entry_score entry =
        crates.get (unwrap_or (crates.get entry "cvssData") entry) "baseScore" >>? crates.as_f64

    abbrev entry_severity : crates.Value → Option String
    entry_severity entry =
        let inner = unwrap_or (crates.get entry "cvssData") entry in
        or_else
          (or_else (crates.get inner "baseSeverity") (crates.get entry "baseSeverity")
            >>? crates.as_str
            >>? normalize_severity)
          (Option.map severity_from_score (entry_score entry))

    abbrev metric_at : Option crates.Value → String → Option crates.Value
    metric_at metrics key = metrics >>? λ value. array_at value key >>? first

    -- The loop over the versions of CVSS, the latest first.
    unfoldable pub cvss_from : Option crates.Value → List String → Option F × Option String
    unfolding normalize_severity severity_from_score
    cvss_from metrics [] = (none, none)
    cvss_from metrics (key ∷ keys) =
        let rest = cvss_from metrics keys in
        elim (metric_at metrics key) [
          | none ↦ rest
          | some entry ↦
              if is_some (entry_score entry) || is_some (entry_severity entry)
              then (entry_score entry, entry_severity entry)
              else rest
        ]

    unfoldable pub cvss : crates.Value → Option F × Option String
    unfolding cvss_from
    cvss cve =
        cvss_from (crates.get cve "metrics")
          ("cvssMetricV40" ∷ "cvssMetricV31" ∷ "cvssMetricV30" ∷ "cvssMetricV2" ∷ [])

    abbrev item_title : String → String → String
    item_title id description = id ++ (": " ++ first_sentence description 180)

    abbrev item_url : String → String
    item_url id = "https://nvd.nist.gov/vuln/detail/" ++ id

    -- The item and the evidence of a record; `now` is the time of observation.
    abbrev nvd_item : SourceDescriptor → String → crates.Value → String → String → ItemInput F
    nvd_item descriptor now cve id description =
        let named = unwrap_or (first_cpe 129 cve) (none, none) in
        record {
          id = "cve:" ++ id;
          kind = "cve";
          cve_id = some id;
          title = item_title id description;
          summary = description;
          url = item_url id;
          source_id = descriptor.id;
          source_name = descriptor.name;
          source_region = descriptor.region;
          source_language = descriptor.language;
          source_trust = descriptor.trust;
          severity = (cvss cve).1;
          cvss_score = (cvss cve).0;
          published_at = text_at cve "published";
          source_updated_at = text_at cve "lastModified";
          ingested_at = now;
          exploited = false;
          kev_date_added = none;
          remediation = none;
          due_date = none;
          ransomware_use = none;
          vendor = named.0;
          product = named.1;
          raw_json = crates.to_string cve;
          content_hash = crates.content_hash (unwrap_or (crates.to_string cve) description);
          categories =
              classify crates.to_lowercase (item_title id description ++ (" " ++ description));
          cves = id ∷ [];
        }

    abbrev nvd_evidence :
        SourceDescriptor → String → crates.Value → String → String → EvidenceInput F
    nvd_evidence descriptor now cve id description =
        let named = unwrap_or (first_cpe 129 cve) (none, none) in
        record {
          cve_id = id;
          source_id = descriptor.id;
          source_name = descriptor.name;
          evidence_type = "vulnerability-record";
          status = text_at cve "vulnStatus";
          severity = (cvss cve).1;
          cvss_score = (cvss cve).0;
          exploited = none;
          vendor = named.0;
          product = named.1;
          published_at = text_at cve "published";
          updated_at = text_at cve "lastModified";
          summary = some description;
          url = some (item_url id);
          raw_json = crates.to_string cve;
          authoritative = true;
          observed_at = now;
        }

    unfoldable pub parse_cve :
        SourceDescriptor → String → crates.Value → Option (ItemInput F × EvidenceInput F)
    unfolding english_description first_cpe cvss to_ascii_uppercase first_sentence classify
    parse_cve descriptor now cve = text_at cve "id" >>? λ text.
        let id = to_ascii_uppercase text in
        let description =
          unwrap_or (english_description cve) "No English description supplied by NVD." in
        some (
          nvd_item descriptor now cve id description,
          nvd_evidence descriptor now cve id description,
        )
