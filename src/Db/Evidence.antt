-- ===== src/Db/Evidence.antt =====
-- `get_evidence`, `get_validation` and `cve_ids_for_validation` of src/db.rs. Where the keys of two
-- rows are equal, SQLite may give them in any order; the model gives one of those.
use mathlib.Core.Option as Option
use cyberwatch_rs.Prelude.{
  ◌==◌, text_eq, if◌then◌else◌, take, keep, is_some, unwrap_or, ℕ, ◌-◌, ◌^◌, min, String, Bool,
  true, false, not, ◌&&◌, ◌||◌, Option, none, some, List, [], ◌∷◌, map,
}
use cyberwatch_rs.Prelude.Table.{lookup}
use cyberwatch_rs.Prelude.Order.{text_lt}
use cyberwatch_rs.Prelude.Sort.{sort}
use cyberwatch_rs.Models.{EvidenceInput, ValidationInput, EvidenceRecord, ValidationRecord}
use cyberwatch_rs.Db.Store.{coalesce, ItemRow, Store}

abbrev validated_before : Option String → Option String → Bool
validated_before none none = false
validated_before none (some b) = true
validated_before (some a) none = false
validated_before (some a) (some b) = text_lt a b

module _ {F : Type 0} where
  -- `ORDER BY authoritative DESC, source_name ASC, evidence_type ASC`
  unfoldable pub evidence_before : EvidenceInput F → EvidenceInput F → Bool
  unfolding text_lt
  evidence_before a b =
      (a.authoritative && not b.authoritative)
      || (if a.authoritative then b.authoritative else not b.authoritative)
        && (text_lt a.source_name b.source_name
            || a.source_name == b.source_name && text_lt a.evidence_type b.evidence_type)

  unfoldable pub evidence_record : EvidenceInput F → EvidenceRecord F
  evidence_record row = record {
    cve_id = row.cve_id;
    source_id = row.source_id;
    source_name = row.source_name;
    evidence_type = row.evidence_type;
    status = row.status;
    severity = row.severity;
    cvss_score = row.cvss_score;
    exploited = row.exploited;
    vendor = row.vendor;
    product = row.product;
    published_at = row.published_at;
    updated_at = row.updated_at;
    summary = row.summary;
    url = row.url;
    authoritative = row.authoritative;
    observed_at = row.observed_at;
  }

  unfoldable pub get_evidence : String → Store F → List (EvidenceRecord F)
  unfolding evidence_before evidence_record sort
  get_evidence cve_id store =
      map evidence_record
        (sort evidence_before (keep (λ row. row.cve_id == cve_id) store.cve_evidence))

  unfoldable pub validation_record : ValidationInput F → ValidationRecord F
  validation_record row = record {
    cve_id = row.cve_id;
    confidence = row.confidence;
    independent_sources = row.independent_sources;
    authoritative_sources = row.authoritative_sources;
    severity_disagreement = row.severity_disagreement;
    cvss_disagreement = row.cvss_disagreement;
    uncorroborated_exploitation = row.uncorroborated_exploitation;
    missing_canonical = row.missing_canonical;
    canonical_status = row.canonical_status;
    epss_probability = row.epss_probability;
    epss_percentile = row.epss_percentile;
    calculated_at = row.calculated_at;
  }

  unfoldable pub get_validation : String → Store F → Option (ValidationRecord F)
  unfolding validation_record lookup
  get_validation cve_id store = Option.map validation_record (lookup cve_id store.cve_validation)

  -- The time of the last validation, which a CVE that has none lacks.
  abbrev calculated : Store F → ItemRow F → Option String
  calculated store row = elim row.cve_id [
    | none ↦ none
    | some cve_id ↦
        Option.map (λ (v : ValidationInput F). v.calculated_at) (lookup cve_id store.cve_validation)
  ]

  -- `COALESCE(i.source_updated_at, i.published_at, i.ingested_at)`
  abbrev last_change : ItemRow F → String
  last_change row = unwrap_or (coalesce row.source_updated_at row.published_at) row.ingested_at

  -- CVEs without a validation come first, then the oldest validations; among equals, the latest
  -- change.
  unfoldable pub due_before : Store F → String × ItemRow F → String × ItemRow F → Bool
  unfolding text_lt lookup
  due_before store (i, a) (j, b) =
      validated_before (calculated store a) (calculated store b)
      || not (validated_before (calculated store b) (calculated store a))
        && text_lt (last_change b) (last_change a)

  abbrev some_ids : List (String × ItemRow F) → List String
  some_ids [] = []
  some_ids ((id, row) ∷ rows) =
      let rest = some_ids rows in elim row.cve_id [ none ↦ rest | some cve_id ↦ cve_id ∷ rest ]

  unfoldable pub cve_ids_for_validation : ℕ → Store F → List String
  unfolding due_before sort
  cve_ids_for_validation limit store = take (min limit (2 ^ 63 - 1)) (
      some_ids (
        sort (due_before store)
          (keep (λ row. row.1.kind == "cve" && is_some row.1.cve_id) store.items)))
