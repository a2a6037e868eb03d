-- ===== src/Validate.antt =====
-- src/ingest/validate.rs: `calculate_validation`, the cross-source verdict on one CVE. `calculated_at`
-- is an argument; `F` holds the scores.
pub mod Confidence
pub mod Tests
use cyberwatch_rs.Prelude.{
  ltb, leb, ◌==◌, text_eq, if◌then◌else◌, length, any, find, is_some_and, is_some, ℕ, ◌-◌, ◌^◌, min,
  String, Bool, false, not, ◌&&◌, ◌||◌, Option, none, some, List, [], ◌∷◌,
}
use cyberwatch_rs.Prelude.Text.{eq_ignore_ascii_case}
use cyberwatch_rs.Prelude.Float.{Float}
use cyberwatch_rs.Prelude.Sets.{distinct}
use cyberwatch_rs.Models.{ValidationInput, EvidenceRecord, EpssScore}
use cyberwatch_rs.Classifier.{normalize_severity}

-- `i64::try_from(n).unwrap_or(i64::MAX)`
abbrev pub as_i64 : ℕ → ℕ
as_i64 n = min n (2 ^ 63 - 1)

abbrev pub push_some : Option String → List String → List String
push_some none rest = rest
push_some (some s) rest = s ∷ rest

abbrev pub normal : Option String → Option String
normal none = none
normal (some severity) = normalize_severity severity

module _ {F : Type 0} where
  unfoldable pub source_ids : List (EvidenceRecord F) → List String
  source_ids [] = []
  source_ids (e ∷ evidence) = e.source_id ∷ source_ids evidence

  unfoldable pub authoritative_ids : List (EvidenceRecord F) → List String
  authoritative_ids [] = []
  authoritative_ids (e ∷ evidence) =
      let rest = authoritative_ids evidence in if e.authoritative then e.source_id ∷ rest else rest

  unfoldable pub normal_severities : List (EvidenceRecord F) → List String
  unfolding normalize_severity
  normal_severities [] = []
  normal_severities (e ∷ evidence) = push_some (normal e.severity) (normal_severities evidence)

  unfoldable pub scores : List (EvidenceRecord F) → List F
  scores [] = []
  scores (e ∷ evidence) =
      let rest = scores evidence in elim e.cvss_score [ none ↦ rest | some score ↦ score ∷ rest ]

  abbrev pub claims_exploited : EvidenceRecord F → Bool
  claims_exploited e = is_some_and e.exploited (λ b. b)

  abbrev pub is_canonical : EvidenceRecord F → Bool
  is_canonical e = e.source_id == "cve-program"

  abbrev pub status_of : Option (EvidenceRecord F) → Option String
  status_of none = none
  status_of (some e) = e.status

  unfoldable pub is_rejected : List (EvidenceRecord F) → Bool
  unfolding eq_ignore_ascii_case
  is_rejected evidence =
      is_some_and (status_of (find is_canonical evidence))
        (λ status. eq_ignore_ascii_case status "REJECTED")

  unfoldable pub independent_sources : List (EvidenceRecord F) → ℕ
  unfolding distinct source_ids
  independent_sources evidence = as_i64 (length (distinct (source_ids evidence)))

  unfoldable pub authoritative_sources : List (EvidenceRecord F) → ℕ
  unfolding distinct authoritative_ids
  authoritative_sources evidence = as_i64 (length (distinct (authoritative_ids evidence)))

abbrev probability_of : {F : Type 0} → Option (EpssScore F) → Option F
probability_of none = none
probability_of (some score) = some score.probability

abbrev percentile_of : {F : Type 0} → Option (EpssScore F) → Option F
percentile_of none = none
percentile_of (some score) = some score.percentile

unfoldable pub confidence_of : Bool → ℕ → ℕ → String
confidence_of rejected authoritative independent =
    if rejected
    then "rejected"
    else if leb 2 authoritative && leb 3 independent
    then "very-high"
    else if leb 2 authoritative || (leb 1 authoritative && leb 3 independent)
    then "high"
    else if leb 1 authoritative || leb 2 independent
    then "medium"
    else "low"

module _ {F : Type 0} ⦃float : Float F⦄ where
  -- The fold over the scores: the least and the greatest so far.
  unfoldable pub score_range : Option (F × F) → List F → Option (F × F)
  score_range range [] = range
  score_range none (score ∷ more) = score_range (some (score, score)) more
  score_range (some (low, high)) (score ∷ more) =
      score_range (some (float.minimum low score, float.maximum high score)) more

  abbrev pub is_wide : Option (F × F) → Bool
  is_wide none = false
  is_wide (some (low, high)) = float.le float.one (float.minus high low)

  unfoldable pub calculate_validation :
      String → List (EvidenceRecord F) → Option (EpssScore F) → String → ValidationInput F
  unfolding confidence_of independent_sources authoritative_sources is_rejected normal_severities
      scores score_range
  calculate_validation cve_id evidence epss now = record {
    cve_id = cve_id;
    confidence =
        confidence_of (is_rejected evidence) (authoritative_sources evidence)
          (independent_sources evidence);
    independent_sources = independent_sources evidence;
    authoritative_sources = authoritative_sources evidence;
    severity_disagreement = ltb 1 (length (distinct (normal_severities evidence)));
    cvss_disagreement = is_wide (score_range none (scores evidence));
    uncorroborated_exploitation =
        any claims_exploited evidence
        && not (any (λ e. e.source_id == "cisa-kev" && claims_exploited e) evidence);
    missing_canonical = not (is_some (find is_canonical evidence));
    canonical_status = status_of (find is_canonical evidence);
    epss_probability = probability_of epss;
    epss_percentile = percentile_of epss;
    calculated_at = now;
  }
