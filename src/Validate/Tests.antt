-- ===== src/Validate/Tests.antt =====
-- Evidence to try the validation on. Scores are whole numbers here.
use cyberwatch_rs.Prelude.{
  ltb, leb, ℕ, ◌-◌, ◌≤◌, min, max, String, ◌≡◌, refl, Bool, true, false, none, some, [], ◌∷◌,
}
use cyberwatch_rs.Prelude.Float.{Float}
use cyberwatch_rs.Models.{EvidenceRecord}
use cyberwatch_rs.Validate.{is_rejected, calculate_validation}
use cyberwatch_rs.Validate.Confidence.{confidence_rank, confidence_grows}

instance abbrev pub whole : Float ℕ
whole = record {
  le = leb;
  lt = ltb;
  minimum = min;
  maximum = max;
  minus = λ a b. a - b;
  zero = 0;
  one = 1;
  four = 4;
  seven = 7;
  nine = 9;
  ten = 10;
}

abbrev evidence_by : String → Bool → EvidenceRecord ℕ
evidence_by source_id authoritative = record {
  cve_id = "CVE-2026-1234";
  source_id = source_id;
  source_name = source_id;
  evidence_type = "canonical";
  status = some "Analyzed";
  severity = some "high";
  cvss_score = some 8;
  exploited = none;
  vendor = none;
  product = none;
  published_at = none;
  updated_at = none;
  summary = none;
  url = none;
  authoritative = authoritative;
  observed_at = "2026-01-01T00:00:00Z";
}

abbrev nvd_evidence : EvidenceRecord ℕ
nvd_evidence = evidence_by "nvd" true

abbrev github_evidence : EvidenceRecord ℕ
github_evidence = evidence_by "github-advisories" true

nvd_accepted : is_rejected (nvd_evidence ∷ []) ≡ false
unfolding is_rejected
nvd_accepted = refl

both_accepted : is_rejected (nvd_evidence ∷ github_evidence ∷ []) ≡ false
unfolding is_rejected
both_accepted = refl

confidence_grows_example :
    confidence_rank (calculate_validation "CVE-2026-1234" (nvd_evidence ∷ []) none "t0").confidence
    ≤ confidence_rank
        (calculate_validation "CVE-2026-1234"
          (nvd_evidence ∷ github_evidence ∷ [])
          none
          "t1").confidence
confidence_grows_example =
    confidence_grows (nvd_evidence ∷ []) [] github_evidence "CVE-2026-1234" "t0" "t1" none none
      nvd_accepted both_accepted
