-- ===== src/Api/CveId.antt =====
-- `validate_cve_id` of src/api.rs, and `is_cve_id` of src/ingest/source.rs.
pub mod Laws
use cyberwatch_rs.Prelude.{
  leb, ◌==◌, number_eq, if◌then◌else◌, Result, ok, err, String, len, ◌≡◌, refl, Bool, true, false,
  ◌&&◌, Option, none, some, List, [], ◌∷◌,
}
use cyberwatch_rs.Prelude.Text.{is_ascii_digit, to_ascii_uppercase, strip_prefix, split, all_chars}
use cyberwatch_rs.Api.Error.{bad_request, ApiError}

abbrev pub all_digits : String → Bool
all_digits s = all_chars is_ascii_digit s

abbrev pub good_year : String → Bool
good_year year = len year == 4 && all_digits year

-- The guard and the pattern of the parts: two of them, and no third.
abbrev pub guard_api : List String → Bool
guard_api (year ∷ sequence ∷ []) =
    good_year year && (leb 4 (len sequence) && leb (len sequence) 8) && all_digits sequence
guard_api _ = false

abbrev bad_cve_id : ApiError
bad_cve_id = bad_request "invalid CVE ID"

abbrev pub checked : String → Option String → Result ApiError String
checked value none = err bad_cve_id
checked value (some rest) = if guard_api (split b'-' rest) then ok value else err bad_cve_id

unfoldable pub validate_cve_id : String → Result ApiError String
unfolding to_ascii_uppercase strip_prefix split all_chars is_ascii_digit
validate_cve_id given =
    let value = to_ascii_uppercase given in checked value (strip_prefix value "CVE-")

-- The same of src/ingest/source.rs, which tests the year and the digits as src/api.rs does.
abbrev pub guard_source : List String → Bool
guard_source (year ∷ sequence ∷ []) =
    good_year year && leb 4 (len sequence) && leb (len sequence) 8 && all_digits sequence
guard_source _ = false

abbrev pub accepted_rest : Option String → Bool
accepted_rest none = false
accepted_rest (some rest) = guard_source (split b'-' rest)

unfoldable pub is_cve_id : String → Bool
unfolding strip_prefix split all_chars is_ascii_digit
is_cve_id value = accepted_rest (strip_prefix value "CVE-")

cve_id_tests :
    (validate_cve_id "cve-2026-1234" ≡ ok "CVE-2026-1234")
    × (validate_cve_id "CVE-26-1" ≡ err bad_cve_id)
    × (is_cve_id "CVE-2026-1234" ≡ true)
    × (is_cve_id "CVE-2026-1234-5" ≡ false)
unfolding validate_cve_id is_cve_id
cve_id_tests = (refl, refl, refl, refl)
