-- ===== src/Api/CveId/Laws.antt =====
-- The two checks of a CVE ID agree, and an accepted ID is in its normal form.
use Prim.Native.Char.{Char, code}
use Prim.Native.String as Native
use mathlib.Core.Logic.{dif_pos}
use native.Mathlib.Bridge.{le_prop}
use cyberwatch_rs.Prelude.{
  if◌then◌else◌, Bool-cases, ok, err, ℕ, ◌-◌, ◌<◌, String, ◌≡◌, refl, inl, inr, Bool, true, false,
  Option, none, some, List, [], ◌∷◌, arith, dec_lt,
}
use cyberwatch_rs.Prelude.Text.{
  from_code, in_range, to_upper, to_ascii_uppercase, strip_prefix, split,
}
use cyberwatch_rs.Api.Error.{bad_request}
use cyberwatch_rs.Api.CveId.{
  guard_api, checked, validate_cve_id, guard_source, accepted_rest, is_cve_id,
}

guards_agree : (parts : List String) → guard_api parts ≡ guard_source parts
guards_agree [] = refl
guards_agree (year ∷ []) = refl
guards_agree (year ∷ sequence ∷ []) = ground arith
guards_agree (year ∷ sequence ∷ third ∷ more) = refl

code-from_code : (n : ℕ) → n < 55296 → code (from_code n) ≡ n
unfolding from_code
code-from_code n h = rw (dif_pos (dec_lt n 55296) le_prop h) refl

abbrev is_lower : Char → Bool
is_lower c = in_range b'a' b'z' c

to_upper_other : (c : Char) → is_lower c ≡ false → to_upper c ≡ c
unfolding to_upper
to_upper_other c h = rw h

to_upper_lower : (c : Char) → is_lower c ≡ true → to_upper c ≡ from_code (code c - 32)
unfolding to_upper
to_upper_lower c h = rw h

from_code-is_upper : (c : Char) → is_lower c ≡ true → is_lower (from_code (code c - 32)) ≡ false
from_code-is_upper c h = rw (code-from_code (code c - 32) (ground arith)) (ground arith)

to_upper_idem : (c : Char) → to_upper (to_upper c) ≡ to_upper c
to_upper_idem c = elim (Bool-cases (is_lower c)) [
  | inl lower ↦ rw (to_upper_lower c lower) (to_upper_other _ (from_code-is_upper c lower))
  | inr other ↦ rw (to_upper_other c other) (to_upper_other c other)
]

upper_idem : (s : String) → to_ascii_uppercase (to_ascii_uppercase s) ≡ to_ascii_uppercase s
unfolding to_ascii_uppercase
upper_idem Native.[] = refl
upper_idem (Native.◌∷◌ c s) = rw (to_upper_idem c, upper_idem s)

checked_lem :
    (value : String) (rest : Option String)
    → checked value rest
      ≡ (if accepted_rest rest then ok value else err (bad_request "invalid CVE ID"))
checked_lem value none = refl
checked_lem value (some rest) = rw (guards_agree (split b'-' rest))

-- A request's CVE ID is accepted exactly when its upper-case form is one that the ingestion accepts,
-- and that form is the answer.
pub validate_cve_id_lem :
    (given : String)
    → validate_cve_id given ≡ (
        if is_cve_id (to_ascii_uppercase given)
        then ok (to_ascii_uppercase given)
        else err (bad_request "invalid CVE ID"))
unfolding validate_cve_id is_cve_id
validate_cve_id_lem given =
    checked_lem (to_ascii_uppercase given) (strip_prefix (to_ascii_uppercase given) "CVE-")

-- The ID that an accepted request answers is accepted again, as it is.
pub validate_cve_id_stable :
    (given id : String) → validate_cve_id given ≡ ok id → validate_cve_id id ≡ ok id
validate_cve_id_stable given id h = elim (Bool-cases (is_cve_id (to_ascii_uppercase given))) [
  | inl good ↦
      let same : to_ascii_uppercase given ≡ id = ground (arith, validate_cve_id_lem given) in
      rw (validate_cve_id_lem id, ← same, upper_idem given, good)
  | inr bad ↦ absurd (ground (arith, validate_cve_id_lem given))
]
