-- ===== src/Ingest/Nvd/Tests.antt =====
-- A server with three records on pages of two.
use cyberwatch_rs.Prelude.{
  ◌==◌, text_eq, if◌then◌else◌, length, Result, ok, ℕ, zero, suc, ◌+◌, ◌-◌, ◌*◌, ◌≤◌, min, String,
  ◌≡◌, refl, Option, none, some, List, [], ◌∷◌, map, arith,
}
use cyberwatch_rs.Models.{ItemInput}
use cyberwatch_rs.Validate.Tests.{whole}
use cyberwatch_rs.Ingest.Sources.{nvd_descriptor}
use cyberwatch_rs.Ingest.Json.{Crates}
use cyberwatch_rs.Ingest.Nvd.Pages.{
  minute, day, window_start, first_state, add_records, fetch_pages, PageState,
}
use cyberwatch_rs.Ingest.Nvd.Laws.{window_start_bounds, Serves, fetch_pages_lem}

data Json : Type 0 where
  number : ℕ → Json
  text : String → Json
  -- A record with an ID, and so many of them in an array.
  entry : Json
  array : ℕ → Json
  page : ℕ → ℕ → Json

abbrev get_in : Json → String → Option Json
get_in (page total count) key =
    if key == "totalResults"
    then some (number total)
    else if key == "vulnerabilities"
    then some (array count)
    else none
get_in entry key =
    if key == "cve" then some entry else if key == "id" then some (text "cve-2026-0001") else none
get_in other key = none

abbrev entries : ℕ → List Json
entries zero = []
entries (suc n) = entry ∷ entries n

abbrev str_of : Json → Option String
str_of (text s) = some s
str_of other = none

abbrev array_of : Json → Option (List Json)
array_of (array n) = some (entries n)
array_of other = none

abbrev number_of : Json → Option ℕ
number_of (number n) = some n
number_of other = none

abbrev small : Crates ℕ
small = record {
  Value = Json;
  get = get_in;
  as_str = str_of;
  as_array = array_of;
  as_u64 = number_of;
  as_f64 = number_of;
  children = λ value. [];
  to_string = λ value. none;
  parse_f64 = λ s. none;
  to_lowercase = λ s. s;
  content_hash = λ s. s;
}

abbrev two_a_page : ℕ → Result String Json
two_a_page start = ok (page 3 (min 2 (3 - start)))

two_a_page-Serves : Serves small nvd_descriptor "now" two_a_page 2 (entries 3)
two_a_page-Serves zero h = (page 3 2, refl, refl)
two_a_page-Serves (suc zero) h = (page 3 2, refl, refl)
two_a_page-Serves (suc (suc zero)) h = (page 3 1, refl, refl)
two_a_page-Serves (suc (suc (suc n))) h = absurd (omega arith)

fetch_pages_lem_example :
    (final : PageState ℕ) × (fetch_pages small nvd_descriptor "now" two_a_page 500 first_state
      ≡ ok final)
    × ((final.items, final.evidence) ≡ add_records small nvd_descriptor "now" (entries 3) ([], []))
    × (final.fetched ≡ length (entries 3))
fetch_pages_lem_example =
    fetch_pages_lem small nvd_descriptor "now" two_a_page 2 (entries 3) (omega arith)
      two_a_page-Serves (omega arith) (omega arith) (omega arith)

parsed_id :
    map
      (λ (item : ItemInput ℕ). item.id)
      (add_records small nvd_descriptor "now" (entries 1) ([], [])).0
    ≡ "cve:CVE-2026-0001" ∷ []
unfolding add_records
parsed_id = refl

window_start_bounds_example :
    (window_start 10 7 (some (200 * day)) (201 * day) ≤ 201 * day)
    × (201 * day ≤ window_start 10 7 (some (200 * day)) (201 * day) + 119 * day)
    × ((time : ℕ)
        → some (200 * day) ≡ some time
        → time ≤ 201 * day
        → 201 * day ≤ time - 10 * minute + 119 * day
        → window_start 10 7 (some (200 * day)) (201 * day) ≡ time - 10 * minute)
window_start_bounds_example = window_start_bounds 10 7 (some (200 * day)) (201 * day) (omega arith)
