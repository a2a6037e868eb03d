-- ===== src/Ingest/Epss/Tests.antt =====
-- Lookups that a small service answers.
use cyberwatch_rs.Prelude.{
  ltb, leb, ◌==◌, text_eq, if◌then◌else◌, Result, ok, ℕ, ◌-◌, min, max, String, ◌≡◌, refl, ap,
  Option, none, some, List, [], ◌∷◌, map,
}
use cyberwatch_rs.Prelude.Table.{Table}
use cyberwatch_rs.Prelude.Float.{Float}
use cyberwatch_rs.Ingest.Json.{Crates}
use cyberwatch_rs.Models.{EpssScore}
use cyberwatch_rs.Ingest.Epss.{add_scores, fetch_scores}
use cyberwatch_rs.Ingest.Epss.Laws.{
  concat, AllInUnit, fetch_scores-InUnit, Serves, fetch_scores_lem,
}

-- A number of thousandths, as a probability is.
data Json : Type 0 where
  thousandths : ℕ → Json
  text : String → Json
  row : String → ℕ → ℕ → Json
  both : Json → Json → Json
  -- A row of each ID.
  table : List String → Json

abbrev get_in : Json → String → Option Json
get_in (row cve p q) key =
    if key == "cve"
    then some (text cve)
    else if key == "epss"
    then some (thousandths p)
    else some (thousandths q)
get_in (both x y) key = if key == "data" then some (both x y) else none
get_in (table ids) key = if key == "data" then some (table ids) else none
get_in other key = none

abbrev str_of : Json → Option String
str_of (text s) = some s
str_of other = none

abbrev array_of : Json → Option (List Json)
array_of (both x y) = some (x ∷ y ∷ [])
array_of (table ids) = some (map (λ id. row id 40 900) ids)
array_of other = none

abbrev number_of : Json → Option ℕ
number_of (thousandths n) = some n
number_of other = none

abbrev small : Crates ℕ
small = record {
  Value = Json;
  get = get_in;
  as_str = str_of;
  as_array = array_of;
  as_u64 = number_of;
  as_f64 = number_of;
  children = λ value. [];
  to_string = λ value. none;
  parse_f64 = λ s. none;
  to_lowercase = λ s. s;
  content_hash = λ s. s;
}

instance abbrev per_mille : Float ℕ
per_mille = record {
  le = leb;
  lt = ltb;
  minimum = min;
  maximum = max;
  minus = λ a b. a - b;
  zero = 0;
  one = 1000;
  four = 4000;
  seven = 7000;
  nine = 9000;
  ten = 10000;
}

-- The second score is out of range.
abbrev two_scores : List String → Result String Json
two_scores chunk = ok (both (row "cve-2026-0001" 40 900) (row "cve-2026-0002" 2000 900))

abbrev first_score : Table (EpssScore ℕ)
first_score = ("CVE-2026-0001", record { probability = 40; percentile = 900 }) ∷ []

first_alone :
    fetch_scores small two_scores ("CVE-2026-0001" ∷ "CVE-2026-0002" ∷ []) ≡ ok first_score
unfolding fetch_scores
first_alone = refl

fetch_scores-InUnit_example : AllInUnit first_score
fetch_scores-InUnit_example =
    fetch_scores-InUnit small two_scores ("CVE-2026-0001" ∷ "CVE-2026-0002" ∷ []) first_score
      first_alone

-- A service with one row of each ID.
abbrev row_of : String → Json
row_of id = row id 40 900

abbrev one_each : List String → Result String Json
one_each chunk = ok (table chunk)

concat-singles : (ids : List String) → map row_of ids ≡ concat (map (λ id. row_of id ∷ []) ids)
concat-singles [] = refl
concat-singles (id ∷ ids) = ap (◌∷◌ (row_of id)) (concat-singles ids)

one_each-Serves : Serves small one_each (λ id. row_of id ∷ [])
one_each-Serves chunk h = (table chunk, refl, ap some (concat-singles chunk))

fetch_scores_lem_example :
    fetch_scores small one_each ("CVE-2026-0001" ∷ "CVE-2026-0002" ∷ [])
    ≡ ok (add_scores small (row_of "CVE-2026-0001" ∷ row_of "CVE-2026-0002" ∷ []) [])
fetch_scores_lem_example =
    fetch_scores_lem small one_each (λ id. row_of id ∷ []) one_each-Serves
      ("CVE-2026-0001" ∷ "CVE-2026-0002" ∷ [])
