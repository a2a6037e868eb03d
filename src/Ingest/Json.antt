-- ===== src/Ingest/Json.antt =====
-- What the adapters call of other crates: `serde_json` (an abstract type of values with its
-- accessors), `sha2` (`content_hash`), `str::to_lowercase` and the parser of `f64`.
use Prim.Native.Char.{Char, code}
use Prim.Native.String.{String, [], ◌∷◌}
use cyberwatch_rs.Prelude.{eqb, if◌then◌else◌, ℕ, Bool, ◌&&◌, Option, none, some, List}
use cyberwatch_rs.Prelude.Text.{from_code, trim_start_matches, trim_end_matches}

pub record Crates (F : Type 0) : Type 1 where
  pub Value : Type 0
  pub get : Value → String → Option Value
  pub as_str : Value → Option String
  pub as_array : Value → Option (List Value)
  pub as_u64 : Value → Option ℕ
  pub as_f64 : Value → Option F
  -- The elements of an array, or the values of an object.
  pub children : Value → List Value
  pub to_string : Value → Option String
  pub parse_f64 : String → Option F
  pub to_lowercase : String → String
  pub content_hash : String → String

-- `and_then` of an option.
infixl 20 ◌>>?◌
abbrev pub ◌>>?◌ {ℓ κ} : {A : Type ℓ} {B : Type κ} → Option A → (A → Option B) → Option B
none >>? f = none
some a >>? f = f a

-- `or_else`, `find_map` and `first`.
abbrev pub or_else {ℓ} : {A : Type ℓ} → Option A → Option A → Option A
or_else none b = b
or_else (some a) b = some a

abbrev pub find_map {ℓ κ} : {A : Type ℓ} {B : Type κ} → (A → Option B) → List A → Option B
find_map f List.[] = none
find_map f (List.◌∷◌ x xs) = or_else (f x) (find_map f xs)

abbrev pub first {ℓ} : {A : Type ℓ} → List A → Option A
first List.[] = none
first (List.◌∷◌ x xs) = some x

-- `trim_matches` of the characters that pass.
abbrev pub trim_matches : (Char → Bool) → String → String
trim_matches p s = trim_end_matches p (trim_start_matches p s)

-- `replace` of a character, and of two characters in a row.
unfoldable pub replace_char : ℕ → ℕ → String → String
unfolding from_code
replace_char old new [] = []
replace_char old new (c ∷ s) =
    (if eqb (code c) old then from_code new else c) ∷ replace_char old new s

unfoldable pub replace_pair : ℕ → ℕ → ℕ → String → String
unfolding from_code
replace_pair a b new [] = []
replace_pair a b new (c ∷ []) = c ∷ []
replace_pair a b new (c ∷ d ∷ s) =
    let one = c ∷ replace_pair a b new (d ∷ s) in
    let two = from_code new ∷ replace_pair a b new s in
    if eqb (code c) a && eqb (code d) b then two else one
