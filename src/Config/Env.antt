-- ===== src/Config/Env.antt =====
-- `env_or`, `optional_env` and `secret_env` of src/config.rs.
use Prim.Native.String as Native
use cyberwatch_rs.Prelude.{
  ltb, ◌==◌, text_eq, if◌then◌else◌, ok_or, is_some_and, Result, ok, err, ℕ, ◌^◌, min, max, String,
  len, Bool, true, false, ◌||◌, Option, none, some,
}
use cyberwatch_rs.Prelude.Text.{trim}
use cyberwatch_rs.Prelude.Decimal.{parse_below, Signed, plus, minus}
use cyberwatch_rs.Config.{ConfigError, invalid, both_set, unreadable, bad_secret}

abbrev pub Lookup : Type 0
Lookup = String → Option String

-- The trimmed value, if it is not blank.
abbrev pub not_blank : String → Option String
not_blank value = if trim value == "" then none else some (trim value)

unfoldable pub optional_env : Lookup → String → Option String
unfolding trim
optional_env lookup name = elim (lookup name) [ none ↦ none | some value ↦ not_blank value ]

-- `env_or`, where `parse` is the type's `FromStr`.
unfoldable pub env_or {ℓ} :
    {A : Type ℓ} → (String → Option A) → Lookup → String → A → Result ConfigError A
unfolding optional_env
env_or parse lookup name default = elim (optional_env lookup name) [
  | none ↦ ok default
  | some value ↦ ok_or (parse value) (invalid name)
]

abbrev pub parse_u64 : String → Option ℕ
parse_u64 value = parse_below (2 ^ 64) value

abbrev pub parse_bool : String → Option Bool
parse_bool value =
    if value == "true" then some true else if value == "false" then some false else none

-- `clamp` and `max` of an `i64`, for bounds that are not negative.
abbrev pub clamp : ℕ → ℕ → ℕ → ℕ
clamp low high n = max low (min high n)

abbrev pub clamp_signed : ℕ → ℕ → Signed → ℕ
clamp_signed low high (plus n) = clamp low high n
clamp_signed low high (minus n) = low

abbrev pub at_least : ℕ → Signed → ℕ
at_least low (plus n) = max low n
at_least low (minus n) = low

-- What reading at most 16385 bytes of the file at a path gives.
abbrev pub Files : Type 0
Files = String → Option String

module _ (files : Files) (lookup : Lookup) where
  abbrev secret_of_file : String → Option String → Result ConfigError (Option String)
  secret_of_file name none = err (unreadable name)
  secret_of_file name (some text) =
      if trim text == "" || ltb 16384 (len (trim text))
      then err (bad_secret name)
      else ok (some (trim text))

  abbrev secret_direct : String → Option String → Result ConfigError (Option String)
  secret_direct name direct =
      if is_some_and direct (λ value. ltb 16384 (len value))
      then err (bad_secret name)
      else ok direct

  abbrev choose_secret : String → Option String → Option String → Result ConfigError (Option String)
  choose_secret name direct none = secret_direct name direct
  choose_secret name none (some path) = secret_of_file name (files path)
  choose_secret name (some value) (some path) = err (both_set name)

  unfoldable pub secret_env : String → Result ConfigError (Option String)
  unfolding optional_env
  secret_env name =
      choose_secret name (optional_env lookup name) (optional_env lookup (Native.◌++◌ name "_FILE"))
