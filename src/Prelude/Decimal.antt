-- ===== src/Prelude/Decimal.antt =====
-- `to_string` and `parse` of Rust's unsigned integers.
use Prim.Native.Nat.{ℕ, zero, suc, ◌+◌, ◌-◌, ◌*◌, ◌/◌, ◌%◌, ◌^◌}
use Prim.Native.Char.{code}
use Prim.Native.String.{String, [], ◌∷◌}
use mathlib.Core.Path.{◌≡◌, refl}
use mathlib.Core.Option.{Option, none, some}
use cyberwatch_rs.Prelude.Tests.{ltb, eqb, if◌then◌else◌}
use cyberwatch_rs.Prelude.Text.{from_code, is_ascii_digit}

-- A number has fewer digits than its value, but for zero, so the fuel `n + 1` is enough.
digits_from : ℕ → ℕ → String → String
unfolding from_code
digits_from zero n acc = acc
digits_from (suc fuel) n acc =
    let longer = from_code (b'0' + n % 10) ∷ acc in
    let rest = digits_from fuel (n / 10) longer in if ltb n 10 then longer else rest

unfoldable pub to_string : ℕ → String
unfolding digits_from
to_string n = digits_from (n + 1) n []

-- The digits of a number below `bound`: another character, or a value that does not fit, is an error.
parse_digits : ℕ → ℕ → String → Option ℕ
unfolding is_ascii_digit
parse_digits bound acc [] = some acc
parse_digits bound acc (c ∷ s) =
    let value = acc * 10 + (code c - b'0') in
    let rest = parse_digits bound value s in
    if is_ascii_digit c then (if ltb value bound then rest else none) else none

-- `str::parse::<u32>()` and the like, for the type of the numbers below `bound`: digits, with an
-- optional `+` in front.
unfoldable pub parse_below : ℕ → String → Option ℕ
unfolding parse_digits
parse_below bound [] = none
parse_below bound (c ∷ []) = parse_digits bound 0 (c ∷ [])
parse_below bound (c ∷ d ∷ s) =
    if eqb (code c) b'+' then parse_digits bound 0 (d ∷ s) else parse_digits bound 0 (c ∷ d ∷ s)

-- A number of `i64`: its size, and whether there is a minus sign in front.
pub data Signed : Type 0 where
  plus : ℕ → Signed
  minus : ℕ → Signed

abbrev as_plus : Option ℕ → Option Signed
as_plus none = none
as_plus (some n) = some (plus n)

abbrev as_minus : Option ℕ → Option Signed
as_minus none = none
as_minus (some n) = some (minus n)

-- `str::parse::<i64>()`
unfoldable pub parse_i64 : String → Option Signed
unfolding parse_below parse_digits
parse_i64 [] = none
parse_i64 (c ∷ []) = as_plus (parse_below (2 ^ 63) (c ∷ []))
parse_i64 (c ∷ d ∷ s) =
    if eqb (code c) b'-'
    then as_minus (parse_digits (2 ^ 63 + 1) 0 (d ∷ s))
    else as_plus (parse_below (2 ^ 63) (c ∷ d ∷ s))

decimal_tests :
    (to_string 1024 ≡ "1024")
    × (to_string 0 ≡ "0")
    × (parse_below 256 "255" ≡ some 255)
    × (parse_below 256 "256" ≡ none)
    × (parse_below 256 "+7" ≡ some 7)
    × (parse_below 256 "+" ≡ none)
    × (parse_i64 "-12" ≡ some (minus 12))
    × (parse_i64 "-" ≡ none)
unfolding to_string parse_below parse_i64
decimal_tests = (refl, refl, refl, refl, refl, refl, refl, refl)
