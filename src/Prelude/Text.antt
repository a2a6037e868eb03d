-- ===== src/Prelude/Text.antt =====
-- What the program calls of Rust's `str` and `char`, over the native text: a `String` is its
-- characters, and `len` counts the bytes of its UTF-8.
use Prim.Native.Nat.{compare, Ordering}
use Prim.Native.Char.{Char, char, code, IsScalar}
use Prim.Native.String.{String, [], ◌∷◌}
use mathlib.Core.Bool.{true, ◌||◌}
use mathlib.Core.Option.{Option, some, none}
use mathlib.Core.List.{List, [], ◌∷◌}
use mathlib.Core.Logic.{dite}
use mathlib.Core.Path.{◌≡◌, refl}
use mathlib.Core.Bool.{Bool, ◌&&◌}
use Prim.Native.Nat.{ℕ, ◌+◌, ◌-◌, ◌<◌}
use text.Mathlib.Text.{starts_with}
use native.Mathlib.Omega.{arith}
use native.Mathlib.Decide.{dec_lt}
use cyberwatch_rs.Prelude.Tests.{leb, eqb, ◌==◌, text_eq, if◌then◌else◌}

compare_below : (n m : ℕ) → n < m → compare n m ≡ Ordering.lt
compare_below n m h = ground arith

pub IsScalar-of_lt : (n : ℕ) → n < 55296 → IsScalar n
IsScalar-of_lt n h = rw (compare_below n 55296 h) tt

-- The characters below U+D800 by their numbers.
unfoldable pub from_code : ℕ → Char
unfolding dec_lt
from_code n = dite (dec_lt n 55296) (λ h. char n (IsScalar-of_lt n h)) (λ _. char 0 tt)

abbrev pub in_range : ℕ → ℕ → Char → Bool
in_range lo hi c = leb lo (code c) && leb (code c) hi

unfoldable pub is_ascii_digit : Char → Bool
is_ascii_digit c = in_range b'0' b'9' c

unfoldable pub to_upper : Char → Char
unfolding from_code
to_upper c = if in_range b'a' b'z' c then from_code (code c - 32) else c

unfoldable pub to_lower : Char → Char
unfolding from_code
to_lower c = if in_range b'A' b'Z' c then from_code (code c + 32) else c

unfoldable pub to_ascii_uppercase : String → String
unfolding to_upper
to_ascii_uppercase [] = []
to_ascii_uppercase (c ∷ s) = to_upper c ∷ to_ascii_uppercase s

unfoldable pub to_ascii_lowercase : String → String
unfolding to_lower
to_ascii_lowercase [] = []
to_ascii_lowercase (c ∷ s) = to_lower c ∷ to_ascii_lowercase s

-- `eq_ignore_ascii_case`
unfoldable pub eq_ignore_ascii_case : String → String → Bool
unfolding to_ascii_lowercase
eq_ignore_ascii_case s t = to_ascii_lowercase s == to_ascii_lowercase t

unfoldable pub ends_with : String → String → Bool
ends_with [] t = [] == t
ends_with (c ∷ s) t = (c ∷ s) == t || ends_with s t

unfoldable pub strip_prefix : String → String → Option String
strip_prefix s [] = some s
strip_prefix [] (d ∷ p) = none
strip_prefix (c ∷ s) (d ∷ p) =
    let rest = strip_prefix s p in if eqb (code c) (code d) then rest else none

-- `trim_start_matches` and `trim_end_matches` of the characters that pass a test.
unfoldable pub trim_start_matches : (Char → Bool) → String → String
trim_start_matches p [] = []
trim_start_matches p (c ∷ s) = let rest = trim_start_matches p s in if p c then rest else c ∷ s

abbrev pub drop_last : (Char → Bool) → Char → String → String
drop_last p c [] = if p c then [] else c ∷ []
drop_last p c (d ∷ s) = c ∷ d ∷ s

unfoldable pub trim_end_matches : (Char → Bool) → String → String
trim_end_matches p [] = []
trim_end_matches p (c ∷ s) = drop_last p c (trim_end_matches p s)

-- `char::is_whitespace`: the Unicode property White_Space.
unfoldable pub is_whitespace : Char → Bool
is_whitespace c =
    in_range 9 13 c
    || eqb (code c) 32
    || eqb (code c) 0x85
    || eqb (code c) 0xa0
    || eqb (code c) 0x1680
    || in_range 0x2000 0x200a c
    || in_range 0x2028 0x2029 c
    || eqb (code c) 0x202f
    || eqb (code c) 0x205f
    || eqb (code c) 0x3000

unfoldable pub trim : String → String
unfolding trim_start_matches trim_end_matches is_whitespace
trim s = trim_end_matches is_whitespace (trim_start_matches is_whitespace s)

-- `split` at every character with a given number; there is always a first part.
abbrev pub push_front : Char → List String → List String
push_front c [] = (c ∷ []) ∷ []
push_front c (p ∷ ps) = (c ∷ p) ∷ ps

unfoldable pub split : ℕ → String → List String
split sep [] = [] ∷ []
split sep (c ∷ s) =
    let rest = split sep s in if eqb (code c) sep then [] ∷ rest else push_front c rest

unfoldable pub all_chars : (Char → Bool) → String → Bool
all_chars p [] = true
all_chars p (c ∷ s) = p c && all_chars p s

-- `contains` of a text
unfoldable pub contains : String → String → Bool
contains [] t = [] == t
contains (c ∷ s) t = starts_with (c ∷ s) t || contains s t

text_tests :
    (to_ascii_uppercase "cve-é2" ≡ "CVE-é2")
    × (trim " a b\n" ≡ "a b")
    × (split b'-' "CVE-2024-1" ≡ "CVE" ∷ "2024" ∷ "1" ∷ [])
    × (strip_prefix "CVE-1" "CVE-" ≡ some "1")
    × (ends_with "a.local" ".local" ≡ true)
    × (contains "abc" "bc" ≡ true)
unfolding to_ascii_uppercase trim split strip_prefix ends_with contains
text_tests = (refl, refl, refl, refl, refl, refl)
