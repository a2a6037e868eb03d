-- ===== src/Prelude/Like.antt =====
-- SQLite's `LOWER` and `LIKE`: `%` stands for any text, `_` for any one character, and the case of
-- ASCII letters does not count.
use Prim.Native.Char.{Char, code}
use Prim.Native.String.{String, [], ◌∷◌}
use mathlib.Core.Path.{◌≡◌, refl}
use mathlib.Core.Bool.{Bool, true, false, ◌&&◌, ◌||◌}
use cyberwatch_rs.Prelude.Tests.{eqb, if◌then◌else◌}
use cyberwatch_rs.Prelude.Text.{to_lower, to_ascii_lowercase}

-- The text without some of its first characters passes.
abbrev some_suffix : (String → Bool) → String → Bool
some_suffix p [] = p []
some_suffix p (c ∷ s) = p (c ∷ s) || some_suffix p s

-- The text has a first character that passes, and a rest that passes.
abbrev first_and : (Char → Bool) → (String → Bool) → String → Bool
first_and p q [] = false
first_and p q (c ∷ s) = p c && q s

abbrev is_nothing : String → Bool
is_nothing [] = true
is_nothing (c ∷ s) = false

matches_lower : String → String → Bool
unfolding to_lower
matches_lower [] = is_nothing
matches_lower (d ∷ p) =
    let rest = matches_lower p in
    if eqb (code d) b'%'
    then some_suffix rest
    else if eqb (code d) b'_'
    then first_and (λ c. true) rest
    else first_and (λ c. eqb (code c) (code d)) rest

-- `LOWER(text) LIKE LOWER(pattern)`
unfoldable pub like : String → String → Bool
unfolding matches_lower to_ascii_lowercase
like text pattern = matches_lower (to_ascii_lowercase pattern) (to_ascii_lowercase text)

like_tests :
    (like "Acme Corp" "%ME c%" ≡ true)
    × (like "Acme" "%x%" ≡ false)
    × (like "Acme" "%a_m%" ≡ true)
    × (like "" "%%" ≡ true)
unfolding like
like_tests = (refl, refl, refl, refl)
