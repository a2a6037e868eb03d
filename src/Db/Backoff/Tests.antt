-- ===== src/Db/Backoff/Tests.antt =====
-- A clock to try the model on, and the theorems of the backoff at it.
use Prim.Native.Char.{Char, char}
use Prim.Native.String as Native
use Prim.Native.String.{count}
use Prim.Native.String.count
use text.Mathlib.TextEquality.{eq_iff}
use cyberwatch_rs.Prelude.{
  ltb, if◌then◌else◌, ok, ℕ, zero, suc, ◌+◌, ◌-◌, ◌*◌, ◌^◌, min, String, ◌≡◌, refl, ap, ◌≢◌, none,
  some, [], ◌∷◌, arith,
}
use cyberwatch_rs.Db.SyncState.{SyncState}
use cyberwatch_rs.Db.Backoff.{
  count_key, until_key, previous_failures, source_backoff_until, mark_source_failure, Chrono,
}
use cyberwatch_rs.Db.Backoff.Failures.{mark_source_failure_lem}

-- A time written as so many letters.
abbrev letter : Char
letter = char 120 tt

abbrev unary : ℕ → String
unary zero = Native.[]
unary (suc n) = Native.◌∷◌ letter (unary n)

count-unary : (n : ℕ) → count (unary n) ≡ n
count-unary zero = refl
count-unary (suc n) = omega (arith, count.cons letter (unary n), count-unary n)

abbrev clock : Chrono
clock = record {
  add_seconds = λ now seconds. if ltb (now + seconds) 1000 then some (now + seconds) else none;
  to_rfc3339 = unary;
  parse_from_rfc3339 = λ text. some (count text);
}

clock-reads : (t : ℕ) → clock.parse_from_rfc3339 (clock.to_rfc3339 t) ≡ some t
clock-reads t = ap some (count-unary t)

-- The table after the first failure of "nvd", at time 7, with a base of 60 seconds.
abbrev failed_once : SyncState
failed_once = (count_key "nvd", "1") ∷ (until_key "nvd", unary 67) ∷ []

nvd_fails : mark_source_failure clock 7 "nvd" 60 3600 [] ≡ some (67, failed_once)
unfolding mark_source_failure
nvd_fails = refl

mark_source_failure_lem_example :
    (previous_failures "nvd" failed_once ≡ min (previous_failures "nvd" [] + 1) 31)
    × (source_backoff_until clock "nvd" failed_once ≡ ok (some 67))
    × (clock.add_seconds 7 (min (60 * 2 ^ (min (previous_failures "nvd" [] + 1) 31 - 1)) 3600)
        ≡ some 67)
mark_source_failure_lem_example =
    mark_source_failure_lem clock 7 "nvd" 60 3600 [] 67 failed_once (clock-reads 67) (ground arith)
      nvd_fails

nvd-differs : ◌≢◌ {A = String} "nvd" "cisa-kev"
nvd-differs h = ground (arith, eq_iff "nvd" "cisa-kev")
