-- ===== src/Db/Backoff/Keys.antt =====
-- The keys of two sources never meet.
use Prim.Native.String.{◌++◌, count}
use text.Mathlib.TextEquality.{eq_iff}
use text.Mathlib.TextLemmas.{append_cancel_left, append_cancel_right, append_inj, length-append}
use cyberwatch_rs.Prelude.{String, ◌≡◌, refl, ap, ◌≢◌, arith}
use cyberwatch_rs.Db.Backoff.{count_key, until_key}

pub count_key_inj : (a b : String) → count_key a ≡ count_key b → a ≡ b
count_key_inj a b h =
    append_cancel_right a b ":failure_count"
      (append_cancel_left "source:" (a ++ ":failure_count") (b ++ ":failure_count") h)

pub until_key_inj : (a b : String) → until_key a ≡ until_key b → a ≡ b
until_key_inj a b h =
    append_cancel_right a b ":backoff_until"
      (append_cancel_left "source:" (a ++ ":backoff_until") (b ++ ":backoff_until") h)

same_count : (a b s t : String) → count s ≡ count t → a ++ s ≡ b ++ t → count a ≡ count b
same_count a b s t h e = omega (arith, length-append a s, length-append b t, ap count e)

pub count-ne-until : (a b : String) → count_key a ≢ until_key b
count-ne-until a b h =
    let tails = append_cancel_left "source:" (a ++ ":failure_count") (b ++ ":backoff_until") h in
    let differ =
      (append_inj tails (same_count a b ":failure_count" ":backoff_until" refl tails)).1 in
    ground (arith, eq_iff ":failure_count" ":backoff_until", differ)
