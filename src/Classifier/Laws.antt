-- ===== src/Classifier/Laws.antt =====
-- What the classifier guarantees.
use Prim.Native.Char.{Char}
use Prim.Native.String.{count}
use Prim.Native.String.count
use Prim.Native.String as Native
use text.Mathlib.TextEquality.{eq_iff}
use text.Mathlib.TextLemmas.{length-append}
use mathlib.Core.Path.{subst}
use cyberwatch_rs.Prelude.{
  leb, ◌==◌, text_eq, if◌then◌else◌, leb→le, Bool-cases, any, All, ℕ, zero, suc, ◌-◌, ◌≤◌, String,
  ◌≡◌, refl, inl, inr, Bool, true, false, not, ◌&&◌, ◌||◌, some, List, [], ◌∷◌, arith,
}
use cyberwatch_rs.Prelude.Text.{
  to_ascii_lowercase, drop_last, trim_end_matches, is_whitespace, trim,
}
use cyberwatch_rs.Prelude.Sets.{member, insert_sorted, member-insert_sorted}
use cyberwatch_rs.Classifier.{
  rule, rules, applies, collect, or_general, classify, severities, normalize_severity, take_chars,
  trim_end, truncate_chars, Rule,
}

-- Whether some rule for the category applies.
abbrev pub matches : String → String → List Rule → Bool
matches lower c more = any (λ r. r.category == c && applies lower r) more

member-collect :
    (lower c : String) (more : List Rule) (categories : List String)
    → member c (collect lower more categories) ≡ (member c categories || matches lower c more)
unfolding collect
member-collect lower c [] categories = ground arith
member-collect lower c (rule ∷ more) categories = ground (
  arith,
  member-insert_sorted c rule.category categories,
  member-collect lower c more
      (if applies lower rule then insert_sorted rule.category categories else categories),
)

abbrev is_nil : List String → Bool
is_nil [] = true
is_nil (x ∷ xs) = false

is_nil-insert_sorted : (x : String) (ys : List String) → is_nil (insert_sorted x ys) ≡ false
unfolding insert_sorted
is_nil-insert_sorted x [] = refl
is_nil-insert_sorted x (y ∷ ys) = ground arith

is_nil-collect :
    (lower : String) (more : List Rule) (categories : List String)
    → is_nil (collect lower more categories) ≡ (is_nil categories && not (any (applies lower) more))
unfolding collect
is_nil-collect lower [] categories = ground arith
is_nil-collect lower (rule ∷ more) categories = ground (
  arith,
  is_nil-insert_sorted rule.category categories,
  is_nil-collect lower more
      (if applies lower rule then insert_sorted rule.category categories else categories),
)

member-or_general :
    (c : String) (l : List String)
    → member c (or_general l) ≡ (if is_nil l then "general-security" == c else member c l)
unfolding member
member-or_general c [] = ground arith
member-or_general c (x ∷ xs) = refl

member-classified :
    (lower c : String) (more : List Rule)
    → member c (or_general (collect lower more []))
      ≡ (if any (applies lower) more then matches lower c more else "general-security" == c)
unfolding member
member-classified lower c more =
    rw (member-or_general c (collect lower more []), is_nil-collect lower more [])
      (ground (arith, member-collect lower c more []))

-- A text gets exactly the categories of which a rule has a keyword in the lowered text, and
-- "general-security" alone where no rule applies.
pub member-classify :
    (to_lowercase : String → String) (text c : String)
    → member c (classify to_lowercase text) ≡ (
        if any (applies (to_lowercase text)) rules
        then matches (to_lowercase text) c rules
        else "general-security" == c)
unfolding classify
member-classify to_lowercase text c = member-classified (to_lowercase text) c rules

count-drop_last :
    (p : Char → Bool) (c : Char) (s : String) → count (drop_last p c s) ≤ suc (count s)
count-drop_last p c Native.[] = elim (Bool-cases (p c)) [
  | inl gone ↦ rw gone (omega arith)
  | inr kept ↦ rw kept (omega (arith, count.cons c ""))
]
count-drop_last p c (Native.◌∷◌ d s) = omega (arith, count.cons c (Native.◌∷◌ d s), count.cons d s)

count-trim_end_matches : (p : Char → Bool) (s : String) → count (trim_end_matches p s) ≤ count s
unfolding trim_end_matches
count-trim_end_matches p Native.[] = omega arith
count-trim_end_matches p (Native.◌∷◌ c s) =
    omega (
      arith,
      count-drop_last p c (trim_end_matches p s),
      count-trim_end_matches p s,
      count.cons c s,
    )

count-take_chars : (n : ℕ) (s : String) → count (take_chars n s) ≤ n
unfolding take_chars
count-take_chars zero s = omega arith
count-take_chars (suc n) Native.[] = omega arith
count-take_chars (suc n) (Native.◌∷◌ c s) =
    omega (arith, count-take_chars n s, count.cons c (take_chars n s))

-- A shortened text has at most the characters that were asked for, if those are one at least; a text
-- that is short enough stays as it is.
pub count-truncate_chars :
    (text : String) (max_len : ℕ)
    → 1 ≤ max_len
    → (count (truncate_chars text max_len) ≤ max_len)
      × (count text ≤ max_len → truncate_chars text max_len ≡ text)
unfolding truncate_chars trim_end
count-truncate_chars text max_len h = elim (Bool-cases (leb (count text) max_len)) [
  | inl fits ↦ rw fits (leb→le _ _ fits, λ _. refl)
  | inr long ↦
      let cut : String = take_chars (max_len - 1) text in
      rw long (
        omega (
          arith,
          length-append (trim_end cut) "…",
          count-take_chars (max_len - 1) text,
          count-trim_end_matches is_whitespace cut,
        ),
        λ le. absurd (ground arith),
      )
]

All-member :
    (P : String → Type 0) (s : String) (l : List String) → All P l → member s l ≡ true → P s
unfolding member
All-member P s [] h m = cc
All-member P s (x ∷ xs) (p, ps) m = elim (Bool-cases (x == s)) [
  | inl same ↦ subst P ((eq_iff x s).0 same) p
  | inr other ↦ All-member P s xs ps (ground arith)
]

severities-normal : All (λ s. normalize_severity s ≡ some s) severities
unfolding normalize_severity
severities-normal = (refl, (refl, (refl, (refl, (refl, (refl, tt))))))

normalize_severity-listed :
    (value severity : String)
    → normalize_severity value ≡ some severity
    → member severity severities ≡ true
unfolding normalize_severity
normalize_severity-listed value severity h =
    elim (Bool-cases (member (to_ascii_lowercase (trim value)) severities)) [
      | inl known ↦ ground (arith, known)
      | inr other ↦ elim (Bool-cases (to_ascii_lowercase (trim value) == "moderate")) [
        | inl moderate ↦
            let medium : ◌≡◌ {A = String} "medium" severity = ground arith in
            subst (λ s. member s severities ≡ true) medium refl
        | inr unknown ↦ absurd (ground arith)
      ]
    ]

-- A normalised severity is one of the six words of the filter, and normalising it again changes
-- nothing.
pub normalize_severity-member :
    (value severity : String)
    → normalize_severity value ≡ some severity
    → (member severity severities ≡ true) × (normalize_severity severity ≡ some severity)
normalize_severity-member value severity h =
    let listed = normalize_severity-listed value severity h in
    (
      listed,
      All-member (λ s. normalize_severity s ≡ some s) severity severities severities-normal listed,
    )
