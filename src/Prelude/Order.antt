-- ===== src/Prelude/Order.antt =====
-- The order of texts, by their characters' numbers: that of Rust's `str`, and of SQLite's texts.
use Prim.Native.Nat.{Ordering}
use Prim.Native.Char.{Char, code}
use Prim.Native.String.compare
use Prim.Native.String.{String, [], ◌∷◌, compare}
use text.Mathlib.TextEquality.{codes_equal, path_by_compare}
use text.Mathlib.TextPositions.{compare_refl}
use mathlib.Core.Path.{◌≡◌, refl, sym, ap, ◌∙◌}
use mathlib.Core.Logic.{◌⊎◌, inl, inr}
use mathlib.Core.Bool.{Bool, true, false, ◌&&◌, ◌||◌}
use native.Mathlib.Omega.{arith}
use cyberwatch_rs.Prelude.Tests.{ltb, eqb, Bool-cases, if◌then◌else◌}

is_less : Ordering → Bool
is_less Ordering.lt = true
is_less Ordering.eq = false
is_less Ordering.gt = false

unfoldable pub text_lt : String → String → Bool
unfolding is_less
text_lt s t = is_less (compare s t)

-- The first characters decide, and the rest where they are the same.
text_lt-cons :
    (c d : Char) (s t : String)
    → text_lt (c ∷ s) (d ∷ t) ≡ (ltb (code c) (code d) || (eqb (code c) (code d) && text_lt s t))
unfolding text_lt
text_lt-cons c d s t = rw (compare.cons-cons c d s t) (ground arith)

text_lt-nil : (s : String) → text_lt s [] ≡ false
unfolding text_lt
text_lt-nil [] = refl
text_lt-nil (c ∷ s) = rw (compare.cons-nil c s)

nil-text_lt : (c : Char) (s : String) → text_lt [] (c ∷ s) ≡ true
unfolding text_lt
nil-text_lt c s = rw (compare.nil-cons c s)

pub text_lt_irrefl : (s : String) → text_lt s s ≡ false
text_lt_irrefl [] = text_lt-nil []
text_lt_irrefl (c ∷ s) = ground (arith, text_lt-cons c c s s, text_lt_irrefl s)

pub text_lt_trans : (s t u : String) → text_lt s t ≡ true → text_lt t u ≡ true → text_lt s u ≡ true
text_lt_trans s t [] h k = ground (arith, text_lt-nil t)
text_lt_trans s [] (e ∷ u) h k = ground (arith, text_lt-nil s)
text_lt_trans [] (d ∷ t) (e ∷ u) h k = nil-text_lt e u
text_lt_trans (c ∷ s) (d ∷ t) (e ∷ u) h k =
    ground
      (arith, text_lt-cons c d s t, text_lt-cons d e t u, text_lt-cons c e s u, text_lt_trans s t u)

same_codes : (c d : Char) → ltb (code c) (code d) ≡ false → ltb (code d) (code c) ≡ false → c ≡ d
same_codes c d h k = codes_equal c d (ground arith)

-- Two texts are the same, or one is less.
pub text_lt-cases : (s t : String) → (s ≡ t) ⊎ ((text_lt s t ≡ true) ⊎ (text_lt t s ≡ true))
text_lt-cases [] [] = inl refl
text_lt-cases [] (d ∷ t) = inr (inl (nil-text_lt d t))
text_lt-cases (c ∷ s) [] = inr (inr (nil-text_lt c s))
text_lt-cases (c ∷ s) (d ∷ t) = elim (Bool-cases (ltb (code c) (code d))) [
  | inl less ↦ inr (inl (ground (arith, text_lt-cons c d s t)))
  | inr h ↦ elim (Bool-cases (ltb (code d) (code c))) [
    | inl more ↦ inr (inr (ground (arith, text_lt-cons d c t s)))
    | inr k ↦ elim (text_lt-cases s t) [
      | inl same ↦ inl (cc (same_codes c d h k))
      | inr (inl less) ↦ inr (inl (ground (arith, text_lt-cons c d s t)))
      | inr (inr more) ↦ inr (inr (ground (arith, text_lt-cons d c t s)))
    ]
  ]
]

-- `MIN` and `MAX` of two texts.
unfoldable pub min_text : String → String → String
min_text s t = if text_lt t s then t else s

unfoldable pub max_text : String → String → String
max_text s t = if text_lt s t then t else s

-- What `compare` answers, by the order.
less-eq : (o : Ordering) → is_less o ≡ true → o ≡ Ordering.lt
unfolding is_less
less-eq Ordering.lt h = refl
less-eq Ordering.eq h = cc
less-eq Ordering.gt h = cc

pub compare-lt : (s t : String) → text_lt s t ≡ true → compare s t ≡ Ordering.lt
unfolding text_lt
compare-lt s t h = less-eq (compare s t) h

pub compare-same : (s t : String) → s ≡ t → compare s t ≡ Ordering.eq
compare-same s t h = ap (compare s) (sym h) ∙ compare_refl s

compare-neither : (o : Ordering) → is_less o ≡ false → (o ≡ Ordering.eq → ⊥) → o ≡ Ordering.gt
unfolding is_less
compare-neither Ordering.lt h k = cc
compare-neither Ordering.eq h k = absurd (k refl)
compare-neither Ordering.gt h k = refl

pub compare-gt : (s t : String) → text_lt t s ≡ true → compare s t ≡ Ordering.gt
unfolding text_lt
compare-gt s t h =
    compare-neither (compare s t) (ground (arith, text_lt_trans s t s, text_lt_irrefl s, h))
      (λ e. ground (arith, text_lt_irrefl s, h, ap (λ r. text_lt r s) (path_by_compare s t e)))
