-- ===== src/Http/Url/Suffix.antt =====
-- What the end of a name is.
use Prim.Native.String.{String, [], ◌∷◌, ◌++◌}
use text.Mathlib.TextEquality.{eq_iff}
use text.Mathlib.TextLemmas.{nil-append, cons-append}
use cyberwatch_rs.Prelude.{
  ◌==◌, text_eq, Bool-cases, ◌≡◌, ◌≢◌, ◌↔◌, refl, sym, ap, ◌∙◌, inl, inr, true, false, arith,
}
use cyberwatch_rs.Prelude.Text.{ends_with}

ends_with_self : (t : String) → ends_with t t ≡ true
unfolding ends_with
ends_with_self [] = refl
ends_with_self (c ∷ t) = ground (arith, eq_iff (c ∷ t) (c ∷ t))

ends_with-append : (p t : String) → ends_with (p ++ t) t ≡ true
unfolding ends_with
ends_with-append [] t = rw (nil-append t) (ends_with_self t)
ends_with-append (c ∷ p) t = rw (cons-append c p t) (ground (arith, ends_with-append p t))

front_of : (s t : String) → ends_with s t ≡ true → (p : String) × (s ≡ p ++ t)
unfolding ends_with
front_of [] t h = ([], (eq_iff [] t).0 h ∙ sym (nil-append t))
front_of (c ∷ s) t h = elim (Bool-cases ((c ∷ s) == t)) [
  | inl whole ↦ ([], (eq_iff (c ∷ s) t).0 whole ∙ sym (nil-append t))
  | inr more ↦
      let (p, e) = front_of s t (ground arith) in
      (c ∷ p, ap (λ r. c ∷ r) e ∙ sym (cons-append c p t))
]

-- A text does not end with another exactly when it is nothing in front of it.
pub ends_with_iff : (s t : String) → (ends_with s t ≡ false) ↔ ((p : String) → s ≢ p ++ t)
ends_with_iff s t = (
  λ h p e. ground (arith, ends_with-append p t, ap (λ r. ends_with r t) e),
  λ h. elim (Bool-cases (ends_with s t)) [
    | inl found ↦ let (p, e) = front_of s t found in absurd (h p e)
    | inr other ↦ other
  ],
)
