-- ===== src/Db/Page/Order.antt =====
-- The order of the rows, and the pages cut from a list.
use text.Mathlib.TextEquality.{eq_iff}
use cyberwatch_rs.Prelude.{
  ◌==◌, text_eq, Bool-cases, length, take, pop, last, All, ℕ, zero, suc, ◌<◌, String, ◌≡◌, refl, ap,
  ◌∙◌, ◌⊎◌, inl, inr, true, false, none, some, List, [], ◌∷◌, ◌++◌, arith,
}
use cyberwatch_rs.Prelude.Table.{Table, lookup}
use cyberwatch_rs.Prelude.Order.{text_lt_irrefl, text_lt_trans, text_lt-cases}
use cyberwatch_rs.Prelude.Sort.{IsApart}
use cyberwatch_rs.Db.Store.{effective_timestamp, ItemRow}
use cyberwatch_rs.Db.Items.Growth.{Unique}
use cyberwatch_rs.Db.Page.{Row, comes_before}

module _ {F : Type 0} where
  pub comes_before_irrefl : (a : Row F) → comes_before a a ≡ false
  unfolding comes_before
  comes_before_irrefl (id, row) =
      ground (arith, text_lt_irrefl (effective_timestamp row), text_lt_irrefl id)

  pub comes_before_trans :
      (a b c : Row F) → comes_before a b ≡ true → comes_before b c ≡ true → comes_before a c ≡ true
  unfolding comes_before
  comes_before_trans (i, a) (j, b) (k, c) h l =
      let s = effective_timestamp a in
      let t = effective_timestamp b in
      let u = effective_timestamp c in
      ground (arith, text_lt_trans u t s, text_lt_trans k j i, eq_iff t s, eq_iff u t, eq_iff u s)

  abbrev pub Apart : Row F → Row F → Type 0
  Apart a b = (comes_before a b ≡ true) ⊎ (comes_before b a ≡ true)

  Apart-of_ne : (a b : Row F) → (b.0 == a.0) ≡ false → Apart a b
  unfolding comes_before
  Apart-of_ne (i, a) (j, b) h =
      let s = effective_timestamp a in
      let t = effective_timestamp b in
      elim (text_lt-cases s t) [
        | inr (inl less) ↦ inr (rw less refl)
        | inr (inr more) ↦ inl (rw more refl)
        | inl same ↦ elim (text_lt-cases i j) [
          | inl e ↦ ground (arith, eq_iff j i)
          | inr (inl less) ↦ inr (ground (arith, eq_iff s t))
          | inr (inr more) ↦ inl (ground (arith, eq_iff t s))
        ]
      ]

  All-Apart :
      (id : String) (row : ItemRow F) (rows : Table (ItemRow F))
      → lookup id rows ≡ none
      → All (Apart (id, row)) rows
  unfolding lookup
  All-Apart id row [] h = tt
  All-Apart id row ((j, other) ∷ rows) h = elim (Bool-cases (j == id)) [
    | inl e ↦ let found_it = rw e at h in cc
    | inr e ↦ (Apart-of_ne (id, row) (j, other) e, All-Apart id row rows (rw e at h))
  ]

  pub Unique-IsApart : (rows : Table (ItemRow F)) → Unique rows → IsApart comes_before rows
  Unique-IsApart [] u = tt
  Unique-IsApart ((id, row) ∷ rows) u = (All-Apart id row rows u.0, Unique-IsApart rows u.1)

-- Where more rows follow a page of `n + 1`: the page's last row, and the rows around it.
module _ {ℓ} {A : Type ℓ} where
  pub record Cut (n : ℕ) (rows : List A) : Type ℓ where
    pub pre : List A
    pub final : A
    pub post : List A
    pub whole : rows ≡ pre ++ final ∷ post
    pub kept : pop (take (suc (suc n)) rows) ≡ pre ++ final ∷ []
    pub final_last : last (pre ++ final ∷ []) ≡ some final

  last-cons : (x : A) (pre : List A) (c : A) → last (x ∷ pre ++ c ∷ []) ≡ last (pre ++ c ∷ [])
  last-cons x [] c = refl
  last-cons x (y ∷ pre) c = refl

  pub cut : (n : ℕ) (rows : List A) → suc n < length rows → Cut n rows
  cut n [] h = absurd (omega arith)
  cut n (x ∷ []) h = absurd (omega arith)
  cut zero (x ∷ y ∷ ys) h = record {
    pre = [];
    final = x;
    post = y ∷ ys;
    whole = refl;
    kept = refl;
    final_last = refl;
  }
  cut (suc n) (x ∷ y ∷ ys) h =
      let rest = cut n (y ∷ ys) (omega arith) in
      record {
        pre = x ∷ rest.pre;
        final = rest.final;
        post = rest.post;
        whole = ap (◌∷◌ x) rest.whole;
        kept = ap (◌∷◌ x) rest.kept;
        final_last = last-cons x rest.pre rest.final ∙ rest.final_last;
      }
