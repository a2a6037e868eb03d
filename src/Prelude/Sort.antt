-- ===== src/Prelude/Sort.antt =====
-- Sorting by an order that a program can test: `ORDER BY` of a list with no two equal keys.
use cyberwatch_rs.Prelude.Tests.{if◌then◌else◌, Bool-cases}
use cyberwatch_rs.Prelude.Lists.{keep, All}
use mathlib.Core.Path.{◌≡◌, refl, sym, ◌∙◌}
use mathlib.Core.Logic.{◌⊎◌, inl, inr}
use mathlib.Core.Bool.{Bool, true≢false, true, false}
use mathlib.Core.List.{List, [], ◌∷◌, ◌++◌}
use native.Mathlib.Omega.{arith}

module _ {ℓ} {A : Type ℓ} (before : A → A → Bool) where
  unfoldable pub insert : A → List A → List A
  insert x [] = x ∷ []
  insert x (y ∷ ys) = if before x y then x ∷ y ∷ ys else y ∷ insert x ys

  unfoldable pub sort : List A → List A
  unfolding insert
  sort [] = []
  sort (x ∷ xs) = insert x (sort xs)

  -- Each element comes before all that follow it.
  abbrev pub IsSorted : List A → Type 0
  IsSorted [] = Unit
  IsSorted (x ∷ xs) = All (λ y. before x y ≡ true) xs × IsSorted xs

  -- Of any two elements, one comes before the other.
  abbrev pub IsApart : List A → Type 0
  IsApart [] = Unit
  IsApart (x ∷ xs) = All (λ y. (before x y ≡ true) ⊎ (before y x ≡ true)) xs × IsApart xs

  pub All-insert {κ} : (P : A → Type κ) (x : A) (ys : List A) → P x → All P ys → All P (insert x ys)
  unfolding insert
  All-insert P x [] h k = (h, k)
  All-insert P x (y ∷ ys) h k = elim (Bool-cases (before x y)) [
    | inl e ↦ rw e (h, k)
    | inr e ↦ rw e (k.0, All-insert P x ys h k.1)
  ]

  pub All-sort {κ} : (P : A → Type κ) (xs : List A) → All P xs → All P (sort xs)
  unfolding sort
  All-sort P [] h = h
  All-sort P (x ∷ xs) h = All-insert P x (sort xs) h.0 (All-sort P xs h.1)

  module _ (trans : (a b c : A) → before a b ≡ true → before b c ≡ true → before a c ≡ true) where
    pub All-before :
        (x y : A) (ys : List A)
        → before x y ≡ true
        → All (λ z. before y z ≡ true) ys
        → All (λ z. before x z ≡ true) ys
    All-before x y [] h k = k
    All-before x y (z ∷ zs) h k = (trans x y z h k.0, All-before x y zs h k.1)

    insert-IsSorted :
        (x : A) (ys : List A)
        → All (λ y. (before x y ≡ true) ⊎ (before y x ≡ true)) ys
        → IsSorted ys
        → IsSorted (insert x ys)
    unfolding insert
    insert-IsSorted x [] a s = (tt, tt)
    insert-IsSorted x (y ∷ ys) a s = elim (Bool-cases (before x y)) [
      | inl e ↦ rw e ((e, All-before x y ys e s.0), s)
      | inr e ↦ rw e (
        All-insert (λ z. before y z ≡ true) x ys (elim a.0 [ inl f ↦ cc | inr f ↦ f ]) s.0,
        insert-IsSorted x ys a.1 s.1,
      )
    ]

    pub sort-IsSorted : (xs : List A) → IsApart xs → IsSorted (sort xs)
    unfolding sort
    sort-IsSorted [] a = tt
    sort-IsSorted (x ∷ xs) a =
        insert-IsSorted x (sort xs) (All-sort _ xs a.0) (sort-IsSorted xs a.1)

    insert-first : (x : A) (ys : List A) → All (λ z. before x z ≡ true) ys → insert x ys ≡ x ∷ ys
    unfolding insert
    insert-first x [] h = refl
    insert-first x (y ∷ ys) h = rw h.0

    pub All-keep {κ} : (P : A → Type κ) (q : A → Bool) (xs : List A) → All P xs → All P (keep q xs)
    All-keep P q [] h = h
    All-keep P q (x ∷ xs) h = elim (Bool-cases (q x)) [
      | inl e ↦ rw e (h.0, All-keep P q xs h.1)
      | inr e ↦ rw e (All-keep P q xs h.1)
    ]

    keep-insert :
        (q : A → Bool) (x : A) (ys : List A)
        → IsSorted ys
        → keep q (insert x ys) ≡ (if q x then insert x (keep q ys) else keep q ys)
    unfolding insert
    keep-insert q x [] s = refl
    keep-insert q x (y ∷ ys) s = elim (Bool-cases (before x y)) [
      | inl e ↦
          let first : insert x (keep q (y ∷ ys)) ≡ x ∷ keep q (y ∷ ys) =
            insert-first x (keep q (y ∷ ys))
              (All-keep (λ z. before x z ≡ true) q (y ∷ ys) (e, All-before x y ys e s.0)) in
          rw (e, first)
      | inr e ↦ rw (e, keep-insert q x ys s.1) (ground arith)
    ]

    -- To sort what passes is to keep what passes of the sorted list.
    pub sort-keep : (q : A → Bool) (xs : List A) → IsApart xs → sort (keep q xs) ≡ keep q (sort xs)
    unfolding sort
    sort-keep q [] a = refl
    sort-keep q (x ∷ xs) a = elim (Bool-cases (q x)) [
      | inl e ↦ rw (keep-insert q x (sort xs) (sort-IsSorted xs a.1), e, sort-keep q xs a.1)
      | inr e ↦ rw (keep-insert q x (sort xs) (sort-IsSorted xs a.1), e, sort-keep q xs a.1)
    ]

    -- In a sorted list the elements after a given one are those that it comes before.
    module _ (irrefl : (a : A) → before a a ≡ false) where
      keep-all : (q : A → Bool) (xs : List A) → All (λ x. q x ≡ true) xs → keep q xs ≡ xs
      keep-all q [] h = refl
      keep-all q (x ∷ xs) h = rw (h.0, keep-all q xs h.1)

      pub All-middle :
          (P : A → Type 0) (pre : List A) (c : A) (post : List A) → All P (pre ++ c ∷ post) → P c
      All-middle P [] c post h = h.0
      All-middle P (x ∷ pre) c post h = All-middle P pre c post h.1

      pub keep-after :
          (pre : List A) (c : A) (post : List A)
          → IsSorted (pre ++ c ∷ post)
          → keep (before c) (pre ++ c ∷ post) ≡ post
      keep-after [] c post s = rw (irrefl c) (keep-all (before c) post s.0)
      keep-after (x ∷ pre) c post s = elim (Bool-cases (before c x)) [
        | inl e ↦
            let first : before x c ≡ true = All-middle _ pre c post s.0 in
            absurd (true≢false (sym (trans x c x first e) ∙ irrefl x))
        | inr e ↦ rw e (keep-after pre c post s.1)
      ]
