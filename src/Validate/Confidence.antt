-- ===== src/Validate/Confidence.antt =====
-- How the confidence depends on the evidence.
use cyberwatch_rs.Prelude.{
  leb, ◌==◌, text_eq, if◌then◌else◌, length, ℕ, ◌≤◌, String, ◌≡◌, refl, Bool, true, false, ◌&&◌,
  ◌||◌, Option, List, [], ◌∷◌, ◌++◌, arith,
}
use cyberwatch_rs.Prelude.Float.{Float}
use cyberwatch_rs.Prelude.Sets.{distinct, length-distinct-insert}
use cyberwatch_rs.Models.{EvidenceRecord, EpssScore}
use cyberwatch_rs.Validate.{
  source_ids, authoritative_ids, is_rejected, independent_sources, authoritative_sources,
  confidence_of, calculate_validation,
}

-- The order of the levels; a rejected record has none.
abbrev pub confidence_rank : String → ℕ
confidence_rank confidence =
    if confidence == "very-high"
    then 3
    else if confidence == "high"
    then 2
    else if confidence == "medium"
    then 1
    else 0

abbrev level : ℕ → ℕ → ℕ
level a n =
    if leb 2 a && leb 3 n
    then 3
    else if leb 2 a || (leb 1 a && leb 3 n)
    then 2
    else if leb 1 a || leb 2 n
    then 1
    else 0

rank-if :
    (b : Bool) (x y : String)
    → confidence_rank (if b then x else y) ≡ (if b then confidence_rank x else confidence_rank y)
rank-if true x y = refl
rank-if false x y = refl

rank-level : (a n : ℕ) → confidence_rank (confidence_of false a n) ≡ level a n
unfolding confidence_of
rank-level a n =
    rw
      (
        rank-if (leb 2 a && leb 3 n) "very-high" _,
        rank-if (leb 2 a || (leb 1 a && leb 3 n)) "high" _,
        rank-if (leb 1 a || leb 2 n) "medium" "low",
      )
      refl

level_mono : (a b m n : ℕ) → a ≤ b → m ≤ n → level a m ≤ level b n
level_mono a b m n h k = ground arith

rank_mono :
    (a b m n : ℕ)
    → a ≤ b
    → m ≤ n
    → confidence_rank (confidence_of false a m) ≤ confidence_rank (confidence_of false b n)
rank_mono a b m n h k = rw (rank-level a m, rank-level b n) (level_mono a b m n h k)

distinct_grows :
    (e : String) (xs ys : List String)
    → length (distinct (xs ++ ys)) ≤ length (distinct (xs ++ e ∷ ys))
distinct_grows e xs ys = ground (arith, length-distinct-insert e xs ys)

-- The tests of an authoritative record, whatever stands around it.
module _ {F : Type 0} where
  source_ids-append :
      (xs ys : List (EvidenceRecord F)) → source_ids (xs ++ ys) ≡ source_ids xs ++ source_ids ys
  unfolding source_ids
  source_ids-append [] ys = refl
  source_ids-append (x ∷ xs) ys = rw (source_ids-append xs ys)

  authoritative_ids-append :
      (xs ys : List (EvidenceRecord F))
      → authoritative_ids (xs ++ ys) ≡ authoritative_ids xs ++ authoritative_ids ys
  unfolding authoritative_ids
  authoritative_ids-append [] ys = refl
  authoritative_ids-append (x ∷ xs) ys = ground (arith, authoritative_ids-append xs ys)

  module _ (xs ys : List (EvidenceRecord F)) (e : EvidenceRecord F) where
    independent_sources_grow : independent_sources (xs ++ ys) ≤ independent_sources (xs ++ e ∷ ys)
    unfolding independent_sources
    independent_sources_grow =
        rw (source_ids-append xs ys, source_ids-append xs (e ∷ ys))
          (omega (arith, distinct_grows e.source_id (source_ids xs) (source_ids ys)))

    authoritative_sources_grow :
        authoritative_sources (xs ++ ys) ≤ authoritative_sources (xs ++ e ∷ ys)
    unfolding authoritative_sources authoritative_ids
    authoritative_sources_grow =
        rw (authoritative_ids-append xs ys, authoritative_ids-append xs (e ∷ ys))
          (ground (arith, distinct_grows e.source_id (authoritative_ids xs) (authoritative_ids ys)))

    -- A further piece of evidence, wherever it stands in the list, never lowers the confidence of a
    -- CVE that its canonical record does not reject, before or after.
    pub confidence_grows :
        ⦃float : Float F⦄ (cve_id now now' : String) (epss epss' : Option (EpssScore F))
        → is_rejected (xs ++ ys) ≡ false
        → is_rejected (xs ++ e ∷ ys) ≡ false
        → confidence_rank (calculate_validation cve_id (xs ++ ys) epss now).confidence
          ≤ confidence_rank (calculate_validation cve_id (xs ++ e ∷ ys) epss' now').confidence
    unfolding calculate_validation
    confidence_grows cve_id now now' epss epss' h k =
        rw (h, k) (rank_mono _ _ _ _ authoritative_sources_grow independent_sources_grow)
