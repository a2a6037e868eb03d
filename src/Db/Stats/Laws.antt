-- ===== src/Db/Stats/Laws.antt =====
-- How the numbers of the statistics fit together.
use text.Mathlib.TextEquality.{eq_iff}
use cyberwatch_rs.Prelude.{
  ◌==◌, text_eq, Bool-cases, length, All, is_some_and, suc, ◌+◌, ◌≤◌, String, ◌≡◌, refl, ap, inl,
  inr, Bool, true, false, Option, none, some, List, [], ◌∷◌, map, arith,
}
use cyberwatch_rs.Prelude.Sets.{distinct}
use cyberwatch_rs.Db.Store.{Store}
use cyberwatch_rs.Db.Items.Growth.{IsKind, IsValid}
use cyberwatch_rs.Db.Stats.{count, Row, is_cve, stats}

count-le {ℓ} :
    {A : Type ℓ} (p q : A → Bool) (xs : List A)
    → ((x : A) → p x ≡ true → q x ≡ true)
    → count p xs ≤ count q xs
unfolding count
count-le p q [] h = omega arith
count-le p q (x ∷ xs) h = elim (Bool-cases (p x)) [
  | inl e ↦ rw (e, h x e) (omega (arith, count-le p q xs h))
  | inr e ↦ rw e (omega (arith, count-le p q xs h))
]

-- Two properties that no element has both of.
count-add-le {ℓ} :
    {A : Type ℓ} (p q r : A → Bool) (xs : List A)
    → ((x : A) → p x ≡ true → r x ≡ true)
    → ((x : A) → q x ≡ true → r x ≡ true)
    → ((x : A) → p x ≡ true → q x ≡ false)
    → count p xs + count q xs ≤ count r xs
unfolding count
count-add-le p q r [] h k d = omega arith
count-add-le p q r (x ∷ xs) h k d = elim (Bool-cases (p x)) [
  | inl e ↦ rw (e, h x e, d x e) (omega (arith, count-add-le p q r xs h k d))
  | inr e ↦ elim (Bool-cases (q x)) [
    | inl f ↦ rw (e, f, k x f) (omega (arith, count-add-le p q r xs h k d))
    | inr f ↦ rw (e, f) (omega (arith, count-add-le p q r xs h k d))
  ]
]

length-distinct-le : (xs : List String) → length (distinct xs) ≤ length xs
unfolding distinct
length-distinct-le [] = omega arith
length-distinct-le (x ∷ xs) = ground (arith, length-distinct-le xs)

length-map {ℓ κ} :
    {A : Type ℓ} {B : Type κ} (f : A → B) (xs : List A) → length (map f xs) ≡ length xs
length-map f [] = refl
length-map f (x ∷ xs) = ap suc (length-map f xs)

one_severity :
    (severity : Option String)
    → is_some_and severity (λ stored. stored == "critical") ≡ true
    → is_some_and severity (λ stored. stored == "high") ≡ false
one_severity none h = cc
one_severity (some s) h =
    ground (arith, eq_iff s "critical", eq_iff s "high", eq_iff "critical" "high")

module _ {F : Type 0} where
  count_kinds :
      (rows : List (Row F))
      → All (λ (row : Row F). IsKind row.1.kind) rows
      → count (λ (row : Row F). row.1.kind == "news") rows + count is_cve rows ≡ length rows
  unfolding count
  count_kinds [] h = omega arith
  count_kinds (row ∷ rows) h = ground (
    arith,
    count_kinds rows h.1,
    h.0,
    eq_iff row.1.kind "news",
    eq_iff row.1.kind "cve",
    eq_iff "news" "cve",
  )

  -- Of a store that is valid, every item is counted as news or as a CVE and not as both, critical and
  -- high CVEs together are no more than the CVEs, nor are the exploited ones, those of the KEV
  -- catalogue or the validated ones, and there are no more sources than items.
  pub stats_lem :
      (now : String) (store : Store F)
      → IsValid store
      → ((stats now store).news_items + (stats now store).cve_items ≡ (stats now store).total_items)
        × ((stats now store).critical_cves + (stats now store).high_cves
            ≤ (stats now store).cve_items)
        × ((stats now store).exploited_cves ≤ (stats now store).cve_items)
        × ((stats now store).kev_cves ≤ (stats now store).cve_items)
        × ((stats now store).validated_cves ≤ (stats now store).cve_items)
        × ((stats now store).sources_seen ≤ (stats now store).total_items)
  unfolding stats
  stats_lem now store v = (
    count_kinds store.items v.kinds,
    count-add-le _ _ is_cve store.items (λ row h. ground arith) (λ row h. ground arith)
        (λ row h. ground (arith, one_severity row.1.severity)),
    count-le _ is_cve store.items (λ row h. ground arith),
    count-le _ is_cve store.items (λ row h. ground arith),
    count-le _ is_cve store.items (λ row h. ground arith),
    omega (
      arith,
      length-distinct-le (map (λ (row : Row F). row.1.source_id) store.items),
      length-map {0, 0} (λ (row : Row F). row.1.source_id) store.items,
    ),
  )
