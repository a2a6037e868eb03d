-- ===== src/Db/Stats.antt =====
-- `stats` and `cve_ids_for_validation` of src/db.rs.
pub mod Laws
use mathlib.Core.Option as Option
use cyberwatch_rs.Prelude.{
  ◌==◌, text_eq, if◌then◌else◌, length, is_some_and, is_some, ℕ, ◌+◌, String, Bool, ◌&&◌, List, [],
  ◌∷◌, map,
}
use cyberwatch_rs.Prelude.Table.{Table, lookup}
use cyberwatch_rs.Prelude.Sets.{distinct, insert_sorted}
use cyberwatch_rs.Models.{Stats}
use cyberwatch_rs.Db.Store.{ItemRow, Store}

-- `SUM(CASE WHEN ... THEN 1 ELSE 0 END)`
unfoldable pub count {ℓ} : {A : Type ℓ} → (A → Bool) → List A → ℕ
count p [] = 0
count p (x ∷ xs) = (if p x then 1 else 0) + count p xs

-- `SELECT category, COUNT(*) ... GROUP BY category` into a `BTreeMap`.
abbrev pub sorted_set : List String → List String
sorted_set [] = []
sorted_set (x ∷ xs) = insert_sorted x (sorted_set xs)

unfoldable pub category_counts : Table String → Table ℕ
unfolding insert_sorted count
category_counts rows =
    map (λ category. (category, count (λ (row : String × String). row.1 == category) rows))
      (sorted_set (map (λ (row : String × String). row.1) rows))

abbrev pub Row : Type 0 → Type 0
Row F = String × ItemRow F

module _ {F : Type 0} where
  abbrev pub is_cve : Row F → Bool
  is_cve row = row.1.kind == "cve"

  abbrev pub of_severity : String → Row F → Bool
  of_severity severity row = is_some_and row.1.severity (λ stored. stored == severity)

  abbrev pub is_validated : Store F → Row F → Bool
  is_validated store row =
      is_some_and row.1.cve_id (λ cve_id. is_some (lookup cve_id store.cve_validation))

  unfoldable pub stats : String → Store F → Stats
  unfolding count category_counts lookup distinct
  stats now store = record {
    total_items = length store.items;
    news_items = count (λ (row : Row F). row.1.kind == "news") store.items;
    cve_items = count is_cve store.items;
    critical_cves = count (λ row. is_cve row && of_severity "critical" row) store.items;
    high_cves = count (λ row. is_cve row && of_severity "high" row) store.items;
    exploited_cves = count (λ row. is_cve row && row.1.exploited) store.items;
    kev_cves = count (λ row. is_cve row && is_some row.1.kev_date_added) store.items;
    validated_cves = count (λ row. is_cve row && is_validated store row) store.items;
    sources_seen = length (distinct (map (λ (row : Row F). row.1.source_id) store.items));
    categories = category_counts store.item_categories;
    generated_at = now;
  }
