-- ===== src/Db/Items/Tests.antt =====
-- Batches of a few items.
use cyberwatch_rs.Prelude.{length, ok, ℕ, ◌≡◌, refl, true, false, some, [], ◌∷◌}
use cyberwatch_rs.Prelude.Table.{lookup}
use cyberwatch_rs.Models.{empty_batch, IngestBatch}
use cyberwatch_rs.Db.Store.{ItemRow}
use cyberwatch_rs.Db.Samples.{number_float, sample_item, sample_row, empty_store, three_rows}
use cyberwatch_rs.Db.Items.{row_of, apply_batch}
use cyberwatch_rs.Db.Items.Merge.{Grows}
use cyberwatch_rs.Db.Items.Batch.{kinds_fit, apply_batch_lem, Reflects}
use cyberwatch_rs.Db.Items.Growth.{apply_batch-Grows, apply_batch-IsValid, IsValid}

-- A CVE of a trusted source, then the same of a less trusted one that knows a worse severity.
abbrev two_sources : IngestBatch ℕ
two_sources = record empty_batch {
  items = sample_item "CVE-1" "high" 3 ∷ sample_item "CVE-1" "critical" 2 ∷ [];
}

abbrev odd_kind : IngestBatch ℕ
odd_kind = record empty_batch {
  items = sample_item "CVE-1" "high" 3 ∷ record (sample_item "x" "low" 1) { kind = "blog" } ∷ [];
}

abbrev cve_row : ItemRow ℕ
cve_row = sample_row "cve" "2026-01-02T00:00:00Z"

fit : kinds_fit two_sources.items ≡ true
unfolding kinds_fit
fit = refl

unfit : kinds_fit odd_kind.items ≡ false
unfolding kinds_fit
unfit = refl

-- The worse severity is kept with the trusted title.
merged_test :
    (r : ItemRow ℕ) × (lookup "CVE-1" (apply_batch number_float two_sources empty_store).1.items
      ≡ some r)
    × (r.severity ≡ some "critical")
    × (r.title ≡ "high")
unfolding apply_batch lookup
merged_test = (
  record (row_of (sample_item "CVE-1" "high" 3)) { severity = some "critical" },
  refl,
  refl,
  refl,
)

apply_batch_lem_example :
    ((apply_batch number_float two_sources empty_store).0 ≡ ok (length two_sources.items))
    × Reflects number_float two_sources.items empty_store
        (apply_batch number_float two_sources empty_store).1
apply_batch_lem_example = apply_batch_lem number_float two_sources empty_store fit

b_there : lookup "b" three_rows.items ≡ some cve_row
unfolding lookup
b_there = refl

abbrev worse_b : IngestBatch ℕ
worse_b = record empty_batch { items = sample_item "b" "low" 3 ∷ [] }

apply_batch-Grows_example :
    (new : ItemRow ℕ) × (lookup "b" (apply_batch number_float worse_b three_rows).1.items
      ≡ some new)
    × Grows cve_row new
apply_batch-Grows_example = apply_batch-Grows number_float worse_b three_rows "b" cve_row b_there

three-IsValid : IsValid three_rows
unfolding lookup
three-IsValid = record { keys = (refl, (refl, (refl, tt))); kinds = (refl, (refl, (refl, tt))) }

apply_batch-IsValid_example : IsValid (apply_batch number_float worse_b three_rows).1
apply_batch-IsValid_example = apply_batch-IsValid number_float worse_b three_rows three-IsValid
