-- ===== src/Ingest/Epss.antt =====
-- `fetch_scores` of src/ingest/epss.rs.
pub mod Laws
mod Tests
use cyberwatch_rs.Prelude.{
  if◌then◌else◌, length, take, drop, ◌>>=◌, ok_or, Result, ok, ℕ, zero, suc, ◌-◌, String, Bool,
  ◌&&◌, Option, none, some, List, [], ◌∷◌,
}
use cyberwatch_rs.Prelude.Table.{Table, upsert}
use cyberwatch_rs.Prelude.Text.{to_ascii_uppercase}
use cyberwatch_rs.Prelude.Float.{Float}
use cyberwatch_rs.Models.{EpssScore}
use cyberwatch_rs.Ingest.Json.{◌>>?◌, or_else, Crates}

-- `chunks(size)` of a slice, with the number of the IDs as fuel: each chunk takes one at least.
unfoldable pub chunks_from {ℓ} : {A : Type ℓ} → ℕ → ℕ → List A → List (List A)
chunks_from zero size xs = []
chunks_from (suc fuel) size [] = []
chunks_from (suc fuel) size (x ∷ xs) =
    (x ∷ take (size - 1) xs) ∷ chunks_from fuel size (drop (size - 1) xs)

unfoldable pub chunks {ℓ} : {A : Type ℓ} → ℕ → List A → List (List A)
unfolding chunks_from
chunks size xs = chunks_from (length xs) size xs

-- `(0.0..=1.0).contains(&value)`
abbrev pub in_unit : {F : Type 0} ⦃float : Float F⦄ → F → Bool
in_unit ⦃float⦄ value = float.le float.zero value && float.le value float.one

module _ {F : Type 0} (crates : Crates F) ⦃float : Float F⦄ where
  -- A number, or a text that is one.
  unfoldable pub number : Option crates.Value → Option F
  number value = value >>? λ v. or_else (crates.as_f64 v) (crates.as_str v >>? crates.parse_f64)

  abbrev pub add_score : crates.Value → Table (EpssScore F) → Table (EpssScore F)
  add_score row scores = elim (crates.get row "cve" >>? crates.as_str) [
    | none ↦ scores
    | some cve ↦ elim (number (crates.get row "epss")) [
      | none ↦ scores
      | some probability ↦ elim (number (crates.get row "percentile")) [
        | none ↦ scores
        | some percentile ↦
            if in_unit probability && in_unit percentile
            then upsert (to_ascii_uppercase cve)
                (record { probability = probability; percentile = percentile }) scores
            else scores
      ]
    ]
  ]

  unfoldable pub add_scores : List crates.Value → Table (EpssScore F) → Table (EpssScore F)
  unfolding number to_ascii_uppercase upsert
  add_scores [] scores = scores
  add_scores (row ∷ rows) scores = add_scores rows (add_score row scores)

  -- `ask` is the request for a chunk of IDs, with its retries and the parser of JSON.
  unfoldable pub fetch_chunks :
      (List String → Result String crates.Value)
      → List (List String)
      → Table (EpssScore F)
      → Result String (Table (EpssScore F))
  unfolding add_scores
  fetch_chunks ask [] scores = ok scores
  fetch_chunks ask (chunk ∷ rest) scores = do
    payload ← ask chunk
    rows ←
        ok_or (crates.get payload "data" >>? crates.as_array)
          "invalid FIRST EPSS response: data array is missing"
    fetch_chunks ask rest (add_scores rows scores)

  unfoldable pub fetch_scores :
      (List String → Result String crates.Value) → List String → Result String (Table (EpssScore F))
  unfolding chunks fetch_chunks
  fetch_scores ask cve_ids = fetch_chunks ask (chunks 100 cve_ids) []
