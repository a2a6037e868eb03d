-- ===== src/Prelude/Table.antt =====
-- A table with a text key, as an association list: at most the first entry of a key counts.
use text.Mathlib.TextEquality.{eq_iff}
use Prim.Native.String.{String}
use mathlib.Core.Logic.{inl, inr}
use mathlib.Core.Path.{◌≡◌, refl}
use mathlib.Core.List.{List, [], ◌∷◌}
use mathlib.Core.Option.{Option, none, some}
use native.Mathlib.Omega.{arith}
use cyberwatch_rs.Prelude.Lists.{All}
use cyberwatch_rs.Prelude.Tests.{Bool-cases, ◌==◌, text_eq, if◌then◌else◌}

abbrev pub Table {ℓ} : Type ℓ → Type ℓ
Table V = List (String × V)

module _ {ℓ} {V : Type ℓ} where
  unfoldable pub lookup : String → Table V → Option V
  lookup k [] = none
  lookup k ((j, v) ∷ rows) = if j == k then some v else lookup k rows

  -- `INSERT ... ON CONFLICT(key) DO UPDATE`
  unfoldable pub upsert : String → V → Table V → Table V
  upsert k v [] = (k, v) ∷ []
  upsert k v ((j, w) ∷ rows) = if j == k then (k, v) ∷ rows else (j, w) ∷ upsert k v rows

  -- `DELETE ... WHERE key = k`
  unfoldable pub delete : String → Table V → Table V
  delete k [] = []
  delete k ((j, w) ∷ rows) = let rest = delete k rows in if j == k then rest else (j, w) ∷ rest

  pub lookup-upsert :
      (k j : String) (v : V) (rows : Table V)
      → lookup j (upsert k v rows) ≡ (if k == j then some v else lookup j rows)
  unfolding lookup upsert
  lookup-upsert k j v [] = refl
  lookup-upsert k j v ((i, w) ∷ rows) =
      ground (arith, eq_iff k j, eq_iff i k, eq_iff i j, lookup-upsert k j v rows)

  pub lookup-delete :
      (k j : String) (rows : Table V)
      → lookup j (delete k rows) ≡ (if k == j then none else lookup j rows)
  unfolding lookup delete
  lookup-delete k j [] = ground arith
  lookup-delete k j ((i, w) ∷ rows) =
      ground (arith, eq_iff k j, eq_iff i k, eq_iff i j, lookup-delete k j rows)

pub upsert-All {ℓ κ} :
    {V : Type ℓ} (P : String × V → Type κ) (k : String) (v : V) (rows : Table V)
    → P (k, v)
    → All P rows
    → All P (upsert k v rows)
unfolding upsert
upsert-All P k v [] h a = (h, tt)
upsert-All P k v ((j, w) ∷ rows) h a = elim (Bool-cases (j == k)) [
  | inl e ↦ rw e (h, a.1)
  | inr e ↦ rw e (a.0, upsert-All P k v rows h a.1)
]
