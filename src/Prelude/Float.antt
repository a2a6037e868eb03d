-- ===== src/Prelude/Float.antt =====
-- The `f64` values of the program: an abstract type with the comparisons and the constants used.
use mathlib.Core.Bool.{Bool}

pub record Float (F : Type 0) : Type 0 where
  pub le : F → F → Bool
  pub lt : F → F → Bool
  pub minimum : F → F → F
  pub maximum : F → F → F
  pub minus : F → F → F
  pub zero : F
  pub one : F
  pub four : F
  pub seven : F
  pub nine : F
  pub ten : F
