-- ===== src/Std/Float.antt =====
-- float64, as far as the service computes with it: a type with the operations of its instructions.
use api_test.Prelude.{ℕ}
use api_test.Prelude.Int.{ℤ}

-- `decimal m k` is the constant m / 10^k; `to_int` is the conversion to a 64-bit integer.
pub record Float64 : Type 1 where
  pub Float : Type 0
  pub of_int : ℤ → Float
  pub decimal : ℕ → ℕ → Float
  pub add : Float → Float → Float
  pub mul : Float → Float → Float
  pub div : Float → Float → Float
  pub to_int : Float → ℤ
