-- ===== src/Go/Float.antt =====
-- A float64 is its IEEE 754 bit pattern, and so is a float32: math.Float64bits and its inverse
-- change nothing. The arithmetic on them is the processor's, and a parameter.
use objconv.Prelude.{ℕ}
use objconv.Prelude.Int.{ℤ}

pub record Floats : Type 0 where
  -- float32(v) and float64(v)
  pub narrow : ℕ → ℕ
  pub widen : ℕ → ℕ
  -- int64(v), float64(i), x - y and x * y
  pub to_int64 : ℕ → ℤ
  pub of_int64 : ℤ → ℕ
  pub sub : ℕ → ℕ → ℕ
  pub mul : ℕ → ℕ → ℕ
