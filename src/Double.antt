-- ===== src/Double.antt =====
-- Double-precision numbers. The program's own arithmetic on them is written over these operations.
use openstreetmap_cgimap.Prelude.{Bool, String}
use openstreetmap_cgimap.Prelude.Int.{ℤ}

-- The outcome of `std::from_chars`: a value, or one of its two error codes.
pub data FromChars {ℓ} (A : Type ℓ) : Type ℓ where
  parsed : A → FromChars A
  invalid_argument : FromChars A
  result_out_of_range : FromChars A

-- A type of floating-point numbers: literals, arithmetic, the order, `std::isfinite`, `round`
-- followed by the conversion to an integer, and `std::from_chars`.
pub record DoubleOps (D : Type 0) : Type 0 where
  pub lit : ℤ → D
  pub add : D → D → D
  pub mul : D → D → D
  pub div : D → D → D
  pub lt : D → D → Bool
  pub is_finite : D → Bool
  pub round : D → ℤ
  pub from_chars : String → FromChars D
