-- ===== src/Float.antt =====
-- Doubles. A double is its 64-bit pattern; the arithmetic, which the compiler and the C library give,
-- is an argument of the functions that use it.
use ccminer.Common.{ℕ, Bool, List}
use ccminer.Common.Int.{ℤ}

abbrev pub Double : Type 0
Double = ℕ

-- The operations on doubles that the sources use. `decimal n d` is the literal n / d, and `truncate`
-- the cast to uint64_t.
pub record Arith : Type 0 where
  pub add : Double → Double → Double
  pub mul : Double → Double → Double
  pub div : Double → Double → Double
  pub lt : Double → Double → Bool
  pub le : Double → Double → Bool
  pub eq : Double → Double → Bool
  pub is_zero : Double → Bool
  pub of_int : ℕ → Double
  pub decimal : ℕ → ℕ → Double
  pub minus_one : Double
  pub truncate : Double → ℕ
  pub ldexp : Double → ℤ → Double
  pub atof : List ℕ → Double
