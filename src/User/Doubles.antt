-- ===== src/User/Doubles.antt =====
-- The C++ type double, which has no counterpart here: an interface with the comparison laws of
-- IEEE 754 that the programs rely on. They hold of every double, NaN included.
use project_ram_crisis.Prelude.{ℕ, ◌≡◌, Bool, true, false}

pub record Doubles : Type 1 where
  pub Double : Type 0
  -- The literal n / 100, and -1.0.
  pub hundredths : ℕ → Double
  pub minus_one : Double
  pub plus : Double → Double → Double
  pub minus : Double → Double → Double
  -- x / 2.0.
  pub halve : Double → Double
  -- x < y, which is false where one of them is NaN.
  pub less : Double → Double → Bool
  pub less_irreflexive : (x : Double) → less x x ≡ false
  pub less_one_zero : less (hundredths 100) (hundredths 0) ≡ false
  -- What is not above x is not above any number above x.
  pub less_above : (x y z : Double) → less x y ≡ true → less x z ≡ false → less y z ≡ false
