-- ===== src/Prelude/Doubles.antt =====
-- The `double` arithmetic of the program, which antt lacks: an interface with no law assumed.
use topo_llvm.Prelude.Tests.{ltb, leb}
use Prim.Native.Nat.{ℕ, ◌*◌, ◌/◌}
use mathlib.Core.Bool.{Bool}

pub record Doubles : Type 1 where
  pub Double : Type 0
  -- `static_cast<double>` of an unsigned integer.
  pub of_unsigned : ℕ → Double
  pub one : Double
  -- The literal `0.10`.
  pub tenth : Double
  -- The literal `1.10`.
  pub eleven_tenths : Double
  pub times : Double → Double → Double
  pub divide : Double → Double → Double
  -- `a < b` and `a <= b`: two tests, since both fail at a NaN.
  pub less : Double → Double → Bool
  pub less_equal : Double → Double → Bool

-- Thousandths, rounded down: good enough to run the code on whole ratios.
abbrev pub thousandths : Doubles
thousandths = record {
  Double = ℕ;
  of_unsigned = λ n. n * 1000;
  one = 1000;
  tenth = 100;
  eleven_tenths = 1100;
  times = λ a b. a * b / 1000;
  divide = λ a b. a * 1000 / b;
  less = ltb;
  less_equal = leb;
}
