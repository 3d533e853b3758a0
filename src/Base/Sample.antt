-- ===== src/Base/Sample.antt =====
-- Whole numbers in the place of `float64`, on which the code can be evaluated.
use mping.Base.Tests.{ltb, leb}
use Prim.Native.Nat.{ℕ, ◌+◌, ◌-◌, ◌*◌, ◌/◌}
use mathlib.Core.Bool.{false}
use mping.Base.Int.{ℤ, pos, negsuc}
use mping.Base.Float.{Floats}

abbrev to_nat : ℤ → ℕ
to_nat (pos n) = n
to_nat (negsuc n) = 0

abbrev pub whole : Floats ℕ
whole = record {
  of_int = to_nat;
  add = λ a b. a + b;
  sub = λ a b. a - b;
  mul = λ a b. a * b;
  div = λ a b. a / b;
  gt = λ a b. ltb b a;
  ge = λ a b. leb b a;
  is_nan = λ a. false;
  sqrt = λ a. a;
  to_int = λ a. pos a;
  fixed1 = λ a. "";
  itoa = λ z. "";
}
