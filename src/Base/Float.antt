-- ===== src/Base/Float.antt =====
-- What the code uses of Go's `float64` and of `fmt` on numbers, as an interface: the operations are
-- arguments of the definitions that use them. Strings and wall-clock instants are here too.
use Prim.Native.String.{String}
use mathlib.Core.Bool.{Bool}
use mping.Base.Int.{ℤ}

pub record Floats (F : Type 0) : Type 0 where
  pub of_int : ℤ → F  -- float64(n)
  pub add : F → F → F
  pub sub : F → F → F
  pub mul : F → F → F
  pub div : F → F → F
  pub gt : F → F → Bool  -- a > b
  pub ge : F → F → Bool  -- a >= b
  pub is_nan : F → Bool
  pub sqrt : F → F
  pub to_int : F → ℤ  -- int64(f)
  pub fixed1 : F → String  -- fmt's %.1f
  pub itoa : ℤ → String  -- fmt's %d
