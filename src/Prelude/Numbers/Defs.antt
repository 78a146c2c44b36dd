-- ===== src/Prelude/Numbers/Defs.antt =====
-- Python's `float`: the operations, with no law assumed of them, so that what is proved over them
-- holds of IEEE arithmetic with its rounding and its NaN.
use Prim.Native.Nat.{ℕ}
use mathlib.Core.Bool.{Bool}
use mathlib.Core.Option.{Option, none, some}
use mathlib.Core.List.{List}
use trading_workstation.Prelude.Tests.{if◌then◌else◌}
use trading_workstation.Prelude.Numbers.Int.{ℤ, pos}

-- A comparison is a `Bool`, and `a > b` is `lt b a`. `decimal z k` is the literal z / 10^k.
-- `floor` is `math.floor`: `none` is its ValueError at NaN and its OverflowError at an infinity.
-- `total` is the builtin `sum`, which adds in order or, since Python 3.12, with a compensation.
-- `is_close a b t` is `math.isclose(a, b, abs_tol=t)`.
pub record Double (F : Type 0) : Type 0 where
  pub of_int : ℤ → F
  pub decimal : ℤ → ℕ → F
  pub infinity : F
  pub add : F → F → F
  pub sub : F → F → F
  pub mul : F → F → F
  pub div : F → F → F
  pub neg : F → F
  pub abs : F → F
  pub eq : F → F → Bool
  pub lt : F → F → Bool
  pub le : F → F → Bool
  pub is_finite : F → Bool
  pub floor : F → Option ℤ
  pub is_close : F → F → F → Bool
  pub total : List F → F

module _ {F : Type 0} ⦃d : Double F⦄ where
  open d use {of_int, mul, div, eq, lt}

  -- an integer literal, or an `int` that meets a `float`
  abbrev pub num : ℕ → F
  num n = of_int (pos n)

  -- `max(a, b)`, which is `a` unless `b > a`
  abbrev pub fmax : F → F → F
  fmax a b = if lt a b then b else a

  -- `a / b` where no guard keeps `b` from zero: `none` is the ZeroDivisionError
  abbrev pub checked_div : F → F → Option F
  checked_div a b = if eq b (num 0) then none else some (div a b)
