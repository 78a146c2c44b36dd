-- ===== src/Prelude/Numbers/WholeNumbers.antt =====
-- An instance of `Double` to run the model on: whole numbers, one infinity and a NaN.
use Prim.Native.Nat.{◌^◌}
use mathlib.Core.Bool.{Bool, true, false, ◌||◌}
use mathlib.Core.Option.{Option, none, some}
use mathlib.Core.List.{foldl}
use trading_workstation.Prelude.Numbers.Int.{ℤ, pos, ◌+ℤ◌, ◌-ℤ◌, ◌*ℤ◌, div_ℤ, ltb_ℤ, leb_ℤ, eq_ℤ}
use trading_workstation.Prelude.Numbers.Defs.{Double}

pub data Whole : Type 0 where
  whole : ℤ → Whole
  nan inf : Whole

abbrev on_whole : (ℤ → ℤ → ℤ) → Whole → Whole → Whole
on_whole f (whole a) (whole b) = whole (f a b)
on_whole f _ _ = nan

abbrev plus : Whole → Whole → Whole
plus (whole a) (whole b) = whole (a +ℤ b)
plus (whole a) inf = inf
plus inf (whole b) = inf
plus inf inf = inf
plus _ _ = nan

-- The first flag is what a number below infinity gives, the second infinity against itself.
abbrev on_order : (ℤ → ℤ → Bool) → Bool → Bool → Whole → Whole → Bool
on_order f up self (whole a) (whole b) = f a b
on_order f up self (whole a) inf = up
on_order f up self inf inf = self
on_order f up self _ _ = false

abbrev whole_floor : Whole → Option ℤ
whole_floor (whole a) = some a
whole_floor _ = none

abbrev whole_finite : Whole → Bool
whole_finite (whole a) = true
whole_finite _ = false

abbrev whole_eq : Whole → Whole → Bool
whole_eq = on_order eq_ℤ false true

abbrev whole_le : Whole → Whole → Bool
whole_le = on_order leb_ℤ true true

abbrev whole_abs : Whole → Whole
whole_abs (whole a) = elim (ltb_ℤ a (pos 0)) [ true ↦ whole (pos 0 -ℤ a) | false ↦ whole a ]
whole_abs x = x

instance abbrev pub whole_double : Double Whole
whole_double = record {
  of_int = whole;
  decimal = λ z k. whole (div_ℤ z (pos (10 ^ k)));
  infinity = inf;
  add = plus;
  sub = on_whole ◌-ℤ◌;
  mul = on_whole ◌*ℤ◌;
  div = on_whole div_ℤ;
  neg = on_whole ◌-ℤ◌ (whole (pos 0));
  abs = whole_abs;
  eq = whole_eq;
  lt = on_order ltb_ℤ true false;
  le = whole_le;
  is_finite = whole_finite;
  floor = whole_floor;
  is_close = λ a b t. whole_eq a b || whole_le (whole_abs (on_whole ◌-ℤ◌ a b)) t;
  total = foldl plus (whole (pos 0));
}
