-- ===== src/Live/Durations.antt =====
-- `datetime.timedelta`, in microseconds, and its product with a `float`. Python multiplies by the
-- exact ratio that the float stands for, and rounds the quotient half to even.
use trading_workstation.Prelude.{ℕ, ◌+◌, ◌*◌, ◌/◌, ◌%◌, ltb, ◌==◌, ◌||◌, ◌&&◌, if◌then◌else◌}

-- `float.as_integer_ratio()` of a multiplier, which is not negative
pub record Ratio : Type 0 where
  pub numerator : ℕ
  pub denominator : ℕ

-- `datetime._divide_and_round`
abbrev pub divide_and_round : ℕ → ℕ → ℕ
divide_and_round a b =
    if ltb b (2 * (a % b)) || ((2 * (a % b) == b) && (a / b % 2 == 1)) then a / b + 1 else a / b

-- `timedelta * float`
abbrev pub scaled : ℕ → Ratio → ℕ
scaled duration m = divide_and_round (duration * m.numerator) m.denominator

abbrev pub seconds : ℕ → ℕ
seconds n = n * 1000000
