-- ===== src/Live/Freshness.antt =====
-- live/freshness.py: the guard on the age of a bar. The interval is taken as parsed: the number and
-- the unit that the pattern of `interval_to_timedelta` finds.
pub mod Gaps
use trading_workstation.Prelude.{
  ℕ, ◌*◌, Bool, Option, none, some, ltb, leb_ℤ, pos, ℤ, sub_ℕ, if◌then◌else◌,
}
use trading_workstation.Prelude.Options.{◌>>=◌}
use trading_workstation.Live.Durations.{Ratio, scaled, seconds}

pub data TimeUnit : Type 0 where
  minutes hours days weeks months : TimeUnit

-- `none` is the ValueError for calendar months.
abbrev pub interval_to_timedelta : ℕ → TimeUnit → Option ℕ
interval_to_timedelta quantity minutes = some (seconds (quantity * 60))
interval_to_timedelta quantity hours = some (seconds (quantity * 3600))
interval_to_timedelta quantity days = some (seconds (quantity * 86400))
interval_to_timedelta quantity weeks = some (seconds (quantity * 604800))
interval_to_timedelta quantity months = none

pub record FreshnessResult : Type 0 where
  pub is_fresh : Bool
  pub age : ℤ
  pub threshold : ℕ
  pub bar_timestamp : ℕ
  pub now : ℕ

pub record FreshnessPolicy : Type 0 where
  pub multiplier : Ratio
  pub minimum_threshold : ℕ

abbrev pub default_policy : FreshnessPolicy
default_policy = record {
  multiplier = record { numerator = 2; denominator = 1 };
  minimum_threshold = seconds 30;
}

-- `max(base, self.minimum_threshold)`
abbrev pub floored : FreshnessPolicy → ℕ → ℕ
floored policy base = if ltb base policy.minimum_threshold then policy.minimum_threshold else base

unfoldable pub threshold_for : FreshnessPolicy → ℕ → TimeUnit → Option ℕ
threshold_for policy quantity unit = do
  duration ← interval_to_timedelta quantity unit
  some (floored policy (scaled duration policy.multiplier))

-- The two times are naive, in microseconds.
unfoldable pub check : FreshnessPolicy → ℕ → ℕ → TimeUnit → ℕ → Option FreshnessResult
check policy bar_timestamp quantity unit now = do
  let age = sub_ℕ now bar_timestamp
  threshold ← threshold_for policy quantity unit
  some (record {
    is_fresh = leb_ℤ age (pos threshold);
    age = age;
    threshold = threshold;
    bar_timestamp = bar_timestamp;
    now = now;
  })
