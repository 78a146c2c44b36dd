-- ===== src/Live/Freshness/Gaps.antt =====
-- live/freshness.py and live/gap_monitor.py: the two thresholds, as they stand by default.
use mathlib.Core.Path.{subst}
use mathlib.Core.Option.{some-injective}
use trading_workstation.Prelude.Options.{◌>>=◌, >>=-eq-some}
use trading_workstation.Prelude.{
  ℕ, ◌≤◌, ◌≡◌, ap, sym, ◌∙◌, true, none, some, arith, ℤ, pos, sub_ℕ, leb_ℤ,
}
use trading_workstation.Live.Durations.{Ratio, scaled}
use trading_workstation.Live.Freshness.{
  TimeUnit, interval_to_timedelta, FreshnessResult, default_policy, threshold_for, check, floored,
}
use trading_workstation.Live.GapMonitor
use trading_workstation.Live.GapMonitor.Reports.{within, check-within}
use trading_workstation.Live.GapMonitor.{
  GapStatus, BarGapMonitor, record_new_bar, new_monitor, report,
}

-- `BarGapMonitor.gap_multiplier`
abbrev pub default_gap_multiplier : Ratio
default_gap_multiplier = record { numerator = 3; denominator = 1 }

interval_min :
    (quantity : ℕ) (unit : TimeUnit) (duration : ℕ)
    → 1 ≤ quantity
    → interval_to_timedelta quantity unit ≡ some duration
    → 60000000 ≤ duration
interval_min quantity unit duration h e = ground arith

floored_max :
    (duration : ℕ)
    → 60000000 ≤ duration
    → floored default_policy (scaled duration default_policy.multiplier)
      ≤ scaled duration default_gap_multiplier
floored_max duration h = ground arith

threshold_for_le :
    (quantity : ℕ) (unit : TimeUnit) (duration threshold : ℕ)
    → 1 ≤ quantity
    → interval_to_timedelta quantity unit ≡ some duration
    → threshold_for default_policy quantity unit ≡ some threshold
    → threshold ≤ scaled duration default_gap_multiplier
unfolding threshold_for
threshold_for_le quantity unit duration threshold h e t =
    let fit = floored_max duration (interval_min quantity unit duration h e) in
    let e' : some (floored default_policy (scaled duration default_policy.multiplier))
        ≡ some threshold =
      ap (λ o. o >>= λ x. some (floored default_policy (scaled x default_policy.multiplier)))
        (sym e)
      ∙ t in
    subst (λ x. x ≤ scaled duration default_gap_multiplier) (some-injective _ _ e') fit

leb_ℤ_mono : (z : ℤ) (a b : ℕ) → leb_ℤ z (pos a) ≡ true → a ≤ b → leb_ℤ z (pos b) ≡ true
leb_ℤ_mono z a b h le = ground arith

-- By default the guard is stricter than the monitor: at a time at which a bar as old as the last one
-- received still counts as fresh, the monitor reports no gap, for every interval of a fixed length
-- and of one unit at least, and whenever it reported last.
pub check_fresh-no_gap :
    (quantity : ℕ) (unit : TimeUnit) (duration last now : ℕ) (r : FreshnessResult)
    → 1 ≤ quantity
    → interval_to_timedelta quantity unit ≡ some duration
    → check default_policy last quantity unit now ≡ some r
    → r.is_fresh ≡ true
    → (m : BarGapMonitor) → m.expected_interval ≡ duration
    → m.gap_multiplier ≡ default_gap_multiplier
    → m.last_new_bar_at ≡ some last
    → GapMonitor.check now m ≡ (none, m)
unfolding check within
check_fresh-no_gap quantity unit duration last now r h e c fresh m same scale started =
    let (threshold, t, built) = >>=-eq-some (threshold_for default_policy quantity unit) _ c in
    let is_fresh = ap (λ x. x.is_fresh) (some-injective _ _ built) ∙ fresh in
    check-within now last m started (
      rw (same, scale)
        (leb_ℤ_mono (sub_ℕ now last) threshold _ is_fresh
          (threshold_for_le quantity unit duration threshold h e t)))
