-- ===== src/Live/GapMonitor.antt =====
-- live/gap_monitor.py: the monitor of the time between bars. Times and durations are microseconds.
pub mod Reports
use trading_workstation.Prelude.{
  ℕ, Bool, true, false, not, Option, none, some, if◌then◌else◌, ◌&&◌, ℤ, pos, sub_ℕ, leb_ℤ,
}
use trading_workstation.Live.Durations.{Ratio, scaled}

pub record GapStatus : Type 0 where
  pub elapsed : ℤ
  pub threshold : ℕ
  pub is_new : Bool

pub record BarGapMonitor : Type 0 where
  pub expected_interval : ℕ
  pub gap_multiplier : Ratio
  pub repeat_warning_interval : ℕ
  pub last_new_bar_at : Option ℕ
  pub last_gap_report_at : Option ℕ
  pub gap_active : Bool

abbrev pub new_monitor : ℕ → Ratio → ℕ → BarGapMonitor
new_monitor expected multiplier repeat = record {
  expected_interval = expected;
  gap_multiplier = multiplier;
  repeat_warning_interval = repeat;
  last_new_bar_at = none;
  last_gap_report_at = none;
  gap_active = false;
}

unfoldable pub record_new_bar : ℕ → BarGapMonitor → BarGapMonitor
record_new_bar now m = record m {
  last_new_bar_at = some now;
  last_gap_report_at = none;
  gap_active = false;
}

-- `last_gap_report_at is not None and now - last_gap_report_at >= repeat_warning_interval`
abbrev pub is_due : Option ℕ → ℕ → ℕ → Bool
is_due none now interval = false
is_due (some reported) now interval = leb_ℤ (pos interval) (sub_ℕ now reported)

abbrev pub gap_threshold : BarGapMonitor → ℕ
gap_threshold m = scaled m.expected_interval m.gap_multiplier

-- `check` once there was a bar: a gap, reported as it opens and again when a report is due
unfoldable pub report : ℕ → ℕ → BarGapMonitor → Option GapStatus × BarGapMonitor
report now last m =
    let elapsed = sub_ℕ now last in
    let threshold = gap_threshold m in
    if leb_ℤ elapsed (pos threshold)
    then (none, m)
    else if not m.gap_active
    then (
      some (record { elapsed = elapsed; threshold = threshold; is_new = true }),
      record m { gap_active = true; last_gap_report_at = some now },
    )
    else if is_due m.last_gap_report_at now m.repeat_warning_interval
    then (
      some (record { elapsed = elapsed; threshold = threshold; is_new = false }),
      record m { last_gap_report_at = some now },
    )
    else (none, m)

unfoldable pub check : ℕ → BarGapMonitor → Option GapStatus × BarGapMonitor
check now m = elim m.last_new_bar_at [ none ↦ (none, m) | some last ↦ report now last m ]
