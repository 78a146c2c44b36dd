-- ===== src/Live/Dhan/CandleBuilder/Timestamps.antt =====
-- live/dhan/candle_builder.py: the guard on a tick's timestamp.
use trading_workstation.Prelude.{
  ℕ, suc, ◌-◌, Bool, true, false, ◌&&◌, Option, none, some, ltb, leb, if◌then◌else◌,
}
use trading_workstation.Live.Dhan.CandleBuilder.Models.{Tick, CandleBuilder}

-- `abs((a - b).total_seconds())`
abbrev pub apart : ℕ → ℕ → ℕ
apart s t = if leb s t then t - s else s - t

abbrev pub within_bound : ℕ → Option ℕ → Bool
within_bound distance none = true
within_bound distance (some bound) = leb distance bound

abbrev pub agrees_with_pending : ℕ → ℕ → Option ℕ → Bool
agrees_with_pending max_skew timestamp none = false
agrees_with_pending max_skew timestamp (some pending) = leb (apart timestamp pending) max_skew

module _ {F : Type 0} where
  unfoldable pub plausible_relative_to_receipt : Tick F → CandleBuilder F → Bool
  plausible_relative_to_receipt tick b =
      within_bound (apart tick.timestamp tick.received_at) b.max_cold_start_wall_clock_skew

  abbrev pub count_implausible_timestamp : CandleBuilder F → CandleBuilder F
  count_implausible_timestamp b = record b {
    rejected_tick_counts = record b.rejected_tick_counts {
      implausible_timestamp = suc b.rejected_tick_counts.implausible_timestamp;
    };
  }

  abbrev pub remember_candidate : Tick F → CandleBuilder F → CandleBuilder F
  remember_candidate tick b = record (count_implausible_timestamp b) {
    pending_candidate_timestamp = some tick.timestamp;
  }

  -- The first half of `_on_tick_locked`, the guard on the timestamp. `false` is its `return None`.
  unfoldable pub disagrees : ℕ → Tick F → CandleBuilder F → Bool × CandleBuilder F
  disagrees max_skew tick b =
      if b.baseline_confirmed
      then (false, count_implausible_timestamp b)
      else if agrees_with_pending max_skew tick.timestamp b.pending_candidate_timestamp
          && plausible_relative_to_receipt tick b
      then (
        true,
        record b {
          last_known_timestamp = some tick.timestamp;
          baseline_confirmed = true;
          pending_candidate_timestamp = none;
          state = none;
          last_known_price = none;
        },
      )
      else (false, remember_candidate tick b)

  unfoldable pub agrees : Tick F → CandleBuilder F → Bool × CandleBuilder F
  agrees tick b =
      if b.baseline_confirmed
      then (true, b)
      else if plausible_relative_to_receipt tick b
      then (true, record b { baseline_confirmed = true; pending_candidate_timestamp = none })
      else (false, remember_candidate tick b)

  abbrev pub compare_timestamps :
      Option ℕ → Option ℕ → Tick F → CandleBuilder F → Bool × CandleBuilder F
  compare_timestamps (some known) (some max_skew) tick b =
      if ltb max_skew (apart tick.timestamp known) then disagrees max_skew tick b else agrees tick b
  compare_timestamps (some known) none tick b = (true, b)
  compare_timestamps none max_skew tick b = (true, b)

  unfoldable pub admit_timestamp : Tick F → CandleBuilder F → Bool × CandleBuilder F
  admit_timestamp tick b = compare_timestamps b.last_known_timestamp b.max_timestamp_skew tick b
