-- ===== src/Live/Dhan/CandleBuilder/Models.antt =====
-- live/dhan/candle_builder.py: the ticks, the builder and the bars. Times are microseconds since the
-- start of 1970, UTC. The lock, the log messages and the names of the symbol and of the interval are
-- left out.
use trading_workstation.Prelude.{ℕ, ◌*◌, ◌/◌, Bool, false, Option, none, some, ◌==◌, if◌then◌else◌}
use trading_workstation.Prelude.Options.{◌>>=◌}
use trading_workstation.Live.Freshness.{TimeUnit, interval_to_timedelta}

pub record Tick (F : Type 0) : Type 0 where
  pub price : F
  pub volume : F
  pub timestamp : ℕ
  pub received_at : ℕ

pub record BucketState (F : Type 0) : Type 0 where
  pub bucket_start : ℕ
  pub open_price : F
  pub high : F
  pub low : F
  pub close : F
  pub volume : F
  pub last_received_at : ℕ
  pub last_source_timestamp : ℕ
  pub last_merged_timestamp : ℕ
  pub last_merged_price : F

pub record RejectedTickCounts : Type 0 where
  pub non_positive_price : ℕ
  pub negative_volume : ℕ
  pub implausible_deviation : ℕ
  pub late_out_of_order : ℕ
  pub implausible_timestamp : ℕ
  pub non_finite_value : ℕ

pub record CandleBuilder (F : Type 0) : Type 0 where
  pub bucket_duration : ℕ
  pub state : Option (BucketState F)
  pub max_tick_deviation_pct : Option F
  pub last_known_price : Option F
  pub max_timestamp_skew : Option ℕ
  pub last_known_timestamp : Option ℕ
  pub baseline_confirmed : Bool
  pub pending_candidate_timestamp : Option ℕ
  pub max_cold_start_wall_clock_skew : Option ℕ
  pub rejected_tick_counts : RejectedTickCounts

-- `OHLCVBar` with the source DHAN and the status LIVE, which `_finalize` always gives
pub record OhlcvBar (F : Type 0) : Type 0 where
  pub timestamp : ℕ
  pub open_price : F
  pub high : F
  pub low : F
  pub close : F
  pub volume : F
  pub received_at : ℕ
  pub source_timestamp : ℕ
  pub is_partial : Bool

abbrev pub no_rejected : RejectedTickCounts
no_rejected = record {
  non_positive_price = 0;
  negative_volume = 0;
  implausible_deviation = 0;
  late_out_of_order = 0;
  implausible_timestamp = 0;
  non_finite_value = 0;
}

module _ {F : Type 0} where
  -- `none` is the ValueError for an interval of months.
  abbrev pub new_builder : ℕ → TimeUnit → Option F → Option ℕ → Option ℕ → Option (CandleBuilder F)
  new_builder quantity unit max_deviation max_skew max_cold_start_skew = do
    duration ← interval_to_timedelta quantity unit
    some (record {
      bucket_duration = duration;
      state = none;
      max_tick_deviation_pct = max_deviation;
      last_known_price = none;
      max_timestamp_skew = max_skew;
      last_known_timestamp = none;
      baseline_confirmed = false;
      pending_candidate_timestamp = none;
      max_cold_start_wall_clock_skew = max_cold_start_skew;
      rejected_tick_counts = no_rejected;
    })

  -- `none` is the ZeroDivisionError of an interval of no length.
  abbrev pub bucket_start_for : CandleBuilder F → ℕ → Option ℕ
  bucket_start_for b timestamp =
      if b.bucket_duration == 0
      then none
      else some (timestamp / b.bucket_duration * b.bucket_duration)
