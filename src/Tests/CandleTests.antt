-- ===== src/Tests/CandleTests.antt =====
-- live/dhan/candle_builder.py: runs of the builder, and the theorems there, over the whole numbers.
use trading_workstation.Prelude.{
  ℕ, ◌≡◌, refl, true, false, Option, none, some, List, [], ◌∷◌, All, Whole, whole_double, arith,
}
use trading_workstation.Live.Durations.{seconds}
use trading_workstation.Samples.{rupees}
use trading_workstation.Live.Freshness.{minutes}
use trading_workstation.Live.Dhan.CandleBuilder.Models.{
  Tick, CandleBuilder, OhlcvBar, no_rejected, new_builder,
}
use trading_workstation.Live.Dhan.CandleBuilder.Timestamps.{
  admit_timestamp, agrees, disagrees, plausible_relative_to_receipt,
}
use trading_workstation.Live.Dhan.CandleBuilder.{
  on_tick, take_tick, check_price, finalize, merged_state, merge, roll_over, complete_and_merge,
}
use trading_workstation.Live.Dhan.CandleBuilder.Order.{FiniteOrder}
use trading_workstation.Live.Dhan.CandleBuilder.Valid.{IsBar}
use trading_workstation.Live.Dhan.CandleBuilder.Bars.{on_ticks, on_ticks-IsBar}
use trading_workstation.Live.Dhan.CandleBuilder.Ordered.{Increasing, on_ticks-Increasing}

le_trans :
    (a b c : Whole)
    → whole_double.le a b ≡ true
    → whole_double.le b c ≡ true
    → whole_double.le a c ≡ true
le_trans a b c h k = ground arith

whole_order : FiniteOrder Whole
whole_order = record {
  zero_finite = refl;
  le_refl = λ a h. ground arith;
  le_trans = le_trans;
  lt_le = λ a b h. ground arith;
  not_lt = λ a b h k e. ground arith;
  not_le = λ a b h k e. ground arith;
  lt_not_eq = λ a b h. ground arith;
  add_not_negative = λ a b h k. ground arith;
}

abbrev builder : CandleBuilder Whole
builder = record {
  bucket_duration = seconds 60;
  state = none;
  max_tick_deviation_pct = some (rupees 20);
  last_known_price = none;
  max_timestamp_skew = some (seconds 3600);
  last_known_timestamp = none;
  baseline_confirmed = false;
  pending_candidate_timestamp = none;
  max_cold_start_wall_clock_skew = some (seconds 3600);
  rejected_tick_counts = no_rejected;
}

is_new :
    new_builder 1 minutes (some (rupees 20)) (some (seconds 3600)) (some (seconds 3600))
    ≡ some builder
is_new = refl

abbrev tick : ℕ → ℕ → Tick Whole
tick price second = record {
  price = rupees price;
  volume = rupees 10;
  timestamp = seconds second;
  received_at = seconds second;
}

-- Two ticks in one minute, the second before the first by exchange time, and one in the next.
abbrev ticks : List (Tick Whole)
ticks = tick 100 650 ∷ tick 104 640 ∷ tick 101 661 ∷ []

abbrev first_bar : OhlcvBar Whole
first_bar = record {
  timestamp = seconds 600;
  open_price = rupees 100;
  high = rupees 104;
  low = rupees 100;
  close = rupees 100;
  volume = rupees 20;
  received_at = seconds 650;
  source_timestamp = seconds 650;
  is_partial = false;
}

abbrev bars_of : Option (List (OhlcvBar Whole) × CandleBuilder Whole) → List (OhlcvBar Whole)
bars_of none = []
bars_of (some (bars, b)) = bars

ticks_bars : bars_of (on_ticks ticks builder) ≡ first_bar ∷ []
unfolding on_ticks on_tick take_tick admit_timestamp agrees disagrees plausible_relative_to_receipt
    check_price finalize merged_state merge roll_over complete_and_merge
ticks_bars = refl

-- A tick whose price is invalid completes the minute, and leaves no bucket open: a late tick of that
-- minute then opens it again, and a second bar of the same minute follows.
abbrev reopening : List (Tick Whole)
reopening = tick 100 650 ∷ tick 0 661 ∷ tick 101 655 ∷ tick 102 665 ∷ []

starts_of : List (OhlcvBar Whole) → List ℕ
starts_of [] = []
starts_of (bar ∷ bars) = bar.timestamp ∷ starts_of bars

reopening_bars : starts_of (bars_of (on_ticks reopening builder)) ≡ seconds 600 ∷ seconds 600 ∷ []
unfolding starts_of on_ticks on_tick take_tick admit_timestamp agrees disagrees
    plausible_relative_to_receipt check_price finalize merged_state merge roll_over
    complete_and_merge
reopening_bars = refl

on_ticks-IsBar_example :
    (bars : List (OhlcvBar Whole)) × (left : CandleBuilder Whole) × (on_ticks ticks builder
      ≡ some (bars, left))
    × All (IsBar (seconds 60)) bars
on_ticks-IsBar_example =
    on_ticks-IsBar whole_order 1 minutes (some (rupees 20)) (some (seconds 3600))
      (some (seconds 3600)) builder ticks (λ e. omega arith) is_new

abbrev confirmed : CandleBuilder Whole
confirmed = record builder { baseline_confirmed = true }

-- the builder after the ticks
abbrev last_builder : CandleBuilder Whole
last_builder = record builder {
  state = some (record {
    bucket_start = seconds 660;
    open_price = rupees 101;
    high = rupees 101;
    low = rupees 101;
    close = rupees 101;
    volume = rupees 10;
    last_received_at = seconds 661;
    last_source_timestamp = seconds 661;
    last_merged_timestamp = seconds 661;
    last_merged_price = rupees 101;
  });
  last_known_price = some (rupees 101);
  last_known_timestamp = some (seconds 661);
  baseline_confirmed = true;
}

confirmed_run : on_ticks ticks confirmed ≡ some (first_bar ∷ [], last_builder)
unfolding on_ticks on_tick take_tick admit_timestamp agrees disagrees plausible_relative_to_receipt
    check_price finalize merged_state merge roll_over complete_and_merge
confirmed_run = refl

on_ticks-Increasing_example :
    (last_builder.baseline_confirmed ≡ true) × Increasing 0 (first_bar ∷ [])
on_ticks-Increasing_example =
    on_ticks-Increasing ticks confirmed last_builder (first_bar ∷ []) refl confirmed_run refl
