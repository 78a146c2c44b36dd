-- ===== src/Live/Dhan/CandleBuilder.antt =====
-- live/dhan/candle_builder.py: a tick completes a bucket, and is merged into one.
pub mod Models
pub mod Timestamps
pub mod Order
pub mod Valid
pub mod Kept
pub mod Bars
pub mod Moves
pub mod Ordered
use trading_workstation.Prelude.{
  ℕ, suc, ◌-◌, ◌*◌, ◌/◌, Bool, true, false, not, ◌&&◌, ◌||◌, Option, none, some, ltb, leb, ◌==◌,
  is_some, if◌then◌else◌, Double, num, fmax, checked_div,
}
use trading_workstation.Prelude.Options.{◌>>=◌}
use trading_workstation.Live.Dhan.CandleBuilder.Models.{
  Tick, BucketState, RejectedTickCounts, CandleBuilder, OhlcvBar, bucket_start_for,
}
use trading_workstation.Live.Dhan.CandleBuilder.Timestamps.{admit_timestamp}

module _ {F : Type 0} ⦃d : Double F⦄ where
  open d use {add, sub, div, mul, abs, eq, lt, le, is_finite}

  -- `deviation_pct > self._max_tick_deviation_pct`, where both values are there. `none` is the
  -- ZeroDivisionError.
  abbrev pub deviates : F → Option F → Option F → Option Bool
  deviates price (some known) (some max_pct) = do
    ratio ← checked_div (abs (sub price known)) known
    some (lt max_pct (mul ratio (num 100)))
  deviates price (some known) none = some false
  deviates price none max_pct = some false

  abbrev pub with_counts :
      (RejectedTickCounts → RejectedTickCounts) → CandleBuilder F → CandleBuilder F
  with_counts f b = record b { rejected_tick_counts = f b.rejected_tick_counts }

  -- `price_is_valid`, with the counters
  unfoldable pub check_price : Tick F → CandleBuilder F → Option (Bool × CandleBuilder F)
  check_price tick b =
      if not (is_finite tick.price) || not (is_finite tick.volume)
      then some (false, with_counts (λ c. record c { non_finite_value = suc c.non_finite_value }) b)
      else if le tick.price (num 0)
      then some
          (false, with_counts (λ c. record c { non_positive_price = suc c.non_positive_price }) b)
      else if lt tick.volume (num 0)
      then some (false, with_counts (λ c. record c { negative_volume = suc c.negative_volume }) b)
      else do
        far ← deviates tick.price b.last_known_price b.max_tick_deviation_pct
        some (
            if far
            then (
              false,
              with_counts (λ c. record c { implausible_deviation = suc c.implausible_deviation }) b,
            )
            else (true, b))

  -- The validation of `OHLCVBar`: `none` is its ValidationError.
  abbrev pub validated : OhlcvBar F → Option (OhlcvBar F)
  validated bar =
      if lt (num 0) bar.open_price
        && lt (num 0) bar.high
        && lt (num 0) bar.low
        && lt (num 0) bar.close
        && le (num 0) bar.volume
      then some bar
      else none

  abbrev pub bar_of : BucketState F → Bool → OhlcvBar F
  bar_of s is_partial = record {
    timestamp = s.bucket_start;
    open_price = s.open_price;
    high = s.high;
    low = s.low;
    close = s.close;
    volume = s.volume;
    received_at = s.last_received_at;
    source_timestamp = s.last_source_timestamp;
    is_partial = is_partial;
  }

  unfoldable pub finalize : BucketState F → Bool → Option (OhlcvBar F)
  finalize s is_partial = validated (bar_of s is_partial)

  abbrev pub seeded : ℕ → Tick F → BucketState F
  seeded bucket_start tick = record {
    bucket_start = bucket_start;
    open_price = tick.price;
    high = tick.price;
    low = tick.price;
    close = tick.price;
    volume = num 0;
    last_received_at = tick.received_at;
    last_source_timestamp = tick.timestamp;
    last_merged_timestamp = tick.timestamp;
    last_merged_price = tick.price;
  }

  abbrev pub is_likely_redelivered_duplicate : Tick F → Option (BucketState F) → Bool
  is_likely_redelivered_duplicate tick none = false
  is_likely_redelivered_duplicate tick (some s) =
      (tick.timestamp == s.last_merged_timestamp) && eq tick.price s.last_merged_price

  -- `min(a, b)`, which is `a` unless `b < a`
  abbrev pub fmin : F → F → F
  fmin a b = if lt b a then b else a

  abbrev pub state_or_seeded : ℕ → Tick F → Option (BucketState F) → BucketState F
  state_or_seeded bucket_start tick none = seeded bucket_start tick
  state_or_seeded bucket_start tick (some s) = s

  -- the fields that follow the latest tick by exchange time
  abbrev pub advanced : Tick F → BucketState F → BucketState F
  advanced tick s =
      if leb s.last_source_timestamp tick.timestamp
      then record s {
        close = tick.price;
        last_received_at = tick.received_at;
        last_source_timestamp = tick.timestamp;
      }
      else s

  unfoldable pub merged_state : ℕ → Tick F → Option (BucketState F) → BucketState F
  merged_state bucket_start tick before =
      let s = state_or_seeded bucket_start tick before in
      advanced tick (record s {
        high = fmax s.high tick.price;
        low = fmin s.low tick.price;
        volume =
            add s.volume
              (if is_likely_redelivered_duplicate tick before then num 0 else tick.volume);
        last_merged_timestamp = tick.timestamp;
        last_merged_price = tick.price;
      })

  unfoldable pub merge : ℕ → Tick F → CandleBuilder F → CandleBuilder F
  merge bucket_start tick b = record b {
    state = some (merged_state bucket_start tick b.state);
    last_known_price = some tick.price;
    last_known_timestamp = some tick.timestamp;
  }

  abbrev pub merge_if_valid : Bool → ℕ → Tick F → CandleBuilder F → CandleBuilder F
  merge_if_valid price_is_valid bucket_start tick b =
      if price_is_valid then merge bucket_start tick b else b

  -- a tick of a later bucket
  unfoldable pub roll_over :
      ℕ
      → Bool
      → Tick F
      → BucketState F
      → CandleBuilder F
      → Option (Option (OhlcvBar F) × CandleBuilder F)
  roll_over bucket_start price_is_valid tick s b = do
    completed ← finalize s false
    some (
      some completed,
      merge_if_valid price_is_valid bucket_start tick (record b { state = none }),
    )

  -- from the bucket's completion to the end
  unfoldable pub complete_and_merge :
      ℕ
      → Bool
      → Tick F
      → Option (BucketState F)
      → CandleBuilder F
      → Option (Option (OhlcvBar F) × CandleBuilder F)
  complete_and_merge bucket_start price_is_valid tick none b =
      some (none, merge_if_valid price_is_valid bucket_start tick b)
  complete_and_merge bucket_start price_is_valid tick (some s) b =
      if ltb bucket_start s.bucket_start
      then some
          (none, with_counts (λ c. record c { late_out_of_order = suc c.late_out_of_order }) b)
      else if ltb s.bucket_start bucket_start
      then roll_over bucket_start price_is_valid tick s b
      else some (none, merge_if_valid price_is_valid bucket_start tick b)

  -- the second half of `_on_tick_locked`
  unfoldable pub take_tick :
      Tick F → Bool × CandleBuilder F → Option (Option (OhlcvBar F) × CandleBuilder F)
  take_tick tick (false, b) = some (none, b)
  take_tick tick (true, b) = do
    (price_is_valid, checked) ← check_price tick b
    bucket_start ← bucket_start_for checked tick.timestamp
    complete_and_merge bucket_start price_is_valid tick checked.state checked

  -- `none` is an exception.
  unfoldable pub on_tick : Tick F → CandleBuilder F → Option (Option (OhlcvBar F) × CandleBuilder F)
  on_tick tick b = take_tick tick (admit_timestamp tick b)

  abbrev flushed : Option (BucketState F) → Option (Option (OhlcvBar F))
  flushed none = some none
  flushed (some s) = do bar ← finalize s true; some (some bar)

  unfoldable pub flush : CandleBuilder F → Option (Option (OhlcvBar F))
  flush b = flushed b.state

abbrev paired : {F : Type 0} → Option F → Option ℕ → Option (F × Option ℕ)
paired none timestamp = none
paired (some price) timestamp = some (price, timestamp)

unfoldable pub last_known_price_and_timestamp :
    {F : Type 0} → CandleBuilder F → Option (F × Option ℕ)
last_known_price_and_timestamp b = paired b.last_known_price b.last_known_timestamp
