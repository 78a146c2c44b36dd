-- ===== src/Live/Dhan/CandleBuilder/Valid.antt =====
-- live/dhan/candle_builder.py: what holds of the builder's state through all ticks.
use trading_workstation.Prelude.{
  if_split, if_holds, ℕ, suc, ◌*◌, ◌/◌, ◌≡◌, ◌≢◌, refl, ◌∙◌, Bool, true, false, Option, none, some,
  not, ◌||◌, if◌then◌else◌, Double, num, fmax, arith,
}
use trading_workstation.Live.Dhan.CandleBuilder.Models.{
  Tick, BucketState, RejectedTickCounts, CandleBuilder, OhlcvBar,
}
use trading_workstation.Live.Dhan.CandleBuilder.{
  check_price, merged_state, fmin, seeded, with_counts, advanced, deviates,
}
use trading_workstation.Live.Dhan.CandleBuilder.Order.{
  FiniteOrder, le-fmax_left, le-fmax_right, le-fmin_left, le-fmin_right,
}

abbrev pub Holds : {A : Type 0} → (A → Type 0) → Option A → Type 0
Holds P none = Unit
Holds P (some a) = P a

module _ {F : Type 0} ⦃d : Double F⦄ where
  open d use {is_finite, lt, le, add, sub, mul, div, abs}

  abbrev pub IsPrice : F → Type 0
  IsPrice p = (is_finite p ≡ true) × (lt (num 0) p ≡ true)

  pub record IsBucket (duration : ℕ) (s : BucketState F) : Type 0 where
    pub open_is_price : IsPrice s.open_price
    pub high_is_price : IsPrice s.high
    pub low_is_price : IsPrice s.low
    pub close_is_price : IsPrice s.close
    pub low_open : le s.low s.open_price ≡ true
    pub low_close : le s.low s.close ≡ true
    pub open_high : le s.open_price s.high ≡ true
    pub close_high : le s.close s.high ≡ true
    pub volume_not_negative : le (num 0) s.volume ≡ true
    pub starts : s.bucket_start ≡ s.last_source_timestamp / duration * duration

  pub record IsBuilder (b : CandleBuilder F) : Type 0 where
    pub has_duration : b.bucket_duration ≢ 0
    pub bucket : Holds (IsBucket b.bucket_duration) b.state
    pub known : Holds IsPrice b.last_known_price

  -- a bar of one whole bucket
  pub record IsBar (duration : ℕ) (bar : OhlcvBar F) : Type 0 where
    pub low_positive : lt (num 0) bar.low ≡ true
    pub low_open : le bar.low bar.open_price ≡ true
    pub low_close : le bar.low bar.close ≡ true
    pub open_high : le bar.open_price bar.high ≡ true
    pub close_high : le bar.close bar.high ≡ true
    pub volume_not_negative : le (num 0) bar.volume ≡ true
    pub starts : bar.timestamp ≡ bar.source_timestamp / duration * duration
    pub is_whole : bar.is_partial ≡ false

  module _ (order : FiniteOrder F) where
    open order use {
      le_refl, le_trans, lt_le, not_lt, not_le, lt_not_eq, add_not_negative, zero_finite,
    }

    seeded-IsBucket :
        (duration bucket_start : ℕ) (tick : Tick F)
        → IsPrice tick.price
        → bucket_start ≡ tick.timestamp / duration * duration
        → IsBucket duration (seeded bucket_start tick)
    seeded-IsBucket duration start tick price starts =
        let same = le_refl tick.price price.0 in
        record {
          open_is_price = price;
          high_is_price = price;
          low_is_price = price;
          close_is_price = price;
          low_open = same;
          low_close = same;
          open_high = same;
          close_high = same;
          volume_not_negative = le_refl (num 0) zero_finite;
          starts = starts;
        }

    -- High, low and volume with the tick.
    widened : Tick F → F → BucketState F → BucketState F
    widened tick volume s = record s {
      high = fmax s.high tick.price;
      low = fmin s.low tick.price;
      volume = add s.volume volume;
      last_merged_timestamp = tick.timestamp;
      last_merged_price = tick.price;
    }

    widened-IsBucket :
        (duration : ℕ) (tick : Tick F) (volume : F) (s : BucketState F)
        → IsPrice tick.price
        → le (num 0) volume ≡ true
        → IsBucket duration s
        → IsBucket duration (widened tick volume s)
    unfolding widened
    widened-IsBucket duration tick volume s price more ok =
        let high = le-fmax_left order s.high tick.price ok.high_is_price.0 in
        let low = le-fmin_left order s.low tick.price ok.low_is_price.0 in
        record {
          open_is_price = ok.open_is_price;
          high_is_price = if_holds IsPrice _ _ _ price ok.high_is_price;
          low_is_price = if_holds IsPrice _ _ _ price ok.low_is_price;
          close_is_price = ok.close_is_price;
          low_open = le_trans _ _ _ low ok.low_open;
          low_close = le_trans _ _ _ low ok.low_close;
          open_high = le_trans _ _ _ ok.open_high high;
          close_high = le_trans _ _ _ ok.close_high high;
          volume_not_negative = add_not_negative _ _ ok.volume_not_negative more;
          starts = ok.starts;
        }

    advanced-IsBucket :
        (duration : ℕ) (tick : Tick F) (s : BucketState F)
        → IsPrice tick.price
        → le s.low tick.price ≡ true
        → le tick.price s.high ≡ true
        → s.bucket_start ≡ tick.timestamp / duration * duration
        → IsBucket duration s
        → IsBucket duration (advanced tick s)
    advanced-IsBucket duration tick s price low high starts ok =
        if_holds (IsBucket duration) _ _ _
          (record {
            open_is_price = ok.open_is_price;
            high_is_price = ok.high_is_price;
            low_is_price = ok.low_is_price;
            close_is_price = price;
            low_open = ok.low_open;
            low_close = low;
            open_high = ok.open_high;
            close_high = high;
            volume_not_negative = ok.volume_not_negative;
            starts = starts;
          })
          ok

    -- One tick merged into a bucket of its own timestamp.
    merged-IsBucket :
        (duration : ℕ) (tick : Tick F) (volume : F) (s : BucketState F)
        → IsPrice tick.price
        → le (num 0) volume ≡ true
        → s.bucket_start ≡ tick.timestamp / duration * duration
        → IsBucket duration s
        → IsBucket duration (advanced tick (widened tick volume s))
    unfolding widened
    merged-IsBucket duration tick volume s price more starts ok =
        advanced-IsBucket duration tick (widened tick volume s) price
          (le-fmin_right order s.low tick.price ok.low_is_price.0 price.0)
          (le-fmax_right order s.high tick.price ok.high_is_price.0 price.0) starts
          (widened-IsBucket duration tick volume s price more ok)

    pub merged_state-IsBucket :
        (duration bucket_start : ℕ) (tick : Tick F) (before : Option (BucketState F))
        → IsPrice tick.price
        → le (num 0) tick.volume ≡ true
        → bucket_start ≡ tick.timestamp / duration * duration
        → Holds (λ s. s.bucket_start ≡ bucket_start) before
        → Holds (IsBucket duration) before
        → IsBucket duration (merged_state bucket_start tick before)
    unfolding merged_state widened
    merged_state-IsBucket duration start tick none price more starts same ok =
        let zero_ = le_refl (num 0) zero_finite in
        merged-IsBucket duration tick tick.volume (seeded start tick) price more starts
          (seeded-IsBucket duration start tick price starts)
    merged_state-IsBucket duration start tick (some s) price more starts same ok =
        let zero_ = le_refl (num 0) zero_finite in
        merged-IsBucket duration tick _ s price
          (if_holds (λ v. le (num 0) v ≡ true) _ _ _ zero_ more) (same ∙ starts) ok

    -- The tick's price and volume can be taken.
    abbrev pub IsValid : Tick F → Type 0
    IsValid tick = IsPrice tick.price × (le (num 0) tick.volume ≡ true)

    -- The outcome of the checks on the price: only the counters move.
    abbrev pub Checked : Tick F → CandleBuilder F → Option (Bool × CandleBuilder F) → Type 0
    Checked tick b o =
        (valid : Bool) × (c : RejectedTickCounts) × (o
          ≡ some (valid, record b { rejected_tick_counts = c }))
        × (valid ≡ true → IsValid tick)

    deviates-Returns :
        (price : F) (known max_pct : Option F)
        → Holds IsPrice known
        → (far : Bool) × (deviates price known max_pct ≡ some far)
    deviates-Returns price (some known) (some max_pct) ok =
        let e = lt_not_eq _ _ ok.1 in
        (lt max_pct (mul (div (abs (sub price known)) known) (num 100)), rw e refl)
    deviates-Returns price (some known) none ok = (false, refl)
    deviates-Returns price none max_pct ok = (false, refl)

    deviation-Checked :
        (tick : Tick F) (b : CandleBuilder F) (far : Bool)
        → IsValid tick
        → Checked tick b (
            some (
              if far
              then (
                false,
                with_counts
                    (λ c. record c { implausible_deviation = suc c.implausible_deviation })
                    b,
              )
              else (true, b)))
    deviation-Checked tick b true valid = (false, _, refl, λ e. cc)
    deviation-Checked tick b false valid = (true, b.rejected_tick_counts, refl, λ e. valid)

    tick-IsValid :
        (tick : Tick F)
        → (not (is_finite tick.price) || not (is_finite tick.volume)) ≡ false
        → le tick.price (num 0) ≡ false
        → lt tick.volume (num 0) ≡ false
        → IsValid tick
    tick-IsValid tick finite positive more =
        let p : is_finite tick.price ≡ true = ground arith in
        let v : is_finite tick.volume ≡ true = ground arith in
        (
          (p, not_le tick.price (num 0) p zero_finite positive),
          not_lt tick.volume (num 0) v zero_finite more,
        )

    pub check_price-Checked :
        (tick : Tick F) (b : CandleBuilder F) → IsBuilder b → Checked tick b (check_price tick b)
    unfolding check_price
    check_price-Checked tick b ok =
        let rejected : (c : RejectedTickCounts)
            → Checked tick b (some (false, record b { rejected_tick_counts = c })) =
          λ c. (false, c, refl, λ e. cc) in
        if_split (Checked tick b) (not (is_finite tick.price) || not (is_finite tick.volume)) _ _
          (λ _. rejected _)
          (λ finite.
            if_split (Checked tick b) (le tick.price (num 0)) _ _ (λ _. rejected _)
              (λ positive.
                if_split (Checked tick b) (lt tick.volume (num 0)) _ _ (λ _. rejected _)
                  (λ more.
                    let (far, e) =
                      deviates-Returns tick.price b.last_known_price b.max_tick_deviation_pct
                        ok.known in
                    rw e (deviation-Checked tick b far (tick-IsValid tick finite positive more)))))
