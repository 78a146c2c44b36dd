-- ===== src/Live/Dhan/CandleBuilder/Kept.antt =====
-- live/dhan/candle_builder.py: `on_tick` returns, keeps the builder's state sound, and gives sound bars.
use trading_workstation.Prelude.{
  if_split, ℕ, suc, ◌*◌, ◌/◌, ◌≡◌, ◌≢◌, refl, sym, Bool, true, false, Option, none, some, ltb, ◌==◌,
  Double, arith, ◌&&◌,
}
use mathlib.Core.Path.{subst}
use trading_workstation.Live.Dhan.CandleBuilder.Models.{Tick, BucketState, CandleBuilder, OhlcvBar}
use trading_workstation.Live.Dhan.CandleBuilder.Timestamps.{
  admit_timestamp, disagrees, agrees, plausible_relative_to_receipt, remember_candidate,
  agrees_with_pending, apart, compare_timestamps,
}
use trading_workstation.Live.Dhan.CandleBuilder.{
  finalize, merge, merge_if_valid, roll_over, complete_and_merge, take_tick, on_tick, with_counts,
  bar_of, with_counts,
}
use trading_workstation.Live.Dhan.CandleBuilder.Order.{FiniteOrder}
use trading_workstation.Live.Dhan.CandleBuilder.Valid.{
  Holds, IsBucket, IsBuilder, IsBar, IsValid, check_price-Checked, merged_state-IsBucket,
}

nonzero_test : (n : ℕ) → n ≢ 0 → (n == 0) ≡ false
nonzero_test n h = ground arith

module _ {F : Type 0} ⦃d : Double F⦄ where
  open d use {is_finite, lt, le}

  -- The builder is sound and has buckets of the same duration.
  abbrev pub Follows : ℕ → CandleBuilder F → Type 0
  Follows duration b = IsBuilder b × (b.bucket_duration ≡ duration)

  reject-Follows :
      (tick : Tick F) (b : CandleBuilder F)
      → IsBuilder b
      → Follows b.bucket_duration (remember_candidate tick b)
  reject-Follows tick b ok =
      (record { has_duration = ok.has_duration; bucket = ok.bucket; known = ok.known }, refl)

  module _ (max_skew : ℕ) (tick : Tick F) (b : CandleBuilder F) where
    disagrees-Follows : IsBuilder b → Follows b.bucket_duration (disagrees max_skew tick b).1
    unfolding disagrees
    disagrees-Follows ok =
        let P : Bool × CandleBuilder F → Type 0 = λ r. Follows b.bucket_duration r.1 in
        if_split P b.baseline_confirmed _ _
          (λ _.
            (record { has_duration = ok.has_duration; bucket = ok.bucket; known = ok.known }, refl))
          (λ _.
            if_split P
              (agrees_with_pending max_skew tick.timestamp b.pending_candidate_timestamp
                && plausible_relative_to_receipt tick b)
              _ _ (λ _. (record { has_duration = ok.has_duration; bucket = tt; known = tt }, refl))
              (λ _. reject-Follows tick b ok))

  agrees-Follows :
      (tick : Tick F) (b : CandleBuilder F)
      → IsBuilder b
      → Follows b.bucket_duration (agrees tick b).1
  unfolding agrees
  agrees-Follows tick b ok =
      let P : Bool × CandleBuilder F → Type 0 = λ r. Follows b.bucket_duration r.1 in
      if_split P b.baseline_confirmed _ _ (λ _. (ok, refl))
        (λ _.
          if_split P (plausible_relative_to_receipt tick b) _ _
            (λ _. (
              record { has_duration = ok.has_duration; bucket = ok.bucket; known = ok.known },
              refl,
            ))
            (λ _. reject-Follows tick b ok))

  compare-Follows :
      (known max_skew : Option ℕ) (tick : Tick F) (b : CandleBuilder F)
      → IsBuilder b
      → Follows b.bucket_duration (compare_timestamps known max_skew tick b).1
  compare-Follows (some known) (some max_skew) tick b ok =
      if_split (λ (r : Bool × CandleBuilder F). Follows b.bucket_duration r.1)
        (ltb max_skew (apart tick.timestamp known)) _ _ (λ _. disagrees-Follows max_skew tick b ok)
        (λ _. agrees-Follows tick b ok)
  compare-Follows (some known) none tick b ok = (ok, refl)
  compare-Follows none max_skew tick b ok = (ok, refl)

  admit_timestamp-Follows :
      (tick : Tick F) (b : CandleBuilder F)
      → IsBuilder b
      → Follows b.bucket_duration (admit_timestamp tick b).1
  unfolding admit_timestamp
  admit_timestamp-Follows tick b ok =
      compare-Follows b.last_known_timestamp b.max_timestamp_skew tick b ok

  finalize-IsBar :
      (duration : ℕ) (s : BucketState F)
      → IsBucket duration s
      → (finalize s false ≡ some (bar_of s false)) × IsBar duration (bar_of s false)
  unfolding finalize
  finalize-IsBar duration s ok = (
    rw
        (
          ok.open_is_price.1, ok.high_is_price.1, ok.low_is_price.1, ok.close_is_price.1,
          ok.volume_not_negative,
        )
        refl,
    record {
      low_positive = ok.low_is_price.1;
      low_open = ok.low_open;
      low_close = ok.low_close;
      open_high = ok.open_high;
      close_high = ok.close_high;
      volume_not_negative = ok.volume_not_negative;
      starts = ok.starts;
      is_whole = refl;
    },
  )

  -- A result with a sound bar, if it has one, and a sound builder.
  pub record Steps (duration : ℕ) (o : Option (Option (OhlcvBar F) × CandleBuilder F))
      : Type 0 where
    pub result : Option (OhlcvBar F) × CandleBuilder F
    pub returns : o ≡ some result
    pub bar : Holds (IsBar duration) result.0
    pub builder : Follows duration result.1

  module _ (order : FiniteOrder F) where
    merge_if_valid-Follows :
        (valid : Bool) (start : ℕ) (tick : Tick F) (b : CandleBuilder F)
        → IsBuilder b
        → (valid ≡ true → IsValid order tick)
        → start ≡ tick.timestamp / b.bucket_duration * b.bucket_duration
        → Holds (λ s. s.bucket_start ≡ start) b.state
        → Follows b.bucket_duration (merge_if_valid valid start tick b)
    unfolding merge
    merge_if_valid-Follows false start tick b ok valid starts same = (ok, refl)
    merge_if_valid-Follows true start tick b ok valid starts same =
        let (price, more) = valid refl in
        (
          record {
            has_duration = ok.has_duration;
            bucket =
                merged_state-IsBucket order b.bucket_duration start tick b.state price more starts
                  same ok.bucket;
            known = price;
          },
          refl,
        )

    complete_and_merge-Steps :
        (start : ℕ) (valid : Bool) (tick : Tick F) (state : Option (BucketState F))
        (b : CandleBuilder F)
        → IsBuilder b
        → b.state ≡ state
        → (valid ≡ true → IsValid order tick)
        → start ≡ tick.timestamp / b.bucket_duration * b.bucket_duration
        → Steps b.bucket_duration (complete_and_merge start valid tick state b)
    unfolding complete_and_merge roll_over
    complete_and_merge-Steps start valid tick none b ok e v starts = record {
      result = (none, merge_if_valid valid start tick b);
      returns = refl;
      bar = tt;
      builder =
          merge_if_valid-Follows valid start tick b ok v starts
            (subst (Holds (λ s. s.bucket_start ≡ start)) (sym e) tt);
    }
    complete_and_merge-Steps start valid tick (some s) b ok e v starts =
        let duration = b.bucket_duration in
        if_split (Steps duration) (ltb start s.bucket_start) _ _
          (λ _. record {
            result = (
              none,
              with_counts (λ c. record c { late_out_of_order = suc c.late_out_of_order }) b,
            );
            returns = refl;
            bar = tt;
            builder = (
              record { has_duration = ok.has_duration; bucket = ok.bucket; known = ok.known },
              refl,
            );
          })
          (λ not_late.
            if_split (Steps duration) (ltb s.bucket_start start) _ _
              (λ _.
                let (done, sound) =
                  finalize-IsBar duration s (subst (Holds (IsBucket duration)) e ok.bucket) in
                record {
                  result = (
                    some (bar_of s false),
                    merge_if_valid valid start tick (record b { state = none }),
                  );
                  returns = rw done refl;
                  bar = sound;
                  builder =
                      merge_if_valid-Follows valid start tick (record b { state = none })
                        (record { has_duration = ok.has_duration; bucket = tt; known = ok.known }) v
                        starts tt;
                })
              (λ not_later. record {
                result = (none, merge_if_valid valid start tick b);
                returns = refl;
                bar = tt;
                builder =
                    merge_if_valid-Follows valid start tick b ok v starts
                      (subst (Holds (λ s. s.bucket_start ≡ start)) (sym e) (ground arith));
              }))

    take_tick-Steps :
        (tick : Tick F) (admitted : Bool) (b : CandleBuilder F)
        → IsBuilder b
        → Steps b.bucket_duration (take_tick tick (admitted, b))
    unfolding take_tick
    take_tick-Steps tick false b ok = record {
      result = (none, b);
      returns = refl;
      bar = tt;
      builder = (ok, refl);
    }
    take_tick-Steps tick true b ok =
        let (valid, c, e, v) = check_price-Checked order tick b ok in
        let long : (b.bucket_duration == 0) ≡ false =
          nonzero_test b.bucket_duration ok.has_duration in
        let checked = record b { rejected_tick_counts = c } in
        let kept : IsBuilder checked = record {
          has_duration = ok.has_duration;
          bucket = ok.bucket;
          known = ok.known;
        } in
        rw (e, long) (complete_and_merge-Steps _ valid tick b.state checked kept refl v refl)

    pub on_tick-Steps :
        (tick : Tick F) (b : CandleBuilder F)
        → IsBuilder b
        → Steps b.bucket_duration (on_tick tick b)
    unfolding on_tick
    on_tick-Steps tick b ok =
        let (sound, same) = admit_timestamp-Follows tick b ok in
        subst (λ n. Steps n (on_tick tick b)) same
          (take_tick-Steps tick (admit_timestamp tick b).0 (admit_timestamp tick b).1 sound)
