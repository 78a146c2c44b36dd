-- ===== src/Live/Dhan/CandleBuilder/Bars.antt =====
-- live/dhan/candle_builder.py: the bars that a sequence of ticks completes.
use mathlib.Core.Path.{subst}
use mathlib.Core.Option.{some-injective}
use trading_workstation.Prelude.{
  ℕ, ◌≡◌, ◌≢◌, refl, Option, none, some, List, [], ◌∷◌, All, Double, arith,
}
use trading_workstation.Prelude.Options.{◌>>=◌}
use trading_workstation.Live.Freshness.{TimeUnit, minutes, hours, days, weeks, months}
use trading_workstation.Live.Dhan.CandleBuilder.Models.{Tick, CandleBuilder, OhlcvBar, new_builder}
use trading_workstation.Live.Dhan.CandleBuilder.{on_tick}
use trading_workstation.Live.Dhan.CandleBuilder.Order.{FiniteOrder}
use trading_workstation.Live.Dhan.CandleBuilder.Valid.{Holds, IsBuilder, IsBar}
use trading_workstation.Live.Dhan.CandleBuilder.Kept.{Follows, Steps, on_tick-Steps}

module _ {F : Type 0} where
  abbrev pub with_bar : Option (OhlcvBar F) → List (OhlcvBar F) → List (OhlcvBar F)
  with_bar none bars = bars
  with_bar (some bar) bars = bar ∷ bars

  All-with_bar :
      (P : OhlcvBar F → Type 0) (bar : Option (OhlcvBar F)) (bars : List (OhlcvBar F))
      → Holds P bar
      → All P bars
      → All P (with_bar bar bars)
  All-with_bar P none bars h k = k
  All-with_bar P (some bar) bars h k = (h, k)

module _ {F : Type 0} ⦃d : Double F⦄ where
  -- `on_tick` for one tick after the other, and the bars that come back
  unfoldable pub on_ticks :
      List (Tick F) → CandleBuilder F → Option (List (OhlcvBar F) × CandleBuilder F)
  on_ticks [] b = some ([], b)
  on_ticks (tick ∷ ticks) b = do
    (bar, b1) ← on_tick tick b
    (bars, b2) ← on_ticks ticks b1
    some (with_bar bar bars, b2)

  on_ticks-Steps :
      FiniteOrder F
      → (ticks : List (Tick F)) (duration : ℕ) (b : CandleBuilder F) → Follows duration b
      → (bars : List (OhlcvBar F)) × (left : CandleBuilder F) × (on_ticks ticks b
          ≡ some (bars, left))
        × All (IsBar duration) bars
  unfolding on_ticks
  on_ticks-Steps order [] duration b ok = ([], b, refl, tt)
  on_ticks-Steps order (tick ∷ ticks) duration b (ok, same) =
      let step = subst (λ n. Steps n (on_tick tick b)) same (on_tick-Steps order tick b ok) in
      let (bars, left, e, sound) = on_ticks-Steps order ticks duration step.result.1 step.builder in
      (
        with_bar step.result.0 bars,
        left,
        rw (step.returns, e) refl,
        All-with_bar (IsBar duration) step.result.0 bars step.bar sound,
      )

  new_builder-IsBuilder :
      (quantity : ℕ) (unit : TimeUnit) (max_deviation : Option F) (max_skew cold : Option ℕ)
      {b : CandleBuilder F}
      → quantity ≢ 0
      → new_builder quantity unit max_deviation max_skew cold ≡ some b
      → IsBuilder b
  new_builder-IsBuilder quantity minutes max_deviation max_skew cold h e =
      subst IsBuilder (some-injective _ _ e)
        (record { has_duration = λ z. omega arith; bucket = tt; known = tt })
  new_builder-IsBuilder quantity hours max_deviation max_skew cold h e =
      subst IsBuilder (some-injective _ _ e)
        (record { has_duration = λ z. omega arith; bucket = tt; known = tt })
  new_builder-IsBuilder quantity days max_deviation max_skew cold h e =
      subst IsBuilder (some-injective _ _ e)
        (record { has_duration = λ z. omega arith; bucket = tt; known = tt })
  new_builder-IsBuilder quantity weeks max_deviation max_skew cold h e =
      subst IsBuilder (some-injective _ _ e)
        (record { has_duration = λ z. omega arith; bucket = tt; known = tt })
  new_builder-IsBuilder quantity months max_deviation max_skew cold h e = cc

  -- From a new builder of any interval that is not empty, with any of its guards on or off, any
  -- sequence of ticks is taken without an exception, and each bar that it completes is sound: its
  -- prices are positive with the low below the open and the close and the high above them, its
  -- volume is not negative, it starts where its bucket does, which is that of its source timestamp,
  -- and it is not partial. The order of finite floats is a hypothesis.
  pub on_ticks-IsBar :
      FiniteOrder F
      → (quantity : ℕ) (unit : TimeUnit) (max_deviation : Option F)
        (max_skew max_cold_start_skew : Option ℕ) (b : CandleBuilder F) (ticks : List (Tick F))
      → quantity ≢ 0
      → new_builder quantity unit max_deviation max_skew max_cold_start_skew ≡ some b
      → (bars : List (OhlcvBar F)) × (left : CandleBuilder F) × (on_ticks ticks b
          ≡ some (bars, left))
        × All (IsBar b.bucket_duration) bars
  on_ticks-IsBar order quantity unit max_deviation max_skew cold b ticks h e =
      on_ticks-Steps order ticks b.bucket_duration b
        (new_builder-IsBuilder quantity unit max_deviation max_skew cold h e, refl)
