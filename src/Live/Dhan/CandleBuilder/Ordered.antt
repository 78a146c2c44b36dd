-- ===== src/Live/Dhan/CandleBuilder/Ordered.antt =====
-- live/dhan/candle_builder.py: the order of the bars.
use mathlib.Core.Path.{subst}
use mathlib.Core.Option.{some-injective}
use trading_workstation.Prelude.{
  ℕ, suc, ◌≤◌, ◌≡◌, true, Option, none, some, List, [], ◌∷◌, Double, arith,
}
use trading_workstation.Prelude.Options.{>>=-eq-some}
use trading_workstation.Live.Dhan.CandleBuilder.Models.{Tick, CandleBuilder, OhlcvBar}
use trading_workstation.Live.Dhan.CandleBuilder.{on_tick}
use trading_workstation.Live.Dhan.CandleBuilder.Bars.{on_ticks, with_bar}
use trading_workstation.Live.Dhan.CandleBuilder.Moves.{
  invalid_prices, floor_of, Moves, on_tick-Step,
}

module _ {F : Type 0} where
  -- Bars one after the other, the first not before the given start.
  abbrev pub Increasing : ℕ → List (OhlcvBar F) → Type 0
  Increasing start [] = Unit
  Increasing start (bar ∷ bars) = (start ≤ bar.timestamp) × Increasing (suc bar.timestamp) bars

  Increasing-mono :
      (m n : ℕ) (bars : List (OhlcvBar F)) → m ≤ n → Increasing n bars → Increasing m bars
  Increasing-mono m n [] h k = tt
  Increasing-mono m n (bar ∷ bars) h k = (omega (arith, k.0), k.1)

  Increasing-with_bar :
      (before after : ℕ) (bar : Option (OhlcvBar F)) (bars : List (OhlcvBar F))
      → Moves before bar after
      → Increasing after bars
      → Increasing before (with_bar bar bars)
  Increasing-with_bar before after none bars h k = Increasing-mono before after bars h k
  Increasing-with_bar before after (some bar) bars h k =
      (h.0, Increasing-mono (suc bar.timestamp) after bars h.1 k)

module _ {F : Type 0} ⦃d : Double F⦄ where
  record Order (b : CandleBuilder F) (bars : List (OhlcvBar F)) (left : CandleBuilder F)
      : Type 0 where
    confirmed : left.baseline_confirmed ≡ true
    monotone : invalid_prices b.rejected_tick_counts ≤ invalid_prices left.rejected_tick_counts
    ordered :
        invalid_prices left.rejected_tick_counts ≡ invalid_prices b.rejected_tick_counts
        → Increasing (floor_of b.state) bars

  on_ticks-Order :
      (ticks : List (Tick F)) (b left : CandleBuilder F) (bars : List (OhlcvBar F))
      → b.baseline_confirmed ≡ true
      → on_ticks ticks b ≡ some (bars, left)
      → Order b bars left
  unfolding on_ticks
  on_ticks-Order [] b left bars sure e =
      subst (λ (x : List (OhlcvBar F) × CandleBuilder F). Order b x.0 x.1) (some-injective _ _ e)
        (record { confirmed = sure; monotone = omega arith; ordered = λ _. tt })
  on_ticks-Order (tick ∷ ticks) b left bars sure e =
      let ((bar, b1), f, g) = >>=-eq-some (on_tick tick b) _ e in
      let ((later, b2), h, last) = >>=-eq-some (on_ticks ticks b1) _ g in
      let step = on_tick-Step tick b bar b1 sure f in
      let rest = on_ticks-Order ticks b1 b2 later step.confirmed h in
      subst (λ (x : List (OhlcvBar F) × CandleBuilder F). Order b x.0 x.1) (some-injective _ _ last)
        (record {
          confirmed = rest.confirmed;
          monotone = omega (arith, step.monotone, rest.monotone);
          ordered = λ same.
              Increasing-with_bar (floor_of b.state) (floor_of b1.state) bar later
                (step.moves (omega (arith, step.monotone, rest.monotone)))
                (rest.ordered (omega (arith, step.monotone, rest.monotone)));
        })

  -- A builder whose baseline is confirmed stays confirmed, and if a sequence of ticks adds nothing
  -- to its four counters of invalid prices, volumes and deviations, then the bars that the sequence
  -- completes have increasing start times with no two alike, the first not before the start of the
  -- bucket that was open at first.
  pub on_ticks-Increasing :
      (ticks : List (Tick F)) (b left : CandleBuilder F) (bars : List (OhlcvBar F))
      → b.baseline_confirmed ≡ true
      → on_ticks ticks b ≡ some (bars, left)
      → invalid_prices left.rejected_tick_counts ≡ invalid_prices b.rejected_tick_counts
      → (left.baseline_confirmed ≡ true) × Increasing (floor_of b.state) bars
  on_ticks-Increasing ticks b left bars sure e same =
      let order = on_ticks-Order ticks b left bars sure e in (order.confirmed, order.ordered same)
