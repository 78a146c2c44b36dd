-- ===== src/Paper/Replay/Steps.antt =====
-- paper/session.py: one bar of a session is one step of the replay.
use trading_workstation.Prelude.{
  ℕ, ◌+◌, ◌≡◌, refl, sym, ap, ◌∙◌, Bool, true, not, Option, none, some, List, [], ◌∷◌, Double,
  ==_refl, if◌then◌else◌, arith, length, pos, ◌-ℤ◌,
}
use trading_workstation.Backtesting.Execution.{Bar}
use trading_workstation.Paper.Models.{runtime_error}
use trading_workstation.Paper.Monad.{Engine, Result, ok, err, Action, pure, raise, ◌>>=◌, ◌>>◌}
use trading_workstation.Paper.Positions.{Setup}
use trading_workstation.Paper.Bars.{BarOutcome, close_at_end_of_data}
use trading_workstation.Paper.Replay.Rows.{difference, rows_from-next, is_last, is_not_last}
use trading_workstation.Paper.Replay.{
  ReplaySummary, rows_from, counted_if, Series, PaperSession, process_series_bar, replay_rows,
  summed_up, closed_with, counted, process_next_bar, loop_on, at_row,
}

module _ {F : Type 0} where
  -- what a session has to show, in the form of the replay's summary
  abbrev pub summarised :
      Option (Result (Unit {0}) × PaperSession F) → Option (Result ReplaySummary × Engine F)
  summarised none = none
  summarised (some (err x, s)) = some (err x, s.engine)
  summarised (some (ok _, s)) = some (
    ok (record { bars_processed = pos s.bars_processed; signals_submitted = s.signals_submitted }),
    s.engine,
  )

module _ {F : Type 0} ⦃d : Double F⦄ (setup : Setup F) (series : Series F) where
  abbrev pub Again : Type 0
  Again = PaperSession F → Option (Result (Unit {0}) × PaperSession F)

  -- what is left of a replay that has come to the bars
  abbrev pub rest_of : ℕ → ℕ → List (Bar F) → ℕ → Option (Bar F) → Action F ReplaySummary
  rest_of start i bars signals last =
      replay_rows setup series i bars signals last
      >>= summed_up setup series start (length series.rows)

  -- The session is at the rows, and has counted those from the start on.
  pub record IsAt (start : ℕ) (bars : List (Bar F)) (s : PaperSession F) : Type 0 where
    pub started : s.is_started ≡ true
    pub rows : rows_from s.index series.rows ≡ bars
    pub in_range : s.index + length bars ≡ length series.rows
    pub counts : start + s.bars_processed ≡ s.index

  -- Whoever goes on from the end only sums up.
  abbrev pub Ends : ℕ → Again → Type 0
  Ends start again =
      (s : PaperSession F)
      → IsAt start [] s
      → summarised (again s)
        ≡ some (
          ok (record {
            bars_processed = pos s.bars_processed;
            signals_submitted = s.signals_submitted;
          }),
          s.engine,
        )

  closing-parity :
      (again : Again) (start : ℕ) (outcome : BarOutcome) (s : PaperSession F) (b : Bar F)
      (r : Result (Unit {0}) × Engine F)
      → Ends start again
      → IsAt start [] s
      → summarised (loop_on setup series again some (closed_with setup series outcome s r))
        ≡ some (
            ((λ (_ : Engine F). r)
                >> pure (record {
                  bars_processed = pos (length series.rows) -ℤ pos start;
                  signals_submitted = s.signals_submitted;
                }))
              s.engine)
  unfolding ◌>>=◌ raise pure
  closing-parity again start outcome s b (err x, e) ends at = refl
  closing-parity again start outcome s b (ok u, e) ends at =
      ends (record s { engine = e })
        (record {
          started = at.started;
          rows = at.rows;
          in_range = at.in_range;
          counts = at.counts;
        })
      ∙ ap
          (λ k.
            some (ok (record { bars_processed = k; signals_submitted = s.signals_submitted }), e))
          (sym (
            difference start s.bars_processed (length series.rows)
              (at.counts ∙ omega (arith, at.in_range))))

  -- Whoever goes on from a later row does what is left of the replay.
  abbrev pub GoesOn : ℕ → List (Bar F) → Again → Type 0
  GoesOn start [] again = Unit
  GoesOn start (b ∷ bs) again =
      (s : PaperSession F) (last : Option (Bar F))
      → IsAt start (b ∷ bs) s
      → summarised (again s)
        ≡ some (rest_of start s.index (b ∷ bs) s.signals_submitted last s.engine)

  unfoldable pub advanced_to : PaperSession F → Engine F → ℕ → PaperSession F
  advanced_to s e signals = record s {
    engine = e;
    bars_processed = s.bars_processed + 1;
    signals_submitted = signals;
    index = s.index + 1;
  }

  advanced_to-IsAt :
      (start : ℕ) (s : PaperSession F) (b : Bar F) (bs : List (Bar F)) (e : Engine F) (signals : ℕ)
      → IsAt start (b ∷ bs) s
      → IsAt start bs (advanced_to s e signals)
  unfolding advanced_to
  advanced_to-IsAt start s b bs e signals at = record {
    started = at.started;
    rows = rows_from-next s.index series.rows b bs at.rows;
    in_range = omega (arith, at.in_range);
    counts = omega (arith, at.counts);
  }

  -- One step, for any outcome of the row.
  step-parity :
      (again : Again) (start : ℕ) (s : PaperSession F) (b : Bar F) (bs : List (Bar F))
      (last : Option (Bar F)) (r : Result (BarOutcome × Bool) × Engine F)
      → Ends start again
      → GoesOn start bs again
      → IsAt start (b ∷ bs) s
      → summarised (loop_on setup series again some (counted setup series s b r))
        ≡ some (
            (((λ (_ : Engine F). r) >>= λ (outcome, submitted).
            replay_rows setup series
              (s.index + 1)
              bs
              (counted_if submitted s.signals_submitted)
              (some b))
                >>= summed_up setup series start (length series.rows))
              s.engine)
  unfolding ◌>>=◌ raise pure replay_rows advanced_to
  step-parity again start s b bs last (err x, e) ends on at = refl
  step-parity again start s b [] last (ok (outcome, submitted), e) ends on at =
      rw (is_last s.index (length series.rows) at.in_range) (
        rw (==_refl (length series.rows)) (
          closing-parity again start outcome
            (advanced_to s e (counted_if submitted s.signals_submitted)) b
            (close_at_end_of_data setup series.symbol b e) ends
            (advanced_to-IsAt start s b [] e (counted_if submitted s.signals_submitted) at)))
  step-parity again start s b (b1 ∷ bs) last (ok (outcome, submitted), e) ends on at =
      rw (is_not_last s.index (length bs) (length series.rows) at.in_range) (
        on (advanced_to s e (counted_if submitted s.signals_submitted)) (some b)
          (advanced_to-IsAt start s b (b1 ∷ bs) e (counted_if submitted s.signals_submitted) at))

  pub process_next_bar-at :
      (start : ℕ) (s : PaperSession F) (bars : List (Bar F))
      → IsAt start bars s
      → process_next_bar setup series s ≡ at_row setup series bars s
  unfolding process_next_bar
  process_next_bar-at start s bars at =
      ap
        (λ b.
          if not b
          then (err runtime_error, s)
          else at_row setup series (rows_from s.index series.rows) s)
        at.started
      ∙ ap (λ rows. at_row setup series rows s) at.rows

  pub next_bar-parity :
      (again : Again) (start : ℕ) (b : Bar F) (bs : List (Bar F))
      → Ends start again
      → GoesOn start bs again
      → GoesOn start
          (b ∷ bs)
          (λ s. loop_on setup series again some (process_next_bar setup series s))
  unfolding replay_rows ◌>>=◌
  next_bar-parity again start b bs ends on s last at =
      rw (process_next_bar-at start s (b ∷ bs) at) (
        step-parity again start s b bs last (process_series_bar setup series s.index b s.engine)
          ends on at)
