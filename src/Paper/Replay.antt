-- ===== src/Paper/Replay.antt =====
-- paper/replay.py and paper/session.py: one symbol's series of bars, replayed as a whole, and driven
-- bar by bar.
mod Rows
pub mod Steps
pub mod Parity
use trading_workstation.Prelude.{
  ℕ, zero, suc, ◌+◌, ◌-◌, Bool, true, false, not, Option, none, some, List, [], ◌∷◌, Double, ltb,
  leb, ◌==◌, if◌then◌else◌, is_some, length, ℤ, pos, ◌-ℤ◌,
}
use trading_workstation.Signal.{DateTime, Signal, to_naive}
use trading_workstation.Backtesting.Execution.{Bar}
use trading_workstation.Paper.Models.{Error, runtime_error}
use trading_workstation.Paper.Store.{Store, get_last_bar_timestamp}
use trading_workstation.Paper.Monad.{Engine, Result, ok, err, Action, pure, ◌>>=◌, ◌>>◌}
use trading_workstation.Paper.Positions.{Setup}
use trading_workstation.Paper.Bars.{BarOutcome, process_bar, close_at_end_of_data}
use trading_workstation.Paper.Submit.{submit_signal}

-- The symbol is that of the series.
pub record ReplaySummary : Type 0 where
  pub bars_processed : ℤ
  pub signals_submitted : ℕ

-- `series[start:]` and `series[:count]`
abbrev pub rows_from {ℓ} : {A : Type ℓ} → ℕ → List A → List A
rows_from zero rows = rows
rows_from (suc i) [] = []
rows_from (suc i) (row ∷ rows) = rows_from i rows

abbrev pub first_rows {ℓ} : {A : Type ℓ} → ℕ → List A → List A
first_rows zero rows = []
first_rows (suc k) [] = []
first_rows (suc k) (row ∷ rows) = row ∷ first_rows k rows

abbrev pub counted_if : Bool → ℕ → ℕ
counted_if submitted signals = if submitted then signals + 1 else signals

abbrev pub end_of : Option ℕ → ℕ → ℕ
end_of none n = n
end_of (some end_index) n = if leb end_index n then end_index else n

-- A run of one symbol over its series. `tzinfo` is the zone of the index, if it has one, which every
-- row's timestamp carries. `strategy` gives the signal at a row of the series, if any, and
-- `clock` is the time at which a signal of the row is submitted.
pub record Series (F : Type 0) : Type 0 where
  pub symbol : ℕ
  pub tzinfo : Option ℕ
  pub rows : List (Bar F)
  pub strategy : ℕ → Option (Signal F)
  pub version : ℕ
  pub clock : ℕ → DateTime

pub record PaperSession (F : Type 0) : Type 0 where
  pub engine : Engine F
  pub is_started : Bool
  pub bars_processed : ℕ
  pub signals_submitted : ℕ
  pub index : ℕ

-- `searchsorted(cursor, side="right")` on an index without a zone, which is sorted
abbrev pub rows_until : {F : Type 0} → ℕ → List (Bar F) → ℕ
rows_until cursor [] = 0
rows_until cursor (row ∷ rows) =
    if leb (to_naive row.timestamp) cursor then suc (rows_until cursor rows) else 0

pub record SessionStatus : Type 0 where
  pub symbol : ℕ
  pub next_index : ℕ
  pub total_bars : ℕ
  pub is_finished : Bool
  pub bars_processed : ℕ
  pub signals_submitted : ℕ

-- `status`
abbrev pub session_status : {F : Type 0} → Series F → PaperSession F → SessionStatus
session_status series s = record {
  symbol = series.symbol;
  next_index = s.index;
  total_bars = length series.rows;
  is_finished = leb (length series.rows) s.index;
  bars_processed = s.bars_processed;
  signals_submitted = s.signals_submitted;
}

module _ {F : Type 0} ⦃d : Double F⦄ (setup : Setup F) (series : Series F) where
  abbrev pub submit_at : ℕ → Option (Signal F) → Action F Bool
  submit_at i none = pure false
  submit_at i (some signal) = do
    submit_signal setup signal series.version (series.clock i)
    pure true

  unfoldable pub process_series_bar : ℕ → Bar F → Action F (BarOutcome × Bool)
  process_series_bar i bar = do
    outcome ← process_bar setup series.symbol bar true true
    submitted ← submit_at i (if ltb (i + 1) (length series.rows) then series.strategy i else none)
    pure (outcome, submitted)

  -- the loop, with the number of signals and the last bar
  unfoldable pub replay_rows : ℕ → List (Bar F) → ℕ → Option (Bar F) → Action F (ℕ × Option (Bar F))
  replay_rows i [] signals last = pure (signals, last)
  replay_rows i (bar ∷ bars) signals last = do
    (outcome, submitted) ← process_series_bar i bar
    replay_rows (i + 1) bars (counted_if submitted signals) (some bar)

  abbrev pub close_last : Bool → Option (Bar F) → Action F (Unit {0})
  close_last true (some bar) = close_at_end_of_data setup series.symbol bar
  close_last _ _ = pure tt

  abbrev pub summed_up : ℕ → ℕ → ℕ × Option (Bar F) → Action F ReplaySummary
  summed_up start end (signals, last) = do
    close_last (end == length series.rows) last
    pure (record { bars_processed = pos end -ℤ pos start; signals_submitted = signals })

  unfoldable pub replay_historical : ℕ → Option ℕ → Action F ReplaySummary
  replay_historical start end_index =
      let end = end_of end_index (length series.rows) in
      replay_rows start (first_rows (end - start) (rows_from start series.rows)) 0 none
      >>= summed_up start end

  -- `_resume_index`: after the rows up to the bar that was processed last. Only the cursor's zone is
  -- taken off, so that an index with a zone raises TypeError, which is `none`.
  abbrev pub resume_after : Option ℕ → Option ℕ
  resume_after none = some 0
  resume_after (some cursor) =
      if is_some series.tzinfo then none else some (rows_until cursor series.rows)

  unfoldable pub resume_index : Store F → Option ℕ
  resume_index st = resume_after (get_last_bar_timestamp series.symbol st)

  -- `PaperSession(…)`, which raises what `_resume_index` raises
  abbrev pub session_at : Engine F → Option ℕ → Option (PaperSession F)
  session_at e none = none
  session_at e (some index) = some (record {
    engine = e;
    is_started = false;
    bars_processed = 0;
    signals_submitted = 0;
    index = index;
  })

  abbrev pub new_session : Engine F → Option (PaperSession F)
  new_session e = session_at e (resume_index e.store)

  abbrev pub start_session : PaperSession F → PaperSession F
  start_session s = record s { is_started = true }

  abbrev pub stop_session : PaperSession F → PaperSession F
  stop_session s = record s { is_started = false }

  abbrev pub with_engine : PaperSession F → Engine F → PaperSession F
  with_engine s e = record s { engine = e }

  abbrev pub closed_with :
      BarOutcome
      → PaperSession F
      → Result (Unit {0}) × Engine F
      → Result (Option BarOutcome) × PaperSession F
  closed_with outcome s (err x, e) = (err x, with_engine s e)
  closed_with outcome s (ok _, e) = (ok (some outcome), with_engine s e)

  -- after the row: the counts, and the close at the end of the series
  abbrev pub counted :
      PaperSession F
      → Bar F
      → Result (BarOutcome × Bool) × Engine F
      → Result (Option BarOutcome) × PaperSession F
  counted s bar (err x, e) = (err x, with_engine s e)
  counted s bar (ok (outcome, submitted), e) =
      let s1 = record s {
        engine = e;
        bars_processed = s.bars_processed + 1;
        signals_submitted = counted_if submitted s.signals_submitted;
        index = s.index + 1;
      } in
      if s1.index == length series.rows
      then closed_with outcome s1 (close_at_end_of_data setup series.symbol bar e)
      else (ok (some outcome), s1)

  abbrev pub at_row : List (Bar F) → PaperSession F → Result (Option BarOutcome) × PaperSession F
  at_row [] s = (ok none, s)
  at_row (bar ∷ _) s = counted s bar (process_series_bar s.index bar s.engine)

  unfoldable pub process_next_bar : PaperSession F → Result (Option BarOutcome) × PaperSession F
  process_next_bar s =
      if not s.is_started then (err runtime_error, s) else at_row (rows_from s.index series.rows) s

  -- a loop goes on with the next bar, ends where there is none, or raises
  abbrev pub loop_on :
      {A : Type 0}
      → (PaperSession F → A)
      → (Result (Unit {0}) × PaperSession F → A)
      → Result (Option BarOutcome) × PaperSession F
      → A
  loop_on again stop (err x, s) = stop (err x, s)
  loop_on again stop (ok none, s) = stop (ok tt, s)
  loop_on again stop (ok (some _), s) = again s

  -- `while self.process_next_bar() is not None`, nothing when the fuel is used up
  unfoldable pub run_with : ℕ → PaperSession F → Option (Result (Unit {0}) × PaperSession F)
  run_with zero s = none
  run_with (suc fuel) s = loop_on (run_with fuel) some (process_next_bar s)

  unfoldable pub run_to_end : PaperSession F → Option (Result (Unit {0}) × PaperSession F)
  run_to_end s = run_with (suc (length series.rows)) s

  abbrev pub processed_so_far : ℕ → Result (Unit {0}) × PaperSession F → Result ℕ × PaperSession F
  processed_so_far processed (err x, s) = (err x, s)
  processed_so_far processed (ok _, s) = (ok processed, s)

  -- the loop of `process_bars`, after so many bars
  unfoldable pub process_more : ℕ → ℕ → PaperSession F → Result ℕ × PaperSession F
  process_more zero processed s = (ok processed, s)
  process_more (suc count) processed s =
      loop_on (process_more count (processed + 1)) (processed_so_far processed) (process_next_bar s)

  abbrev pub process_bars : ℕ → PaperSession F → Result ℕ × PaperSession F
  process_bars count s = process_more count 0 s
