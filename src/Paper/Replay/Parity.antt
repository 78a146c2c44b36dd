-- ===== src/Paper/Replay/Parity.antt =====
-- paper/session.py: a session that is driven bar by bar does what the replay does.
use trading_workstation.Prelude.{
  ℕ, zero, suc, ◌+◌, ◌-◌, ◌≤◌, ◌≡◌, refl, sym, ap, ◌∙◌, Bool, true, false, Option, none, some, List,
  [], ◌∷◌, Double, ◌==◌, if_holds, All, is_some, ◌&&◌, ◌<◌, if◌then◌else◌, arith, length,
}
use trading_workstation.Signal.{to_naive}
use trading_workstation.Paper.Advance.Runs.{InOrder}
use trading_workstation.Backtesting.Execution.{Bar}
use trading_workstation.Paper.Store.{get_last_bar_timestamp}
use trading_workstation.Paper.Monad.{Engine, Result, ok, err, pure, ◌>>=◌, ◌>>◌}
use trading_workstation.Paper.Positions.{Setup}
use trading_workstation.Paper.Bars.{BarOutcome, close_at_end_of_data}
use trading_workstation.Paper.Replay.Rows.{
  difference, rows_from-length, first_rows-all, rows_until-le, until_earlier, until_later,
}
use trading_workstation.Paper.Replay.{
  ReplaySummary, rows_from, first_rows, rows_until, session_at, counted_if, Series, PaperSession,
  replay_rows, close_last, replay_historical, closed_with, counted, process_next_bar, loop_on,
  new_session, start_session, resume_index, resume_after, run_with, run_to_end, process_more,
  process_bars, processed_so_far,
}
use trading_workstation.Paper.Replay.Steps.{
  summarised, Again, rest_of, IsAt, Ends, GoesOn, advanced_to, process_next_bar-at, next_bar-parity,
}

module _ {F : Type 0} ⦃d : Double F⦄ (setup : Setup F) (series : Series F) where
  run_with-Ends : (start fuel : ℕ) → Ends setup series start (run_with setup series (suc fuel))
  unfolding run_with
  run_with-Ends start fuel s at = rw (process_next_bar-at setup series start s [] at) refl

  run_with-GoesOn :
      (start fuel : ℕ) (bs : List (Bar F))
      → length bs ≤ fuel
      → GoesOn setup series start bs (run_with setup series (suc fuel))
  unfolding run_with
  run_with-GoesOn start fuel [] h = tt
  run_with-GoesOn start zero (b ∷ bs) h =
      λ s last at. let none : ⊥ = omega (arith, h) in elim none [ ]
  run_with-GoesOn start (suc fuel) (b ∷ bs) h =
      next_bar-parity setup series (run_with setup series (suc fuel)) start b bs
        (run_with-Ends start fuel) (run_with-GoesOn start fuel bs (omega (arith, h)))

  -- what follows `process_bars`: the rest of the series
  abbrev pub then_to_end : Result ℕ × PaperSession F → Option (Result (Unit {0}) × PaperSession F)
  then_to_end (err x, s) = some (err x, s)
  then_to_end (ok _, s) = run_to_end setup series s

  abbrev driven : ℕ → ℕ → Again setup series
  driven count processed s = then_to_end (process_more setup series count processed s)

  driven-Ends : (start count processed : ℕ) → Ends setup series start (driven count processed)
  unfolding process_more run_to_end
  driven-Ends start zero processed s at = run_with-Ends start (length series.rows) s at
  driven-Ends start (suc count) processed s at =
      rw (process_next_bar-at setup series start s [] at)
        (run_with-Ends start (length series.rows) s at)

  is_bar : Result (Option BarOutcome) × PaperSession F → Bool
  is_bar (ok none, s) = false
  is_bar _ = true

  closed_with-is_bar :
      (outcome : BarOutcome) (s : PaperSession F) (r : Result (Unit {0}) × Engine F)
      → is_bar (closed_with setup series outcome s r) ≡ true
  unfolding is_bar
  closed_with-is_bar outcome s (err x, e) = refl
  closed_with-is_bar outcome s (ok u, e) = refl

  counted-is_bar :
      (s : PaperSession F) (b : Bar F) (r : Result (BarOutcome × Bool) × Engine F)
      → is_bar (counted setup series s b r) ≡ true
  unfolding is_bar advanced_to
  counted-is_bar s b (err x, e) = refl
  counted-is_bar s b (ok (outcome, submitted), e) =
      if_holds (λ r. is_bar r ≡ true) (s.index + 1 == length series.rows) _ _
        (closed_with-is_bar outcome
          (advanced_to setup series s e (counted_if submitted s.signals_submitted))
          (close_at_end_of_data setup series.symbol b e))
        refl

  driven-step :
      (count processed : ℕ) (q : Result (Option BarOutcome) × PaperSession F)
      → is_bar q ≡ true
      → then_to_end (
          loop_on setup series
            (process_more setup series count (processed + 1))
            (processed_so_far setup series processed)
            q)
        ≡ loop_on setup series (driven count (processed + 1)) some q
  unfolding is_bar
  driven-step count processed (err x, s) h = refl
  driven-step count processed (ok none, s) h = cc
  driven-step count processed (ok (some o), s) h = refl

  driven-GoesOn :
      (start count processed : ℕ) (bs : List (Bar F))
      → length bs ≤ length series.rows
      → GoesOn setup series start bs (driven count processed)
  unfolding process_more run_to_end
  driven-GoesOn start count processed [] h = tt
  driven-GoesOn start zero processed (b ∷ bs) h =
      run_with-GoesOn start (length series.rows) (b ∷ bs) h
  driven-GoesOn start (suc count) processed (b ∷ bs) h = λ s last at.
      ap summarised (
        driven-step count processed (process_next_bar setup series s)
          (ap is_bar (process_next_bar-at setup series start s (b ∷ bs) at) ∙ counted-is_bar s b _))
      ∙ next_bar-parity setup series (driven count (processed + 1)) start b bs
          (driven-Ends start count (processed + 1))
          (driven-GoesOn start count (processed + 1) bs (omega (arith, h))) s last at

  close_last-none :
      (at_end : Bool) (r : ReplaySummary) (e : Engine F)
      → (close_last setup series at_end none >> pure r) e ≡ (ok r, e)
  unfolding ◌>>=◌ pure
  close_last-none true r e = refl
  close_last-none false r e = refl

  driven-parity :
      (count : ℕ) (bs : List (Bar F)) (s : PaperSession F)
      → IsAt setup series s.index bs s
      → s.bars_processed ≡ 0
      → s.signals_submitted ≡ 0
      → summarised (driven count 0 s)
        ≡ some (rest_of setup series s.index s.index bs s.signals_submitted none s.engine)
  unfolding replay_rows ◌>>=◌ pure
  driven-parity count [] s at no_bars no_signals =
      let n = length series.rows in
      driven-Ends s.index count 0 s at
      ∙ ap
          (λ k.
            some (
              ok (record { bars_processed = k; signals_submitted = s.signals_submitted }),
              s.engine,
            ))
          (sym (difference s.index s.bars_processed n (omega (arith, at.counts, at.in_range))))
      ∙ ap some (sym (close_last-none (n == n) _ s.engine))
  driven-parity count (b ∷ bs) s at no_bars no_signals =
      driven-GoesOn s.index count 0 (b ∷ bs) (omega (arith, at.in_range)) s none at

  -- Where a session starts: at the first row, if no bar of the symbol has been processed, and else
  -- after the rows up to the last such bar, and before all later ones.
  abbrev pub IsResumePoint : Option ℕ → ℕ → Type 0
  IsResumePoint none i = i ≡ 0
  IsResumePoint (some cursor) i =
      All (λ b. to_naive b.timestamp ≤ cursor) (first_rows i series.rows)
      × All (λ b. cursor < to_naive b.timestamp) (rows_from i series.rows)

  resume_after_lem :
      (o : Option ℕ)
      → InOrder series.rows
      → (is_some series.tzinfo && is_some o) ≡ false
      → (i : ℕ) × (resume_after setup series o ≡ some i)
        × IsResumePoint o i
        × (i ≤ length series.rows)
  resume_after_lem none order h = (0, refl, refl, omega arith)
  resume_after_lem (some cursor) order h =
      let naive : is_some series.tzinfo ≡ false = ground arith in
      (
        rows_until cursor series.rows,
        ap (λ b. if b then none else some (rows_until cursor series.rows)) naive,
        (until_earlier cursor series.rows, until_later cursor series.rows order),
        rows_until-le cursor series.rows,
      )

  abbrev session_from : Engine F → ℕ → PaperSession F
  session_from e i = record {
    engine = e;
    is_started = false;
    bars_processed = 0;
    signals_submitted = 0;
    index = i;
  }

  from_there :
      (count i : ℕ) (e : Engine F)
      → i ≤ length series.rows
      → summarised (
          then_to_end
            (process_bars setup series count (start_session setup series (session_from e i))))
        ≡ some (replay_historical setup series i none e)
  unfolding replay_historical
  from_there count i e h =
      let n = length series.rows in
      let reached = rows_from-length i series.rows h in
      driven-parity count (rows_from i series.rows) (start_session setup series (session_from e i))
        (record { started = refl; rows = refl; in_range = reached; counts = omega arith }) refl refl
      ∙ ap (λ bs. some (rest_of setup series i i bs 0 none e))
          (sym (first_rows-all (n - i) (rows_from i series.rows) (omega (arith, reached))))

  -- A session is made on an engine wherever not both the index has a zone and a bar of the symbol was
  -- processed before. Over rows in the order of their times, it starts after the last bar that was
  -- processed, and misses none that is later. Asked for any number of bars and then for the rest, it
  -- ends with the engine, the error, if any, and the numbers of bars and signals of the replay of the
  -- series from there on. In particular its loop ends.
  pub process_bars-parity :
      (count : ℕ) (e : Engine F)
      → InOrder series.rows
      → (is_some series.tzinfo && is_some (get_last_bar_timestamp series.symbol e.store)) ≡ false
      → (session : PaperSession F) × (new_session setup series e ≡ some session)
        × IsResumePoint (get_last_bar_timestamp series.symbol e.store) session.index
        × (summarised
              (then_to_end (process_bars setup series count (start_session setup series session)))
            ≡ some (replay_historical setup series session.index none e))
  unfolding resume_index
  process_bars-parity count e order naive =
      let (i, found, point, h) =
        resume_after_lem (get_last_bar_timestamp series.symbol e.store) order naive in
      (session_from e i, ap (session_at setup series e) found, point, from_there count i e h)
