-- ===== src/Tests/ReplayTests.antt =====
-- paper/replay.py and paper/session.py: a short series, and the theorem there.
use trading_workstation.Prelude.{
  ◌≡◌, refl, arith, none, some, [], ◌∷◌, ◌==◌, if◌then◌else◌, ◌+◌, Whole, whole_double,
}
use trading_workstation.Paper.Store.{get_last_bar_timestamp}
use trading_workstation.Paper.Monad.{Engine}
use trading_workstation.Paper.Advance.Runs.{InOrder}
use trading_workstation.Paper.Replay.{
  Series, PaperSession, new_session, start_session, process_bars, replay_historical, resume_index,
}
use trading_workstation.Paper.Replay.Parity.{IsResumePoint, then_to_end, process_bars-parity}
use trading_workstation.Paper.Replay.Steps.{summarised}
use trading_workstation.Samples.{at, breakout, setup, new_engine, quiet_bar, target_bar}

-- The first row gives a signal, which the second fills and the third closes at its target.
abbrev week : Series Whole
week = record {
  symbol = 7;
  tzinfo = none;
  rows = record quiet_bar { timestamp = at 100_000 } ∷ quiet_bar ∷ target_bar ∷ [];
  strategy = λ i. if i == 0 then some breakout else none;
  version = 1;
  clock = λ i. at (100_000 + i);
}

week-InOrder : InOrder week.rows
week-InOrder = ((omega arith, (omega arith, tt)), ((omega arith, tt), (tt, tt)))

-- An engine that has seen the second row goes on with the third.
abbrev resumed : Engine Whole
resumed = record new_engine {
  store = record new_engine.store {
    cursors = record { symbol = 7; last_bar_timestamp = 100_060 } ∷ [];
  };
}

resumes_after : resume_index setup week resumed.store ≡ some 2
unfolding resume_index get_last_bar_timestamp
resumes_after = refl

-- With a zone in the index, the cursor cannot be compared with it.
clashes : new_session setup (record week { tzinfo = some 1 }) resumed ≡ none
unfolding resume_index get_last_bar_timestamp
clashes = refl

process_bars-parity_example :
    (session : PaperSession Whole) × (new_session setup week resumed ≡ some session)
    × IsResumePoint setup week (get_last_bar_timestamp 7 resumed.store) session.index
    × (summarised
          (then_to_end setup week (process_bars setup week 1 (start_session setup week session)))
        ≡ some (replay_historical setup week session.index none resumed))
process_bars-parity_example = process_bars-parity setup week 1 resumed week-InOrder refl
