-- ===== src/Tests/PaperTests.antt =====
-- paper/engine.py: the theorems on the way of a signal to its exit.
use trading_workstation.Prelude.{
  ◌≡◌, refl, true, false, none, some, List, [], ◌∷◌, Whole, whole_double,
}
use trading_workstation.Backtesting.Execution.{Bar}
use trading_workstation.Paper.Monad.{ok}
use trading_workstation.Paper.Bars.{
  process_bar, processed, stale_skipped, duplicate_skipped, execution_halted_skipped,
}
use trading_workstation.Paper.Journal.{IsKeyed}
use trading_workstation.Paper.Journal.Calls.{perform_all-IsKeyed}
use trading_workstation.Paper.Links.{IsLinked}
use trading_workstation.Paper.Links.Calls.{perform_all-IsLinked}
use trading_workstation.Paper.Books.{realized}
use trading_workstation.Paper.Books.Bars.{IsReconciled}
use trading_workstation.Paper.Books.Calls.{
  Call, bar, end_of_bars, signal, perform, perform_all, perform_all-IsReconciled,
}
use trading_workstation.Paper.Delivery.{process_bar_twice}
use trading_workstation.Paper.Atomic.{perform_raising}
use trading_workstation.Paper.Halts.{
  time_passed, process_bar_stale, process_bar_halted, process_bar_halt_keeps_exits,
}
use trading_workstation.Paper.Idempotent.Races.{Caller, answers, agreed, submit_signal_raced}
use trading_workstation.Signal.{stable_id}
use trading_workstation.Samples.{
  rupees, at, flat_account, breakout, setup, new_engine, quiet_bar, target_bar,
}
use trading_workstation.Risk.Account.{new_account}
use trading_workstation.Paper.Store.{Store, find_journal_entry_by_signal_id, save_account}
use trading_workstation.Paper.Monad.{initialized}
use trading_workstation.Paper.Books.Sessions.{session-IsReconciled}
use trading_workstation.Tests.PaperRuns.{
  submitted, held, approved_entry, waiting_order, holding, submits, fills, submitted_waits,
  held_holds, crowded, crowded-raises,
}

-- One that had looked the signal up too early, and one that comes later.
abbrev racing : List (Caller Whole)
racing =
    record {
      has_looked = true;
      strategy_version = 2;
      now = at 100_001;
      account = flat_account;
      next_id = 50;
    }
    ∷ record {
      has_looked = false;
      strategy_version = 1;
      now = at 200_000;
      account = flat_account;
      next_id = 60;
    }
    ∷ []

breakout_is_new :
    find_journal_entry_by_signal_id (stable_id setup.digest breakout) new_engine.store ≡ none
unfolding find_journal_entry_by_signal_id
breakout_is_new = refl

submit_signal_raced_example :
    answers setup breakout racing submitted.store ≡ (agreed approved_entry racing, submitted.store)
submit_signal_raced_example =
    submit_signal_raced setup breakout 1 (at 100_000) new_engine approved_entry racing
      breakout_is_new submits

process_bar_twice_example :
    let r = process_bar setup 7 quiet_bar false true held in
    (r.0 ≡ ok duplicate_skipped) × (r.1.store ≡ held.store)
process_bar_twice_example =
    process_bar_twice setup 7 quiet_bar quiet_bar true true false true submitted processed fills.0
      refl

process_bar_stale_example :
    let r = process_bar setup 7 quiet_bar false true submitted in
    (r.0 ≡ ok stale_skipped)
    × (r.1.store ≡ time_passed setup 7 quiet_bar flat_account submitted.store)
process_bar_stale_example =
    process_bar_stale setup 7 quiet_bar true submitted flat_account submitted_waits.0
      submitted_waits.1

process_bar_halted_example :
    let r = process_bar setup 7 quiet_bar true false submitted in
    (r.0 ≡ ok execution_halted_skipped)
    × (r.1.store ≡ time_passed setup 7 quiet_bar flat_account submitted.store)
process_bar_halted_example =
    process_bar_halted setup 7 quiet_bar submitted flat_account waiting_order submitted_waits.0
      submitted_waits.1 submitted_waits.2 submitted_waits.3

process_bar_halt_keeps_exits_example :
    process_bar setup 7 target_bar true true held ≡ process_bar setup 7 target_bar true false held
process_bar_halt_keeps_exits_example =
    process_bar_halt_keeps_exits setup 7 target_bar true held holding held_holds.2

abbrev old_bar : Bar Whole
old_bar = record quiet_bar { timestamp = at 100_000 }

perform_raising_example : (perform setup (bar 7 quiet_bar true true) crowded).store ≡ crowded.store
perform_raising_example = perform_raising setup (bar 7 quiet_bar true true) crowded crowded-raises

abbrev calls : List (Call Whole)
calls =
    signal breakout 1 (at 100_000)
    ∷ bar 7 quiet_bar true true
    ∷ bar 7 old_bar true true
    ∷ bar 7 target_bar true false
    ∷ end_of_bars 7 target_bar
    ∷ []

new_engine-IsReconciled : IsReconciled new_engine.store
unfolding realized
new_engine-IsReconciled =
    (flat_account, refl, record { pnl = refl; trades = refl; positions = refl })

perform_all-IsReconciled_example : IsReconciled (perform_all setup calls new_engine).store
perform_all-IsReconciled_example =
    perform_all-IsReconciled setup calls new_engine new_engine-IsReconciled

abbrev new_store : Store Whole
new_store = record new_engine.store { account = none }

starts : initialized (rupees 100_000) 1 new_store ≡ some new_engine
unfolding initialized new_account save_account
starts = refl

session-IsReconciled_example : IsReconciled (perform_all setup calls new_engine).store
session-IsReconciled_example =
    session-IsReconciled setup (rupees 100_000) 1 new_store new_engine calls
      (record { no_account = refl; no_trades = refl; no_positions = refl }) starts

perform_all-IsKeyed_example : IsKeyed (perform_all setup calls new_engine).store.journal
perform_all-IsKeyed_example =
    perform_all-IsKeyed setup calls new_engine (record { entries = tt; signals = tt })

perform_all-IsLinked_example : IsLinked (perform_all setup calls new_engine).store
perform_all-IsLinked_example =
    perform_all-IsLinked setup calls new_engine (record { decisions = tt; fills = tt; trades = tt })
