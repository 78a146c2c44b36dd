-- ===== src/Tests/AdvanceTests.antt =====
-- paper/advance.py: an order that waited through a pause, and the theorems there.
use trading_workstation.Prelude.{
  ℕ, ◌≡◌, refl, true, Option, none, some, List, [], ◌∷◌, All, any, ◌||◌, ◌==◌, if◌then◌else◌, Whole,
  whole_double,
}
use trading_workstation.Risk.Account.{daily_pnl, equity, current_drawdown_pct}
use trading_workstation.Risk.Engine.{account_level_halt_reasons, daily_loss_breached}
use trading_workstation.Backtesting.Execution.{Bar}
use trading_workstation.Paper.Store.{
  pending_for, open_for, get_open_position, get_pending_order, get_last_bar_timestamp, get_signal,
}
use trading_workstation.Paper.Monad.{Engine}
use trading_workstation.Paper.Advance.{
  skipped, switch_active, due_symbols, held_back, baseline_timestamp_for, advance_symbol,
  advance_each, advance_pending_paper_orders,
}
use trading_workstation.Paper.Advance.Held.{
  IsSkipped, is_halted, advance_pending_paper_orders_halted,
}
use trading_workstation.Paper.Advance.Reports.{
  Ascending, is_among, symbols_of, advance_pending_paper_orders-symbols,
}
use trading_workstation.Paper.Advance.Runs.{Runs, advance_pending_paper_orders-Runs}
use trading_workstation.Live.StateStore.{LiveStateStore, empty_store, is_kill_switch_active}
use trading_workstation.Samples.{at, breakout, setup, new_engine, quiet_bar, target_bar}
use trading_workstation.Tests.PaperRuns.{waiting_order}

-- The signal was approved, and its order waits.
abbrev waiting : Engine Whole
waiting = record new_engine {
  store = record new_engine.store {
    signals = record { signal_id = 7_100_000; signal = breakout; strategy_version = 1 } ∷ [];
    orders = waiting_order ∷ [];
  };
}

-- The provider knows the symbol 7 alone, and gives its bars out of order.
abbrev missed : ℕ → Option (List (Bar Whole))
missed symbol = if symbol == 7 then some (target_bar ∷ quiet_bar ∷ []) else none

abbrev switched : LiveStateStore Whole
switched = record empty_store {
  kill_switch = some (record { active = true; activated_at = some (at 100_030); reason = some 1 });
}

switched-halts : is_halted setup missed (some switched) waiting ≡ true
unfolding account_level_halt_reasons daily_loss_breached daily_pnl equity current_drawdown_pct
    is_kill_switch_active
switched-halts = refl

advance_pending_paper_orders_halted_example :
    let (rs, s1) = advance_pending_paper_orders setup missed (some switched) waiting in
    All IsSkipped rs × (s1 ≡ waiting)
advance_pending_paper_orders_halted_example =
    advance_pending_paper_orders_halted setup missed (some switched) waiting refl switched-halts

switched_reports :
    (advance_pending_paper_orders setup missed (some switched) waiting).0
    ≡ skipped 7 switch_active ∷ []
unfolding account_level_halt_reasons daily_loss_breached daily_pnl equity current_drawdown_pct
    is_kill_switch_active advance_pending_paper_orders advance_each advance_symbol held_back
    baseline_timestamp_for get_open_position get_pending_order get_last_bar_timestamp get_signal
switched_reports = refl

advance_pending_paper_orders-symbols_example :
    let reported = symbols_of (advance_pending_paper_orders setup missed none waiting).0 in
    Ascending reported
    × ((z : ℕ)
        → is_among z reported
          ≡ (any (pending_for z) waiting.store.orders || any (open_for z) waiting.store.positions))
advance_pending_paper_orders-symbols_example =
    advance_pending_paper_orders-symbols setup missed none waiting

advance_pending_paper_orders-Runs_example :
    let (rs, s1) = advance_pending_paper_orders setup missed none waiting in
    Runs setup missed none (due_symbols waiting.store) rs waiting s1
advance_pending_paper_orders-Runs_example =
    advance_pending_paper_orders-Runs setup missed none waiting
