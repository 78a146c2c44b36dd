-- ===== src/Tests/PaperRuns.antt =====
-- paper/engine.py: a signal from its submission to its exit.
use trading_workstation.Prelude.{◌≡◌, refl, true, false, none, some, Whole, whole_double, length}
use trading_workstation.Signal.{stable_id, long, to_naive}
use trading_workstation.Risk.Account.{
  Account, equity, daily_pnl, current_drawdown_pct, update_peak, opened, closed, open_position,
  close_position, roll_to_day, mark_to_market, marked,
}
use trading_workstation.Risk.Engine.{
  evaluate, decide, sized, sizing, sizing_for, risk_quantity, risk_budget, in_loss_recovery,
  affordable, structurally_valid, all_finite, gate_reasons, structural_reasons,
  account_level_halt_reasons, daily_loss_breached, exposure_of, explain,
}
use trading_workstation.Paper.Positions.{
  fill_pending_order, process_open_position, load_open_position, update_journal,
  close_open_position, settle_price, record_exit, hold,
}
use trading_workstation.Backtesting.Costs.{cost_for_fill, slippage_adjusted_price}
use trading_workstation.Backtesting.Execution.{check_exit, close_trade}
use trading_workstation.Paper.Models.{
  PaperOrder, Position, JournalEntry, approved_pending, pending, is_open,
}
use trading_workstation.Paper.Store.{
  save_signal, save_risk_decision, save_order, update_order, save_fill, save_position,
  update_position, save_trade, save_journal_entry, update_journal_entry, save_account, get_signal,
  get_pending_order, get_open_position, find_journal_entry_by_signal_id, get_last_bar_timestamp,
  set_last_bar_timestamp,
}
use trading_workstation.Paper.Monad.{
  Engine, ok, transaction, refresh_account, gets, or_raise, set_account, get_account, new_id,
  execute, modify_store, pure, raise, ◌>>=◌,
}
use trading_workstation.Paper.Submit.{submit_signal, submit_signal_transaction, settle}
use trading_workstation.Paper.Bars.{
  process_bar, bar_step, advance_bar, trade_bar, persist, bar_order, new_bar, processed,
}
use trading_workstation.Paper.Books.Calls.{bar}
use trading_workstation.Paper.Atomic.{raises}
use trading_workstation.Samples.{
  rupees, at, flat_account, breakout, setup, new_engine, quiet_bar, target_bar,
}

abbrev pub submitted : Engine Whole
submitted = (submit_signal setup breakout 1 (at 100_000) new_engine).1

abbrev pub held : Engine Whole
held = (process_bar setup 7 quiet_bar true true submitted).1

-- The entry of the signal once it is approved.
abbrev pub approved_entry : JournalEntry
approved_entry = record {
  journal_entry_id = 2;
  signal_id = 7_100_000;
  symbol = 7;
  risk_decision_id = 1;
  order_id = some 3;
  position_id = none;
  trade_id = none;
  outcome = approved_pending;
  strategy_name = 1;
  strategy_version = 1;
  risk_config_version = 1;
  execution_model_version = 1;
  created_at = at 100_000;
  updated_at = at 100_000;
  decision_id = none;
}

abbrev pub waiting_order : PaperOrder Whole
waiting_order = record {
  order_id = 3;
  signal_id = 7_100_000;
  symbol = 7;
  side = long;
  quantity = 200;
  requested_price = rupees 100;
  status = pending;
  created_at = at 100_000;
  stop_price = rupees 95;
  target_price = rupees 110;
}

-- the position once the order is filled, with its first bar counted
abbrev pub holding : Position Whole
holding = record {
  position_id = 5;
  symbol = 7;
  status = is_open;
  signal_id = 7_100_000;
  entry_order_id = 3;
  entry_fill_id = 4;
  entry_time = at 100_060;
  entry_price = rupees 102;
  quantity = 200;
  stop_price = rupees 95;
  target_price = rupees 110;
  exit_fill_id = none;
  exit_time = none;
  exit_price = none;
  exit_reason = none;
  trade_id = none;
  bars_held = 1;
}

pub submits : (submit_signal setup breakout 1 (at 100_000) new_engine).0 ≡ ok approved_entry
unfolding submit_signal submit_signal_transaction settle stable_id transaction refresh_account gets
    or_raise set_account get_account new_id execute modify_store pure raise ◌>>=◌ evaluate decide
    sized sizing risk_quantity risk_budget equity in_loss_recovery sizing_for affordable
    structurally_valid all_finite gate_reasons structural_reasons account_level_halt_reasons
    daily_loss_breached daily_pnl current_drawdown_pct exposure_of explain save_signal
    save_risk_decision save_order save_journal_entry get_pending_order get_open_position
    find_journal_entry_by_signal_id
submits = refl

-- The account with the position, marked at the close of 103.
abbrev pub invested : Account Whole
invested = record flat_account {
  cash = rupees 79_580;
  open_position_quantity = 200;
  open_position_entry_price = rupees 102;
  open_position_cost_basis = rupees 20_400;
  unrealized_pnl = rupees 200;
  peak_equity = rupees 100_180;
  current_day = some 1;
}

pub fills :
    ((process_bar setup 7 quiet_bar true true submitted).0 ≡ ok processed)
    × ((process_bar setup 7 quiet_bar true true submitted).1.store.account ≡ some invested)
unfolding submit_signal submit_signal_transaction settle stable_id transaction refresh_account gets
    or_raise set_account get_account new_id execute modify_store pure raise ◌>>=◌ evaluate decide
    sized sizing risk_quantity risk_budget equity in_loss_recovery sizing_for affordable
    structurally_valid all_finite gate_reasons structural_reasons account_level_halt_reasons
    daily_loss_breached daily_pnl current_drawdown_pct exposure_of explain save_signal
    save_risk_decision save_order save_journal_entry get_pending_order get_open_position
    find_journal_entry_by_signal_id process_bar bar_step advance_bar trade_bar persist
    fill_pending_order process_open_position load_open_position update_journal close_open_position
    settle_price record_exit hold update_order save_fill save_position update_position save_trade
    update_journal_entry save_account get_signal get_last_bar_timestamp set_last_bar_timestamp
    update_peak opened closed open_position close_position roll_to_day mark_to_market marked
    cost_for_fill slippage_adjusted_price check_exit close_trade
fills = (refl, refl)

-- At the target the position is sold: 200 at 110, less the 20 of each fill.
sells :
    ((process_bar setup 7 target_bar true false held).0 ≡ ok processed)
    × ((process_bar setup 7 target_bar true false held).1.account.realized_pnl ≡ rupees 1560)
    × ((process_bar setup 7 target_bar true false held).1.account.cash ≡ rupees 101_560)
    × (length (process_bar setup 7 target_bar true false held).1.store.trades ≡ 1)
unfolding submit_signal submit_signal_transaction settle stable_id transaction refresh_account gets
    or_raise set_account get_account new_id execute modify_store pure raise ◌>>=◌ evaluate decide
    sized sizing risk_quantity risk_budget equity in_loss_recovery sizing_for affordable
    structurally_valid all_finite gate_reasons structural_reasons account_level_halt_reasons
    daily_loss_breached daily_pnl current_drawdown_pct exposure_of explain save_signal
    save_risk_decision save_order save_journal_entry get_pending_order get_open_position
    find_journal_entry_by_signal_id process_bar bar_step advance_bar trade_bar persist
    fill_pending_order process_open_position load_open_position update_journal close_open_position
    settle_price record_exit hold update_order save_fill save_position update_position save_trade
    update_journal_entry save_account get_signal get_last_bar_timestamp set_last_bar_timestamp
    update_peak opened closed open_position close_position roll_to_day mark_to_market marked
    cost_for_fill slippage_adjusted_price check_exit close_trade
sells = (refl, refl, refl, refl)

pub submitted_waits :
    (submitted.store.account ≡ some flat_account)
    × (bar_order (get_last_bar_timestamp 7 submitted.store) (to_naive quiet_bar.timestamp)
        ≡ new_bar)
    × (get_open_position 7 submitted.store ≡ none)
    × (get_pending_order 7 submitted.store ≡ some waiting_order)
unfolding submit_signal submit_signal_transaction settle stable_id transaction refresh_account gets
    or_raise set_account get_account new_id execute modify_store pure raise ◌>>=◌ evaluate decide
    sized sizing risk_quantity risk_budget equity in_loss_recovery sizing_for affordable
    structurally_valid all_finite gate_reasons structural_reasons account_level_halt_reasons
    daily_loss_breached daily_pnl current_drawdown_pct exposure_of explain save_signal
    save_risk_decision save_order save_journal_entry get_pending_order get_open_position
    find_journal_entry_by_signal_id process_bar bar_step advance_bar trade_bar persist
    fill_pending_order process_open_position load_open_position update_journal close_open_position
    settle_price record_exit hold update_order save_fill save_position update_position save_trade
    update_journal_entry save_account get_signal get_last_bar_timestamp set_last_bar_timestamp
    update_peak opened closed open_position close_position roll_to_day mark_to_market marked
    cost_for_fill slippage_adjusted_price check_exit close_trade
submitted_waits = (refl, refl, refl, refl)

pub held_holds :
    (held.store.account ≡ some invested)
    × (get_last_bar_timestamp 7 held.store ≡ some 100_060)
    × (get_open_position 7 held.store ≡ some holding)
unfolding submit_signal submit_signal_transaction settle stable_id transaction refresh_account gets
    or_raise set_account get_account new_id execute modify_store pure raise ◌>>=◌ evaluate decide
    sized sizing risk_quantity risk_budget equity in_loss_recovery sizing_for affordable
    structurally_valid all_finite gate_reasons structural_reasons account_level_halt_reasons
    daily_loss_breached daily_pnl current_drawdown_pct exposure_of explain save_signal
    save_risk_decision save_order save_journal_entry get_pending_order get_open_position
    find_journal_entry_by_signal_id process_bar bar_step advance_bar trade_bar persist
    fill_pending_order process_open_position load_open_position update_journal close_open_position
    settle_price record_exit hold update_order save_fill save_position update_position save_trade
    update_journal_entry save_account get_signal get_last_bar_timestamp set_last_bar_timestamp
    update_peak opened closed open_position close_position roll_to_day mark_to_market marked
    cost_for_fill slippage_adjusted_price check_exit close_trade
held_holds = (refl, refl, refl)

-- The order waits, but the account already holds a position, so that the fill raises once its order
-- and its position are written.
abbrev pub crowded : Engine Whole
crowded = record submitted { store = record submitted.store { account = some invested } }

pub crowded-raises : raises setup (bar 7 quiet_bar true true) crowded ≡ true
unfolding raises submit_signal submit_signal_transaction settle stable_id transaction
    refresh_account gets or_raise set_account get_account new_id execute modify_store pure raise
    ◌>>=◌ evaluate decide sized sizing risk_quantity risk_budget equity in_loss_recovery sizing_for
    affordable structurally_valid all_finite gate_reasons structural_reasons
    account_level_halt_reasons daily_loss_breached daily_pnl current_drawdown_pct exposure_of
    explain save_signal save_risk_decision save_order save_journal_entry get_pending_order
    get_open_position find_journal_entry_by_signal_id process_bar bar_step advance_bar trade_bar
    persist fill_pending_order process_open_position load_open_position update_journal
    close_open_position settle_price record_exit hold update_order save_fill save_position
    update_position save_trade update_journal_entry save_account get_signal get_last_bar_timestamp
    set_last_bar_timestamp update_peak opened closed open_position close_position roll_to_day
    mark_to_market marked cost_for_fill slippage_adjusted_price check_exit close_trade
crowded-raises = refl
