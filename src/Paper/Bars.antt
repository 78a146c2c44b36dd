-- ===== src/Paper/Bars.antt =====
-- paper/engine.py: `process_bar` and `close_at_end_of_data`.
use trading_workstation.Prelude.{
  ℕ, Bool, true, false, Option, none, some, Double, ltb, ◌==◌, if◌then◌else◌,
}
use trading_workstation.Signal.{date, to_naive}
use trading_workstation.Risk.Account.{roll_to_day}
use trading_workstation.Backtesting.Execution.{end_of_data, Bar}
use trading_workstation.Paper.Models.{PaperOrder, Position, out_of_order_bar}
use trading_workstation.Paper.Store.{
  get_pending_order, get_open_position, save_account, get_last_bar_timestamp,
  set_last_bar_timestamp,
}
use trading_workstation.Paper.Monad.{
  Action, pure, raise, gets, transaction, ◌>>=◌, ◌>>◌, modify_store, set_account, get_account,
  refresh_account,
}
use trading_workstation.Paper.Positions.{
  Setup, fill_pending_order, close_open_position, process_open_position,
}

pub data BarOutcome : Type 0 where
  processed duplicate_skipped stale_skipped execution_halted_skipped : BarOutcome

-- How a bar's time stands to the last one processed for its symbol.
pub data BarOrder : Type 0 where
  new_bar duplicate_bar older_bar : BarOrder

abbrev pub bar_order : Option ℕ → ℕ → BarOrder
bar_order none ts = new_bar
bar_order (some last) ts =
    if ts == last then duplicate_bar else if ltb ts last then older_bar else new_bar

module _ {F : Type 0} ⦃d : Double F⦄ (setup : Setup F) where
  -- A pending order, without an open position: whether its fill was halted.
  abbrev pub try_fill : Option (PaperOrder F) → Bar F → Bool → Action F Bool
  try_fill none bar allow_new_fill = pure false
  try_fill (some order) bar allow_new_fill =
      if allow_new_fill
      then (do
        position ← fill_pending_order setup order bar
        process_open_position setup position bar
        pure false)
      else pure true

  abbrev pub manage : Option (Position F) → ℕ → Bar F → Bool → Action F Bool
  manage (some position) symbol bar allow_new_fill = do
    process_open_position setup position bar
    pure false
  manage none symbol bar allow_new_fill = do
    order ← gets (get_pending_order symbol)
    try_fill order bar allow_new_fill

  -- the block under `if is_fresh`
  unfoldable pub trade_bar : ℕ → Bar F → Bool → Bool → Action F Bool
  trade_bar symbol bar is_fresh allow_new_fill =
      if is_fresh
      then (do
        position ← gets (get_open_position symbol)
        manage position symbol bar allow_new_fill)
      else pure false

  abbrev pub outcome_of : Bool → Bool → BarOutcome
  outcome_of is_fresh fill_was_halted =
      if is_fresh
      then (if fill_was_halted then execution_halted_skipped else processed)
      else stale_skipped

  -- what is written after every new bar, and the outcome
  unfoldable pub persist : ℕ → Bar F → Bool → Bool → Action F BarOutcome
  persist symbol bar is_fresh fill_was_halted = do
    account ← get_account
    modify_store (save_account account)
    modify_store (set_last_bar_timestamp symbol (to_naive bar.timestamp))
    pure (outcome_of is_fresh fill_was_halted)

  -- `process_bar` once the bar is known to be new
  unfoldable pub advance_bar : ℕ → Bar F → Bool → Bool → Action F BarOutcome
  unfolding persist
  advance_bar symbol bar is_fresh allow_new_fill = do
    account ← get_account
    set_account (roll_to_day (date bar.timestamp) account)
    fill_was_halted ← trade_bar symbol bar is_fresh allow_new_fill
    persist symbol bar is_fresh fill_was_halted

  abbrev pub handle : BarOrder → ℕ → Bar F → Bool → Bool → Action F BarOutcome
  handle duplicate_bar symbol bar is_fresh allow_new_fill = pure duplicate_skipped
  handle older_bar symbol bar is_fresh allow_new_fill = raise out_of_order_bar
  handle new_bar symbol bar is_fresh allow_new_fill = advance_bar symbol bar is_fresh allow_new_fill

  -- the body of the transaction of `process_bar`
  unfoldable pub bar_step : ℕ → Bar F → Bool → Bool → Action F BarOutcome
  bar_step symbol bar is_fresh allow_new_fill = do
    refresh_account
    last ← gets (get_last_bar_timestamp symbol)
    handle (bar_order last (to_naive bar.timestamp)) symbol bar is_fresh allow_new_fill

  unfoldable pub process_bar : ℕ → Bar F → Bool → Bool → Action F BarOutcome
  unfolding bar_step
  process_bar symbol bar is_fresh allow_new_fill =
      transaction (bar_step symbol bar is_fresh allow_new_fill)

  unfoldable pub close_at_end_of_data : ℕ → Bar F → Action F (Unit {0})
  close_at_end_of_data symbol bar = transaction (do
    refresh_account
    position ← gets (get_open_position symbol)
    elim position [
      | none ↦ pure tt
      | some p ↦ (do
        close_open_position setup p bar.close bar.timestamp end_of_data true
        account ← get_account
        modify_store (save_account account))
    ])
