-- ===== src/Paper/Positions.antt =====
-- paper/engine.py: the private methods of `PaperTradingEngine` that move a position.
use trading_workstation.Prelude.{
  ℕ, ◌+◌, Bool, true, false, ◌||◌, Option, none, some, Double, num, leb, if◌then◌else◌,
}
use trading_workstation.Signal.{DateTime, Side, Signal, Identity}
use trading_workstation.Risk.{RiskConfig}
use trading_workstation.Risk.Account.{mark_to_market, open_position, close_position}
use trading_workstation.Backtesting.Costs.{CostModel, cost_for_fill, slippage_adjusted_price}
use trading_workstation.Backtesting.Execution.{
  ExitReason, expired, OpenPosition, Bar, check_exit, close_trade,
}
use trading_workstation.Paper.Models.{
  filled, PaperOrder, entry, exit, is_open, is_closed, Position, JournalEntry, approved_filled_open,
  approved_filled_closed, value_error, assertion_error, not_implemented,
}
use trading_workstation.Paper.Store.{
  get_signal, update_order, save_fill, save_position, update_position, save_trade,
  update_journal_entry, find_journal_entry_by_signal_id,
}
use trading_workstation.Paper.Monad.{
  Action, pure, or_raise, gets, ◌>>=◌, ◌>>◌, execute, modify_store, set_account, get_account,
  new_id,
}

-- What the engine is built with. `risk_config_version` is `version_id()` of the risk thresholds.
pub record Setup (F : Type 0) : Type 0 where
  pub risk_config : RiskConfig F
  pub risk_config_version : ℕ
  pub cost_model : CostModel F
  pub max_holding_bars : Option ℕ
  pub execution_model_version : ℕ
  pub digest : Identity F → ℕ

-- `exit_reason == ExitReason.EXPIRED`
abbrev pub is_expired : ExitReason → Bool
is_expired expired = true
is_expired _ = false

module _ {F : Type 0} where
  abbrev pub to_open_position : Position F → Signal F → OpenPosition F
  to_open_position p signal = record {
    signal = signal;
    entry_time = p.entry_time;
    entry_price = p.entry_price;
    quantity = p.quantity;
    stop_price = p.stop_price;
    target_price = p.target_price;
  }

  -- `_to_open_position`
  unfoldable pub load_open_position : Position F → Action F (OpenPosition F)
  load_open_position p = do
    found ← gets (get_signal p.signal_id)
    signal ← or_raise found assertion_error
    pure (to_open_position p signal)

  -- `journal.model_copy(update=…)`, where there is an entry
  unfoldable pub update_journal : ℕ → (JournalEntry → JournalEntry) → Action F (Unit {0})
  update_journal signal_id change = do
    journal ← gets (find_journal_entry_by_signal_id signal_id)
    elim journal [ none ↦ pure tt | some j ↦ modify_store (update_journal_entry (change j)) ]

module _ {F : Type 0} ⦃d : Double F⦄ (setup : Setup F) where
  open d use {sub, mul, abs}

  abbrev pub slippage : F → Side → Bool → Action F F
  slippage price side is_entry =
      or_raise (slippage_adjusted_price setup.cost_model price side is_entry) not_implemented

  unfoldable pub fill_pending_order : PaperOrder F → Bar F → Action F (Position F)
  fill_pending_order order bar = do
    entry_price ← slippage bar.open_price order.side true
    let entry_cost = cost_for_fill setup.cost_model (mul entry_price (num order.quantity))
    fill_id ← new_id
    execute (
        save_fill (record {
          fill_id = fill_id;
          order_id = order.order_id;
          symbol = order.symbol;
          quantity = order.quantity;
          fill_price = entry_price;
          fees = entry_cost;
          slippage_amount = mul (abs (sub entry_price bar.open_price)) (num order.quantity);
          timestamp = bar.timestamp;
          fill_kind = entry;
        }))
    execute (update_order (record order { status = filled }))
    position_id ← new_id
    let position : Position F = record {
      position_id = position_id;
      symbol = order.symbol;
      status = is_open;
      signal_id = order.signal_id;
      entry_order_id = order.order_id;
      entry_fill_id = fill_id;
      entry_time = bar.timestamp;
      entry_price = entry_price;
      quantity = order.quantity;
      stop_price = order.stop_price;
      target_price = order.target_price;
      exit_fill_id = none;
      exit_time = none;
      exit_price = none;
      exit_reason = none;
      trade_id = none;
      bars_held = 0;
    }
    execute (save_position position)
    account ← get_account
    opened ← or_raise (open_position order.quantity entry_price entry_cost account) value_error
    set_account opened
    update_journal order.signal_id (λ j. record j {
      position_id = some position_id;
      outcome = approved_filled_open;
      updated_at = bar.timestamp;
    })
    pure position

  -- `_close_position` once the exit price is known
  unfoldable pub record_exit :
      Position F → OpenPosition F → F → F → DateTime → ExitReason → Action F (Unit {0})
  record_exit position open_position exit_price override exit_time reason = do
    let trade =
        close_trade open_position exit_price exit_time reason position.symbol setup.cost_model
    let exit_cost = cost_for_fill setup.cost_model (mul exit_price (num position.quantity))
    fill_id ← new_id
    execute (
        save_fill (record {
          fill_id = fill_id;
          order_id = position.entry_order_id;
          symbol = position.symbol;
          quantity = position.quantity;
          fill_price = exit_price;
          fees = exit_cost;
          slippage_amount = mul (abs (sub exit_price override)) (num position.quantity);
          timestamp = exit_time;
          fill_kind = exit;
        }))
    trade_id ← new_id
    execute (
        save_trade (record {
          trade_id = trade_id;
          position_id = position.position_id;
          trade = trade;
          execution_model_version = setup.execution_model_version;
        }))
    execute (
        update_position (record position {
          status = is_closed;
          exit_fill_id = some fill_id;
          exit_time = some exit_time;
          exit_price = some exit_price;
          exit_reason = some reason;
          trade_id = some trade_id;
        }))
    account ← get_account
    closed ← or_raise (close_position exit_price exit_cost trade.net_pnl account) value_error
    set_account closed
    update_journal position.signal_id (λ j. record j {
      trade_id = some trade_id;
      outcome = approved_filled_closed;
      updated_at = exit_time;
    })

  -- Slippage applies to a forced exit, and not to one at an agreed level.
  unfoldable pub settle_price : F → Side → ExitReason → Bool → Action F F
  settle_price override side reason is_end_of_data =
      if is_end_of_data || is_expired reason then slippage override side false else pure override

  -- `reason` is the reason that `_close_position` settles on, and `slipped` whether it applies
  -- slippage: at the end of the data and at an expiry.
  unfoldable pub close_open_position :
      Position F → F → DateTime → ExitReason → Bool → Action F (Unit {0})
  close_open_position position override exit_time reason is_end_of_data = do
    open_position ← load_open_position position
    exit_price ← settle_price override open_position.signal.side reason is_end_of_data
    record_exit position open_position exit_price override exit_time reason

  -- the tail of `_process_open_position`, under `max_holding_bars`
  unfoldable pub hold : Option ℕ → Position F → Bar F → Action F (Unit {0})
  hold none position bar = pure tt
  hold (some limit) position bar =
      let bars_held = position.bars_held + 1 in
      if leb limit bars_held
      then close_open_position position bar.close bar.timestamp expired false
      else execute (update_position (record position { bars_held = bars_held }))

  unfoldable pub process_open_position : Position F → Bar F → Action F (Unit {0})
  process_open_position position bar = do
    account ← get_account
    set_account (mark_to_market bar.close account)
    open_position ← load_open_position position
    elim (check_exit open_position bar) [
      | none ↦ hold setup.max_holding_bars position bar
      | some (price, reason) ↦ close_open_position position price bar.timestamp reason false
    ]
