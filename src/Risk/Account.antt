-- ===== src/Risk/Account.antt =====
-- risk/account.py: the account of one position at a time. `none` is a ValueError.
pub mod Peak
use trading_workstation.Prelude.{
  ℕ, ◌+◌, Bool, false, Option, none, some, Double, num, fmax, ltb, ◌==◌, if◌then◌else◌,
}

pub record Account (F : Type 0) : Type 0 where
  pub initial_capital : F
  pub cash : F
  pub realized_pnl : F
  pub open_position_quantity : ℕ
  pub open_position_entry_price : F
  pub open_position_cost_basis : F
  pub unrealized_pnl : F
  pub peak_equity : F
  pub daily_start_equity : F
  pub current_day : Option ℕ
  pub consecutive_losses : ℕ
  pub total_trades : ℕ

-- `current_day == day`
abbrev pub is_day : Option ℕ → ℕ → Bool
is_day none day = false
is_day (some c) day = c == day

module _ {F : Type 0} ⦃d : Double F⦄ where
  open d use {add, sub, mul, div, lt, le}

  abbrev pub open_positions : Account F → ℕ
  open_positions a = if ltb 0 a.open_position_quantity then 1 else 0

  abbrev pub open_position_notional : Account F → F
  open_position_notional a = add a.open_position_cost_basis a.unrealized_pnl

  unfoldable pub equity : Account F → F
  equity a = add a.cash (open_position_notional a)

  unfoldable pub current_drawdown_pct : Account F → F
  current_drawdown_pct a =
      if le a.peak_equity (num 0)
      then num 0
      else fmax (num 0) (mul (div (sub a.peak_equity (equity a)) a.peak_equity) (num 100))

  unfoldable pub daily_pnl : Account F → F
  daily_pnl a = sub (equity a) a.daily_start_equity

  unfoldable pub roll_to_day : ℕ → Account F → Account F
  roll_to_day day a =
      if is_day a.current_day day
      then a
      else record a { current_day = some day; daily_start_equity = equity a }

  unfoldable pub update_peak : Account F → Account F
  update_peak a = record a { peak_equity = fmax a.peak_equity (equity a) }

  -- `mark_to_market` before it updates the peak
  unfoldable pub marked : F → Account F → Account F
  marked price a =
      if ltb 0 a.open_position_quantity
      then record a {
        unrealized_pnl = mul (sub price a.open_position_entry_price) (num a.open_position_quantity);
      }
      else a

  unfoldable pub mark_to_market : F → Account F → Account F
  mark_to_market price a = update_peak (marked price a)

  -- the assignments of `open_position`
  unfoldable pub opened : ℕ → F → F → Account F → Account F
  opened quantity entry_price entry_cost a =
      let notional = mul (num quantity) entry_price in
      record a {
        cash = sub a.cash (add notional entry_cost);
        open_position_quantity = quantity;
        open_position_entry_price = entry_price;
        open_position_cost_basis = notional;
        unrealized_pnl = num 0;
      }

  unfoldable pub open_position : ℕ → F → F → Account F → Option (Account F)
  open_position quantity entry_price entry_cost a =
      if quantity == 0
      then none
      else if ltb 0 a.open_position_quantity
      then none
      else some (update_peak (opened quantity entry_price entry_cost a))

  -- the assignments of `close_position`
  unfoldable pub closed : F → F → F → Account F → Account F
  closed exit_price exit_cost net_pnl a =
      let proceeds = mul (num a.open_position_quantity) exit_price in
      record a {
        cash = add a.cash (sub proceeds exit_cost);
        realized_pnl = add a.realized_pnl net_pnl;
        total_trades = a.total_trades + 1;
        consecutive_losses = if lt net_pnl (num 0) then a.consecutive_losses + 1 else 0;
        open_position_quantity = 0;
        open_position_entry_price = num 0;
        open_position_cost_basis = num 0;
        unrealized_pnl = num 0;
      }

  unfoldable pub close_position : F → F → F → Account F → Option (Account F)
  close_position exit_price exit_cost net_pnl a =
      if a.open_position_quantity == 0
      then none
      else some (update_peak (closed exit_price exit_cost net_pnl a))

  -- `none` is the ValidationError of a capital that is not positive.
  unfoldable pub new_account : F → Option (Account F)
  new_account capital =
      if lt (num 0) capital
      then some (record {
        initial_capital = capital;
        cash = capital;
        realized_pnl = num 0;
        open_position_quantity = 0;
        open_position_entry_price = num 0;
        open_position_cost_basis = num 0;
        unrealized_pnl = num 0;
        peak_equity = capital;
        daily_start_equity = capital;
        current_day = none;
        consecutive_losses = 0;
        total_trades = 0;
      })
      else none
