-- ===== src/Backtesting/Execution.antt =====
-- backtesting/trade.py and backtesting/execution.py: the exit rule and the closed trade.
use trading_workstation.Prelude.{ℕ, Option, none, some, Double, num, if◌then◌else◌}
use trading_workstation.Signal.{DateTime, Side, Signal}
use trading_workstation.Backtesting.Costs.{CostModel, cost_for_fill}

pub data ExitReason : Type 0 where
  stop target end_of_data expired partial_target trailing_stop mean_reversion_complete : ExitReason

pub record Trade (F : Type 0) : Type 0 where
  pub symbol : ℕ
  pub side : Side
  pub strategy_name : ℕ
  pub signal_generated_at : DateTime
  pub entry_time : DateTime
  pub entry_price : F
  pub quantity : ℕ
  pub stop_price : F
  pub target_price : F
  pub exit_time : DateTime
  pub exit_price : F
  pub exit_reason : ExitReason
  pub gross_pnl : F
  pub costs : F
  pub net_pnl : F
  pub r_multiple : F

pub record OpenPosition (F : Type 0) : Type 0 where
  pub signal : Signal F
  pub entry_time : DateTime
  pub entry_price : F
  pub quantity : ℕ
  pub stop_price : F
  pub target_price : F

-- `Bar` of paper/engine.py
pub record Bar (F : Type 0) : Type 0 where
  pub timestamp : DateTime
  pub open_price : F
  pub high : F
  pub low : F
  pub close : F
  pub volume : F

module _ {F : Type 0} ⦃d : Double F⦄ where
  open d use {add, sub, mul, div, lt, le}

  unfoldable pub check_exit : OpenPosition F → Bar F → Option (F × ExitReason)
  check_exit p bar =
      if le bar.low p.stop_price
      then some (p.stop_price, stop)
      else if le p.target_price bar.high
      then some (p.target_price, target)
      else none

  unfoldable pub close_trade :
      OpenPosition F → F → DateTime → ExitReason → ℕ → CostModel F → Trade F
  close_trade p exit_price exit_time exit_reason symbol model =
      let entry_notional = mul p.entry_price (num p.quantity) in
      let exit_notional = mul exit_price (num p.quantity) in
      let gross_pnl = mul (sub exit_price p.entry_price) (num p.quantity) in
      let costs = add (cost_for_fill model entry_notional) (cost_for_fill model exit_notional) in
      let net_pnl = sub gross_pnl costs in
      let initial_risk = mul (sub p.entry_price p.stop_price) (num p.quantity) in
      record {
        symbol = symbol;
        side = p.signal.side;
        strategy_name = p.signal.strategy_name;
        signal_generated_at = p.signal.generated_at;
        entry_time = p.entry_time;
        entry_price = p.entry_price;
        quantity = p.quantity;
        stop_price = p.stop_price;
        target_price = p.target_price;
        exit_time = exit_time;
        exit_price = exit_price;
        exit_reason = exit_reason;
        gross_pnl = gross_pnl;
        costs = costs;
        net_pnl = net_pnl;
        r_multiple = if lt (num 0) initial_risk then div net_pnl initial_risk else num 0;
      }
