-- ===== src/Samples.antt =====
-- Concrete values on which the tests run the model, in whole numbers.
use trading_workstation.Prelude.{ℕ, ◌+◌, ◌*◌, true, none, some, [], ◌∷◌, Whole, whole, pos}
use trading_workstation.Signal.{Signal, DateTime, long, trend_confirmed}
use trading_workstation.Risk.{RiskConfig}
use trading_workstation.Risk.Account.{Account}
use trading_workstation.Backtesting.Costs.{CostModel}
use trading_workstation.Backtesting.Execution.{Bar}
use trading_workstation.Paper.Monad.{Engine}
use trading_workstation.Paper.Positions.{Setup}

abbrev pub rupees : ℕ → Whole
rupees n = whole (pos n)

abbrev pub at : ℕ → DateTime
at n = record { wall = n; tzinfo = none }

abbrev pub thresholds : RiskConfig Whole
thresholds = record {
  risk_per_trade_pct = rupees 1;
  max_daily_loss_pct = rupees 3;
  max_drawdown_pct = rupees 10;
  max_exposure_pct = rupees 25;
  max_consecutive_losses = 3;
  consecutive_loss_risk_multiplier = rupees 1;
  consecutive_loss_hard_limit = 6;
  min_risk_reward = rupees 1;
}

abbrev pub flat_account : Account Whole
flat_account = record {
  initial_capital = rupees 100_000;
  cash = rupees 100_000;
  realized_pnl = rupees 0;
  open_position_quantity = 0;
  open_position_entry_price = rupees 0;
  open_position_cost_basis = rupees 0;
  unrealized_pnl = rupees 0;
  peak_equity = rupees 100_000;
  daily_start_equity = rupees 100_000;
  current_day = none;
  consecutive_losses = 0;
  total_trades = 0;
}

abbrev pub breakout : Signal Whole
breakout = record {
  symbol = 7;
  generated_at = at 100_000;
  side = long;
  reference_price = rupees 100;
  stop_price = rupees 95;
  target_price = rupees 110;
  risk_reward = rupees 2;
  strategy_name = 1;
  reason_codes = trend_confirmed ∷ [];
  decision_id = none;
}

abbrev pub costs : CostModel Whole
costs = record {
  brokerage_per_fill = rupees 20;
  fees_pct = rupees 0;
  taxes_pct = rupees 0;
  entry_slippage_bps = rupees 100;
  exit_slippage_bps = rupees 100;
}

abbrev pub setup : Setup Whole
setup = record {
  risk_config = thresholds;
  risk_config_version = 1;
  cost_model = costs;
  max_holding_bars = some 5;
  execution_model_version = 1;
  digest = λ i. i.symbol * 1_000_000 + i.generated_at.wall;
}

abbrev pub new_engine : Engine Whole
new_engine = record {
  store = record {
    signals = [];
    risk_decisions = [];
    orders = [];
    fills = [];
    positions = [];
    trades = [];
    journal = [];
    account = some flat_account;
    cursors = [];
    uniqueness_enforced = true;
  };
  account = flat_account;
  next_id = 1;
}

-- a bar that stays between the stop and the target, and one that reaches the target
abbrev pub quiet_bar : Bar Whole
quiet_bar = record {
  timestamp = at 100_060;
  open_price = rupees 101;
  high = rupees 104;
  low = rupees 99;
  close = rupees 103;
  volume = rupees 1000;
}

abbrev pub target_bar : Bar Whole
target_bar = record {
  timestamp = at 100_120;
  open_price = rupees 104;
  high = rupees 112;
  low = rupees 103;
  close = rupees 111;
  volume = rupees 1500;
}
