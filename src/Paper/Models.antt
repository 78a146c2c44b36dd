-- ===== src/Paper/Models.antt =====
-- paper/models.py and paper/errors.py.
use trading_workstation.Prelude.{ℕ, Option}
use trading_workstation.Signal.{DateTime, Side, Signal}
use trading_workstation.Risk.{RiskDecision}
use trading_workstation.Backtesting.Execution.{ExitReason, Trade}

pub data OrderStatus : Type 0 where
  pending filled : OrderStatus

pub record PaperOrder (F : Type 0) : Type 0 where
  pub order_id : ℕ
  pub signal_id : ℕ
  pub symbol : ℕ
  pub side : Side
  pub quantity : ℕ
  pub requested_price : F
  pub status : OrderStatus
  pub created_at : DateTime
  pub stop_price : F
  pub target_price : F

pub data FillKind : Type 0 where
  entry exit : FillKind

pub record PaperFill (F : Type 0) : Type 0 where
  pub fill_id : ℕ
  pub order_id : ℕ
  pub symbol : ℕ
  pub quantity : ℕ
  pub fill_price : F
  pub fees : F
  pub slippage_amount : F
  pub timestamp : DateTime
  pub fill_kind : FillKind

pub data PositionStatus : Type 0 where
  is_open is_closed : PositionStatus

pub record Position (F : Type 0) : Type 0 where
  pub position_id : ℕ
  pub symbol : ℕ
  pub status : PositionStatus
  pub signal_id : ℕ
  pub entry_order_id : ℕ
  pub entry_fill_id : ℕ
  pub entry_time : DateTime
  pub entry_price : F
  pub quantity : ℕ
  pub stop_price : F
  pub target_price : F
  pub exit_fill_id : Option ℕ
  pub exit_time : Option DateTime
  pub exit_price : Option F
  pub exit_reason : Option ExitReason
  pub trade_id : Option ℕ
  pub bars_held : ℕ

pub data JournalOutcome : Type 0 where
  rejected skipped_already_active approved_pending : JournalOutcome
  approved_filled_open approved_filled_closed : JournalOutcome

pub record JournalEntry : Type 0 where
  pub journal_entry_id : ℕ
  pub signal_id : ℕ
  pub symbol : ℕ
  pub risk_decision_id : ℕ
  pub order_id : Option ℕ
  pub position_id : Option ℕ
  pub trade_id : Option ℕ
  pub outcome : JournalOutcome
  pub strategy_name : ℕ
  pub strategy_version : ℕ
  pub risk_config_version : ℕ
  pub execution_model_version : ℕ
  pub created_at : DateTime
  pub updated_at : DateTime
  pub decision_id : Option ℕ

-- The exceptions that leave the store or the engine. `arithmetic_error` stands for those of the
-- float operations of `RiskEngine.evaluate`.
pub data Error : Type 0 where
  integrity_error value_error runtime_error assertion_error not_implemented : Error
  arithmetic_error out_of_order_bar invalid_position_transition : Error
  invalid_order_transition duplicate_trade_for_position : Error

-- The rows that carry more than their model.
pub record SignalRow (F : Type 0) : Type 0 where
  pub signal_id : ℕ
  pub signal : Signal F
  pub strategy_version : ℕ

pub record RiskDecisionRow (F : Type 0) : Type 0 where
  pub risk_decision_id : ℕ
  pub signal_id : ℕ
  pub decision : RiskDecision F
  pub risk_config_version : ℕ

pub record TradeRow (F : Type 0) : Type 0 where
  pub trade_id : ℕ
  pub position_id : ℕ
  pub trade : Trade F
  pub execution_model_version : ℕ

pub record CursorRow : Type 0 where
  pub symbol : ℕ
  pub last_bar_timestamp : ℕ
