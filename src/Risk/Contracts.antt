-- ===== src/Risk/Contracts.antt =====
-- risk/veto.py, risk/config.py and risk/contracts.py.
use trading_workstation.Prelude.{
  ℕ, Bool, not, ◌&&◌, Option, none, some, List, pos, Double, num, ltb, if◌then◌else◌,
}
use trading_workstation.Signal.{DateTime, Signal}

pub data VetoReason : Type 0 where
  invalid_signal non_finite_value invalid_stop invalid_risk_reward : VetoReason
  zero_position_size insufficient_capital max_exposure max_daily_loss : VetoReason
  max_drawdown consecutive_loss_limit position_already_open : VetoReason

-- the place in `VetoReason`
abbrev pub code : VetoReason → ℕ
code invalid_signal = 0
code non_finite_value = 1
code invalid_stop = 2
code invalid_risk_reward = 3
code zero_position_size = 4
code insufficient_capital = 5
code max_exposure = 6
code max_daily_loss = 7
code max_drawdown = 8
code consecutive_loss_limit = 9
code position_already_open = 10

pub record RiskConfig (F : Type 0) : Type 0 where
  pub risk_per_trade_pct : F
  pub max_daily_loss_pct : F
  pub max_drawdown_pct : F
  pub max_exposure_pct : F
  pub max_consecutive_losses : ℕ
  pub consecutive_loss_risk_multiplier : F
  pub consecutive_loss_hard_limit : ℕ
  pub min_risk_reward : F

module _ {F : Type 0} ⦃d : Double F⦄ where
  open d use {decimal, lt, le}

  -- The constraints of the fields and `_hard_limit_not_below_soft_limit`: `none` is a
  -- ValidationError.
  unfoldable pub validate : RiskConfig F → Option (RiskConfig F)
  validate c =
      if lt (num 0) c.risk_per_trade_pct
        && lt (num 0) c.max_daily_loss_pct
        && lt (num 0) c.max_drawdown_pct
        && lt (num 0) c.max_exposure_pct
        && ltb 0 c.max_consecutive_losses
        && (lt (num 0) c.consecutive_loss_risk_multiplier
            && le c.consecutive_loss_risk_multiplier (decimal (pos 10) 1))
        && ltb 0 c.consecutive_loss_hard_limit
        && lt (num 0) c.min_risk_reward
        && not (ltb c.consecutive_loss_hard_limit c.max_consecutive_losses)
      then some c
      else none

  -- `RiskConfig()`
  abbrev pub default_config : RiskConfig F
  default_config = record {
    risk_per_trade_pct = decimal (pos 5) 1;
    max_daily_loss_pct = decimal (pos 30) 1;
    max_drawdown_pct = decimal (pos 100) 1;
    max_exposure_pct = decimal (pos 250) 1;
    max_consecutive_losses = 3;
    consecutive_loss_risk_multiplier = decimal (pos 5) 1;
    consecutive_loss_hard_limit = 6;
    min_risk_reward = decimal (pos 15) 1;
  }

pub record PositionSize (F : Type 0) : Type 0 where
  pub quantity : ℕ
  pub risk_per_unit : F
  pub total_risk : F
  pub notional_value : F

pub record Exposure (F : Type 0) : Type 0 where
  pub position_notional : F
  pub account_equity : F
  pub exposure_pct : F

-- The text of `explanation`, by what it prints. No reasons print "no valid position size".
pub data Explanation (F : Type 0) : Type 0 where
  approved_units : ℕ → F → Bool → Explanation F
  rejected_for : List VetoReason → Explanation F

pub record RiskDecision (F : Type 0) : Type 0 where
  pub approved : Bool
  pub position_size : Option (PositionSize F)
  pub risk_amount : Option F
  pub risk_percent : Option F
  pub exposure : Option (Exposure F)
  pub veto_reasons : List VetoReason
  pub explanation : Explanation F
  pub risk_reduced : Bool
  pub account_equity : F
  pub current_drawdown_pct : F
  pub daily_pnl : F
  pub consecutive_losses : ℕ
  pub requested_quantity : ℕ
  pub approved_quantity : ℕ

pub record SignalRecord (F : Type 0) : Type 0 where
  pub timestamp : DateTime
  pub symbol : ℕ
  pub signal : Signal F
  pub decision : RiskDecision F

pub record RiskSummary (F : Type 0) : Type 0 where
  pub signals_generated : ℕ
  pub signals_approved : ℕ
  pub signals_rejected : ℕ
  pub rejections_by_reason : List (VetoReason × ℕ)
  pub average_risk_amount : Option F
  pub maximum_risk_amount : Option F
  pub signals_risk_reduced : ℕ
