-- ===== src/Live/StateStore/Models.antt =====
-- live/state_store.py: the rows. Texts, JSON checks and the members of the enumerations that the store
-- keeps as text are only passed on, so they are numbers.
use trading_workstation.Prelude.{ℕ, Bool, Option, List}
use trading_workstation.Signal.{DateTime, Signal}
use trading_workstation.Risk.{VetoReason, Explanation}
use trading_workstation.Paper.Models.{JournalOutcome}
use trading_workstation.Live.Approval.{SignalLifecycleState}

pub data Decision : Type 0 where
  approve reject expired : Decision

-- `final_execution_result`
pub data ExecutionResult : Type 0 where
  journal_outcome : JournalOutcome → ExecutionResult
  kill_switch_was_active orphaned_claim_abandoned : ExecutionResult

pub record PendingApprovalRecord (F : Type 0) : Type 0 where
  pub signal_id : ℕ
  pub signal : Signal F
  pub strategy_version : ℕ
  pub risk_config_version : ℕ
  pub requested_quantity : ℕ
  pub state : SignalLifecycleState
  pub history : List (SignalLifecycleState × DateTime)
  pub created_at : DateTime
  pub expires_at : DateTime
  pub decided_at : Option DateTime
  pub decision : Option Decision
  pub decision_reason : Option ℕ
  pub approved_quantity : Option ℕ
  pub final_execution_result : Option ExecutionResult

pub record KillSwitch : Type 0 where
  pub active : Bool
  pub activated_at : Option DateTime
  pub reason : Option ℕ

pub record FeedStatusRecord (F : Type 0) : Type 0 where
  pub symbol : ℕ
  pub source : ℕ
  pub status : ℕ
  pub bar_timestamp : DateTime
  pub received_at : DateTime
  pub connection_state : Option ℕ
  pub updated_at : DateTime
  pub last_price : Option F

pub record ClockSkewRecord (F : Type 0) : Type 0 where
  pub skew_seconds : F
  pub classification : ℕ
  pub detail : ℕ
  pub measured_at : DateTime
  pub updated_at : DateTime

pub record CriticRejectionRecord : Type 0 where
  pub signal_id : ℕ
  pub symbol : ℕ
  pub verdict : ℕ
  pub reasons : List ℕ
  pub checks : List ℕ
  pub rejected_at : DateTime

pub record RiskRejectionRecord (F : Type 0) : Type 0 where
  pub signal_id : ℕ
  pub symbol : ℕ
  pub veto_reasons : List VetoReason
  pub explanation : Explanation F
  pub rejected_at : DateTime

pub record CriticEvaluationRecord : Type 0 where
  pub critic_review_id : ℕ
  pub signal_id : ℕ
  pub symbol : ℕ
  pub verdict : ℕ
  pub blocked : Bool
  pub reasons : List ℕ
  pub checks : List ℕ
  pub evaluated_at : DateTime
