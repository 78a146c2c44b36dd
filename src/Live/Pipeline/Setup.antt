-- ===== src/Live/Pipeline/Setup.antt =====
-- live/pipeline.py: what the pipeline is built with, and the results of a step. The critic's evaluation
-- is a function.
use trading_workstation.Prelude.{ℕ, ◌+◌, ◌*◌, Bool, Option, none, some, List}
use trading_workstation.Signal.{DateTime, Signal}
use trading_workstation.Backtesting.Execution.{Bar}
use trading_workstation.Paper.Models.{JournalEntry}
use trading_workstation.Paper.Positions.{Setup}
use trading_workstation.Live.Freshness.{FreshnessPolicy, TimeUnit}

-- `CriticGateResult`. Without an assessment the verdict is EVIDENCE_UNAVAILABLE, and the reason that
-- blocked is the only one.
pub record CriticAssessment : Type 0 where
  pub verdict : ℕ
  pub reasons : List ℕ
  pub checks : List ℕ

pub record CriticGateResult : Type 0 where
  pub blocked : Bool
  pub assessment : CriticAssessment
  pub review_id : ℕ

-- What the gate is asked, besides the signal and the time.
pub record GateQuestion (F : Type 0) : Type 0 where
  pub bars : List (Bar F)
  pub kill_switch_active : Bool
  pub existing_pending_order : Bool
  pub existing_open_position : Bool

-- What the pipeline is built with. `strategy` is `generate_signal` at the last bar of the buffer.
pub record PipelineSetup (F : Type 0) : Type 0 where
  pub engine_setup : Setup F
  pub strategy : List (Bar F) → ℕ → Option (Signal F)
  pub strategy_version : ℕ
  pub critic_gate : Option (Signal F → GateQuestion F → DateTime → CriticGateResult)
  pub freshness_policy : FreshnessPolicy
  pub interval_quantity : ℕ
  pub interval_unit : TimeUnit
  pub require_human_approval : Bool
  pub approval_timeout_seconds : Option ℕ

pub data StepKind : Type 0 where
  bar_processed duplicate_skipped_step out_of_order_rejected stale_signal_suppressed : StepKind
  pending_fill_halted feed_disconnected feed_exhausted no_new_data : StepKind
  awaiting_approval critic_rejected_step kill_switch_stop : StepKind

-- `PipelineStepResult`, less the values that are only passed on
pub record PipelineStepResult (F : Type 0) : Type 0 where
  pub kind : StepKind
  pub signal : Option (Signal F)
  pub journal_entry : Option JournalEntry
  pub expired_signal_ids : List ℕ

-- `now + timedelta(seconds=…)`, or a hundred years
abbrev pub expiry : Option ℕ → DateTime → DateTime
expiry none now = record now { wall = now.wall + 36_500 * 86_400 }
expiry (some timeout) now = record now { wall = now.wall + timeout }
