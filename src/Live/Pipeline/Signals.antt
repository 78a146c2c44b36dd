-- ===== src/Live/Pipeline/Signals.antt =====
-- live/pipeline.py: a signal goes through the critic, the risk engine and, where a human must approve,
-- into the pending approvals. The critic's evaluation is a function that the pipeline is given.
use trading_workstation.Prelude.{
  ℕ, Bool, true, false, Option, none, some, List, [], ◌∷◌, ◌==◌, is_some, Double, if◌then◌else◌,
}
use trading_workstation.Signal.{DateTime, Signal, stable_id}
use trading_workstation.Risk.{RiskDecision, PositionSize}
use trading_workstation.Risk.Engine.{evaluate}
use trading_workstation.Backtesting.Execution.{Bar}
use trading_workstation.Paper.Models.{arithmetic_error}
use trading_workstation.Paper.Store.{get_pending_order, get_open_position}
use trading_workstation.Paper.Submit.{default_strategy_version, submit_signal}
use trading_workstation.Live.Approval.{
  critic_rejected, risk_approved, risk_rejected, ai_explained, pending_human_approval, executed,
  SignalLifecycle, new_lifecycle,
}
use trading_workstation.Live.StateStore.Models.{PendingApprovalRecord}
use trading_workstation.Live.StateStore.{
  save_critic_evaluation, save_critic_rejection, save_risk_rejection, save_pending_approval,
  is_state,
}
use trading_workstation.Live.Pipeline.Monad.{
  PendingApproval, SymbolBuffer, Live, Step, pure, raise, gets, ◌>>=◌, ◌>>◌, modify, on_engine,
  write_if_stored, kill_switch_active, lifecycle_of, put_lifecycle, transition, engine_error,
}
use trading_workstation.Live.Pipeline.Decisions.{was_approved}
use trading_workstation.Live.Pipeline.Setup.{
  CriticGateResult, GateQuestion, PipelineSetup, PipelineStepResult, StepKind, bar_processed,
  critic_rejected_step, awaiting_approval, expiry,
}

module _ {F : Type 0} where
  abbrev pub bare : StepKind → List ℕ → PipelineStepResult F
  bare kind ids = record {
    kind = kind;
    signal = none;
    journal_entry = none;
    expired_signal_ids = ids;
  }

  abbrev pub with_signal : StepKind → Signal F → PipelineStepResult F
  with_signal kind signal = record (bare kind []) { signal = some signal }

  abbrev pub buffer_of : ℕ → List (SymbolBuffer F) → List (Bar F)
  buffer_of symbol [] = []
  buffer_of symbol (b ∷ bs) = if b.symbol == symbol then b.bars else buffer_of symbol bs

  -- `lifecycles.setdefault(signal_id, …)`
  abbrev pub default_lifecycle : Option SignalLifecycle → SignalLifecycle → Step F (Unit {0})
  default_lifecycle (some l) new = pure tt
  default_lifecycle none new =
      modify (λ s. record s { lifecycles = put_lifecycle new s.lifecycles })

  unfoldable pub ensure_lifecycle : ℕ → Bool → DateTime → Step F (Unit {0})
  ensure_lifecycle id needs_human now s =
      default_lifecycle (lifecycle_of id s.lifecycles) (new_lifecycle id needs_human now) s

  -- `dict[signal_id] = pending`
  abbrev pub put_pending : PendingApproval F → List (PendingApproval F) → List (PendingApproval F)
  put_pending p [] = p ∷ []
  put_pending p (x ∷ xs) = if x.signal_id == p.signal_id then p ∷ xs else x ∷ put_pending p xs

  abbrev pub question_of : ℕ → Live F → GateQuestion F
  question_of symbol s = record {
    bars = buffer_of symbol s.buffers;
    kill_switch_active = kill_switch_active s;
    existing_pending_order = is_some (get_pending_order symbol s.engine.store);
    existing_open_position = is_some (get_open_position symbol s.engine.store);
  }

  unfoldable pub block : ℕ → ℕ → CriticGateResult → DateTime → Step F (Unit {0})
  block id symbol gate now = do
    transition id critic_rejected now
    write_if_stored (
        save_critic_rejection (record {
          signal_id = id;
          symbol = symbol;
          verdict = gate.assessment.verdict;
          reasons = gate.assessment.reasons;
          checks = gate.assessment.checks;
          rejected_at = now;
        }))

  abbrev pub ask_gate :
      Option (Signal F → GateQuestion F → DateTime → CriticGateResult)
      → Signal F
      → ℕ
      → ℕ
      → DateTime
      → Step F Bool
  ask_gate none signal id symbol now = pure false
  ask_gate (some evaluate_gate) signal id symbol now = do
    question ← gets (question_of symbol)
    let gate = evaluate_gate signal question now
    write_if_stored (
        save_critic_evaluation (record {
          critic_review_id = gate.review_id;
          signal_id = id;
          symbol = symbol;
          verdict = gate.assessment.verdict;
          blocked = gate.blocked;
          reasons = gate.assessment.reasons;
          checks = gate.assessment.checks;
          evaluated_at = now;
        }))
    if gate.blocked then block id symbol gate now >> pure true else pure false

module _ {F : Type 0} ⦃d : Double F⦄ (setup : PipelineSetup F) where
  -- without a human
  unfoldable pub submit_at_once : Signal F → ℕ → DateTime → Step F (PipelineStepResult F)
  submit_at_once signal id now = do
    journal ← on_engine (submit_signal setup.engine_setup signal default_strategy_version now)
    let good = was_approved journal.outcome
    transition id (if good then risk_approved else risk_rejected) now
    if good then transition id executed now >> pure tt else pure tt
    pure (record (with_signal bar_processed signal) { journal_entry = some journal })

  abbrev pub size_of : Option (PositionSize F) → ℕ
  size_of none = 0
  size_of (some size) = size.quantity

  unfoldable pub reject_by_risk :
      Signal F → ℕ → ℕ → RiskDecision F → DateTime → Step F (PipelineStepResult F)
  reject_by_risk signal id symbol decision now = do
    transition id risk_rejected now
    write_if_stored (
        save_risk_rejection (record {
          signal_id = id;
          symbol = symbol;
          veto_reasons = decision.veto_reasons;
          explanation = decision.explanation;
          rejected_at = now;
        }))
    pure (with_signal bar_processed signal)

  -- the row that `save_pending_approval` inserts
  abbrev pub approval_row : PendingApproval F → SignalLifecycle → DateTime → PendingApprovalRecord F
  approval_row p l now = record {
    signal_id = p.signal_id;
    signal = p.signal;
    strategy_version = p.strategy_version;
    risk_config_version = p.risk_config_version;
    requested_quantity = p.requested_quantity;
    state = l.state;
    history = l.history;
    created_at = now;
    expires_at = p.expires_at;
    decided_at = none;
    decision = none;
    decision_reason = none;
    approved_quantity = none;
    final_execution_result = none;
  }

  abbrev pub approval_of : Signal F → ℕ → RiskDecision F → DateTime → PendingApproval F
  approval_of signal id decision now = record {
    signal_id = id;
    signal = signal;
    expires_at = expiry setup.approval_timeout_seconds now;
    requested_quantity = size_of decision.position_size;
    strategy_version = setup.strategy_version;
    risk_config_version = setup.engine_setup.risk_config_version;
  }

  unfoldable pub ask_human :
      Signal F → ℕ → RiskDecision F → DateTime → Step F (PipelineStepResult F)
  ask_human signal id decision now = do
    transition id risk_approved now
    l ← transition id pending_human_approval now
    let p = approval_of signal id decision now
    modify (λ s. record s { pending_approvals = put_pending p s.pending_approvals })
    write_if_stored (save_pending_approval (approval_row p l now))
    pure (with_signal awaiting_approval signal)

  abbrev pub follow_decision :
      Option (RiskDecision F) → Signal F → ℕ → ℕ → DateTime → Step F (PipelineStepResult F)
  follow_decision none signal id symbol now = raise (engine_error arithmetic_error)
  follow_decision (some decision) signal id symbol now =
      if decision.approved
      then ask_human signal id decision now
      else reject_by_risk signal id symbol decision now

  -- the evaluation with the account in memory
  unfoldable pub judge : Signal F → ℕ → ℕ → DateTime → Step F (PipelineStepResult F)
  judge signal id symbol now s =
      follow_decision (evaluate setup.engine_setup.risk_config signal s.engine.account) signal id
        symbol now s

  -- `_handle_signal`
  unfoldable pub handle_signal : Signal F → ℕ → DateTime → Step F (PipelineStepResult F)
  handle_signal signal symbol now = do
    let id = stable_id setup.engine_setup.digest signal
    ensure_lifecycle id setup.require_human_approval now
    blocked ← ask_gate setup.critic_gate signal id symbol now
    if blocked
        then pure (with_signal critic_rejected_step signal)
        else if setup.require_human_approval
        then judge signal id symbol now
        else submit_at_once signal id now

-- `mark_ai_explained`
unfoldable pub mark_ai_explained : {F : Type 0} → ℕ → DateTime → Step F (Unit {0})
mark_ai_explained id now s = elim (lifecycle_of id s.lifecycles) [
  | none ↦ pure tt s
  | some l ↦
      (if is_state l.state risk_approved
          then transition id ai_explained now >> pure tt
          else pure tt)
        s
]
