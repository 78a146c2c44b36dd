-- ===== src/Live/Pipeline/Decisions.antt =====
-- live/pipeline.py: the decisions of a human, and their expiry. `now` is what the clock reads in the
-- call.
use trading_workstation.Prelude.{
  ℕ, Bool, true, false, Option, none, some, List, [], ◌∷◌, ◌==◌, Double, ltb, if◌then◌else◌,
}
use trading_workstation.Signal.{DateTime}
use trading_workstation.Risk.{PositionSize}
use trading_workstation.Paper.Models.{
  JournalEntry, JournalOutcome, rejected, skipped_already_active, approved_pending,
  approved_filled_open, approved_filled_closed,
}
use trading_workstation.Paper.Store.{Store, find}
use trading_workstation.Paper.Positions.{Setup}
use trading_workstation.Paper.Submit.{default_strategy_version, submit_signal}
use trading_workstation.Live.Approval.{
  SignalLifecycleState, human_approved, human_rejected, approval_expired, executed, risk_rejected,
  SignalLifecycle,
}
use trading_workstation.Live.StateStore.Models.{
  Decision, approve, reject, expired, journal_outcome, kill_switch_was_active,
}
use trading_workstation.Live.StateStore.{
  LiveStateStore, Decided, recorded, refused, invalid_decision_transition, no_such_approval,
  update_decision, finalize_decision, is_state,
}
use trading_workstation.Live.Pipeline.Monad.{
  PendingApproval, Live, Step, pure, raise, gets, ◌>>=◌, ◌>>◌, on_engine, write_if_stored,
  kill_switch_active, lifecycle_of, transition, drop_pending, unknown_approval, key_error,
}

pub data ApprovalActionOutcome : Type 0 where
  approved rejected_outcome already_decided expired_outcome not_found : ApprovalActionOutcome
  kill_switch_on : ApprovalActionOutcome

pub record ApprovalActionResult : Type 0 where
  pub outcome : ApprovalActionOutcome
  pub signal_id : ℕ
  pub journal_entry : Option JournalEntry

abbrev pub outcome_only : ApprovalActionOutcome → ℕ → ApprovalActionResult
outcome_only outcome id = record { outcome = outcome; signal_id = id; journal_entry = none }

-- `outcome.value.startswith("APPROVED")`
abbrev pub was_approved : JournalOutcome → Bool
was_approved rejected = false
was_approved skipped_already_active = false
was_approved approved_pending = true
was_approved approved_filled_open = true
was_approved approved_filled_closed = true

-- `now > expires_at`
abbrev pub has_expired : DateTime → DateTime → Bool
has_expired now expires_at = ltb expires_at.wall now.wall

abbrev pub with_id : Bool → ℕ → List ℕ → List ℕ
with_id true id ids = id ∷ ids
with_id false id ids = ids

abbrev pub already : Option SignalLifecycle → ℕ → ApprovalActionResult
already none id = outcome_only not_found id
already (some l) id =
    if is_state l.state approval_expired
    then outcome_only expired_outcome id
    else outcome_only already_decided id

abbrev pub final_state : JournalOutcome → SignalLifecycleState
final_state o = if was_approved o then executed else risk_rejected

module _ {F : Type 0} where
  abbrev pub with_decided : Live F → Decided F → Step F Bool
  with_decided before (recorded st) s = pure true (record s { state_store = some st })
  with_decided before (refused invalid_decision_transition) s = pure false s
  with_decided before (refused no_such_approval) s = raise unknown_approval s

  abbrev pub decide_stored :
      Option (LiveStateStore F) → ℕ → SignalLifecycle → Decision → Option ℕ → DateTime → Step F Bool
  decide_stored none id l decision reason now s = pure true s
  decide_stored (some st) id l decision reason now s =
      with_decided s (update_decision id l.state l.history decision reason now st) s

  -- `update_decision`, where there is a store: `false` is its InvalidDecisionTransitionError, which
  -- every caller catches.
  unfoldable pub record_decision :
      ℕ → SignalLifecycle → Decision → Option ℕ → DateTime → Step F Bool
  record_decision id l decision reason now s =
      decide_stored s.state_store id l decision reason now s

  -- one round of the loop of `expire_pending_approvals`
  unfoldable pub expire_one : DateTime → PendingApproval F → Step F Bool
  expire_one now p =
      if has_expired now p.expires_at
      then (do
        l ← transition p.signal_id approval_expired now
        won ← record_decision p.signal_id l expired none now
        drop_pending p.signal_id
        pure won)
      else pure false

  unfoldable pub expire_each : DateTime → List (PendingApproval F) → Step F (List ℕ)
  expire_each now [] = pure []
  expire_each now (p ∷ ps) = do
    won ← expire_one now p
    ids ← expire_each now ps
    pure (with_id won p.signal_id ids)

  -- The loop runs over a copy of the dictionary.
  unfoldable pub expire_pending_approvals : DateTime → Step F (List ℕ)
  expire_pending_approvals now = do ps ← gets (λ s. s.pending_approvals); expire_each now ps

  abbrev pub find_pending : ℕ → List (PendingApproval F) → Option (PendingApproval F)
  find_pending id ps = find (λ p. p.signal_id == id) ps

  -- what `_check_actionable` finds where the kill switch is off: the approval, or a result
  abbrev pub actionable :
      Option (PendingApproval F) → ℕ → DateTime → Step F (Option ApprovalActionResult)
  actionable none id now s = pure (some (already (lifecycle_of id s.lifecycles) id)) s
  actionable (some p) id now s =
      if has_expired now p.expires_at
      then (expire_pending_approvals now >> pure (some (outcome_only expired_outcome id))) s
      else pure none s

  unfoldable pub check_actionable : ℕ → DateTime → Step F (Option ApprovalActionResult)
  check_actionable id now s =
      if kill_switch_active s
      then pure (some (outcome_only kill_switch_on id)) s
      else actionable (find_pending id s.pending_approvals) id now s

  -- `self.pending_approvals.pop(signal_id)`
  abbrev pub pop_found : Option (PendingApproval F) → ℕ → Step F (PendingApproval F)
  pop_found none id = raise key_error
  pop_found (some p) id = do drop_pending id; pure p

  unfoldable pub pop_pending : ℕ → Step F (PendingApproval F)
  pop_pending id s = pop_found (find_pending id s.pending_approvals) id s

  abbrev pub quantity_of_decision : Option (PositionSize F) → Option ℕ
  quantity_of_decision none = none
  quantity_of_decision (some size) = some size.quantity

  -- the quantity in the decision of a journal entry
  unfoldable pub approved_quantity_of : JournalEntry → Store F → Option ℕ
  approved_quantity_of j st =
      elim (find (λ r. r.risk_decision_id == j.risk_decision_id) st.risk_decisions) [
        | none ↦ none
        | some row ↦ quantity_of_decision row.decision.position_size
      ]

  module _ ⦃d : Double F⦄ (setup : Setup F) where
    -- a claim that the kill switch overtook
    unfoldable pub withdraw : ℕ → DateTime → Step F ApprovalActionResult
    withdraw id now = do
      l ← transition id risk_rejected now
      write_if_stored (finalize_decision id l.state l.history none kill_switch_was_active)
      pure (outcome_only kill_switch_on id)

    -- the submission, and the final write
    unfoldable pub submit_claim : PendingApproval F → DateTime → Step F ApprovalActionResult
    submit_claim p now = do
      journal ← on_engine (submit_signal setup p.signal default_strategy_version now)
      l ← transition p.signal_id (final_state journal.outcome) now
      quantity ← gets (λ s. approved_quantity_of journal s.engine.store)
      write_if_stored (
          finalize_decision p.signal_id l.state l.history quantity
            (journal_outcome journal.outcome))
      pure (record {
        outcome = if was_approved journal.outcome then approved else rejected_outcome;
        signal_id = p.signal_id;
        journal_entry = some journal;
      })

    -- The part of `approve_pending` after the claim, with the second look at the kill switch.
    unfoldable pub conclude : PendingApproval F → DateTime → Step F ApprovalActionResult
    conclude p now = do
      active ← gets kill_switch_active
      if active then withdraw p.signal_id now else submit_claim p now

  -- The part of `approve_pending` and `reject_pending` up to the write that claims the decision:
  -- whether it was won.
  unfoldable pub claim :
      ℕ → SignalLifecycleState → Decision → Option ℕ → DateTime → Step F (Bool × PendingApproval F)
  claim id state decision reason now = do
    p ← pop_pending id
    l ← transition id state now
    won ← record_decision id l decision reason now
    pure (won, p)

  module _ ⦃d : Double F⦄ (setup : Setup F) where
    abbrev pub approve_checked :
        Option ApprovalActionResult → ℕ → Option ℕ → DateTime → Step F ApprovalActionResult
    approve_checked (some result) id reason now = pure result
    approve_checked none id reason now = do
      (won, p) ← claim id human_approved approve reason now
      if won then conclude setup p now else pure (outcome_only already_decided id)

    unfoldable pub approve_pending : ℕ → Option ℕ → DateTime → Step F ApprovalActionResult
    approve_pending id reason now = do
      result ← check_actionable id now
      approve_checked result id reason now

  abbrev pub reject_checked :
      Option ApprovalActionResult → ℕ → Option ℕ → DateTime → Step F ApprovalActionResult
  reject_checked (some result) id reason now = pure result
  reject_checked none id reason now = do
    (won, p) ← claim id human_rejected reject reason now
    pure (outcome_only (if won then rejected_outcome else already_decided) id)

  unfoldable pub reject_pending : ℕ → Option ℕ → DateTime → Step F ApprovalActionResult
  reject_pending id reason now = do
    result ← check_actionable id now
    reject_checked result id reason now
