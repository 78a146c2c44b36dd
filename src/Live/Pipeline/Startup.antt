-- ===== src/Live/Pipeline/Startup.antt =====
-- live/pipeline.py: the start of the process. Approvals that were pending are taken up again, and
-- claims that a crash left behind are closed.
use trading_workstation.Prelude.{ℕ, true, Option, none, some, List, [], ◌∷◌}
use trading_workstation.Signal.{DateTime}
use trading_workstation.Paper.Models.{JournalEntry}
use trading_workstation.Paper.Store.{find_journal_entry_by_signal_id}
use trading_workstation.Live.Approval.{SignalLifecycleState, risk_rejected, SignalLifecycle}
use trading_workstation.Live.StateStore.Models.{
  PendingApprovalRecord, ExecutionResult, journal_outcome, orphaned_claim_abandoned,
}
use trading_workstation.Live.StateStore.{
  LiveStateStore, list_pending, list_orphaned_claims, finalize_decision,
}
use trading_workstation.Live.Pipeline.Monad.{
  PendingApproval, Live, Step, pure, gets, ◌>>=◌, ◌>>◌, modify, write_if_stored, put_lifecycle,
  transition,
}
use trading_workstation.Live.Pipeline.Decisions.{approved_quantity_of, final_state}
use trading_workstation.Live.Pipeline.Signals.{put_pending}

module _ {F : Type 0} where
  abbrev pub lifecycle_of_record : PendingApprovalRecord F → SignalLifecycle
  lifecycle_of_record r = record {
    signal_id = r.signal_id;
    require_human_approval = true;
    state = r.state;
    history = r.history;
  }

  abbrev pub register : PendingApprovalRecord F → Step F (Unit {0})
  register r =
      modify (λ s. record s { lifecycles = put_lifecycle (lifecycle_of_record r) s.lifecycles })

  abbrev pub restored : PendingApprovalRecord F → PendingApproval F
  restored r = record {
    signal_id = r.signal_id;
    signal = r.signal;
    expires_at = r.expires_at;
    requested_quantity = r.requested_quantity;
    strategy_version = r.strategy_version;
    risk_config_version = r.risk_config_version;
  }

  unfoldable pub restore_each : List (PendingApprovalRecord F) → Step F (Unit {0})
  restore_each [] = pure tt
  restore_each (r ∷ rs) = do
    register r
    modify (λ s. record s { pending_approvals = put_pending (restored r) s.pending_approvals })
    restore_each rs

  -- what the journal says of an orphaned claim, and the quantity
  abbrev pub orphan_result :
      Option JournalEntry → Live F → SignalLifecycleState × Option ℕ × ExecutionResult
  orphan_result none s = (risk_rejected, none, orphaned_claim_abandoned)
  orphan_result (some j) s =
      (final_state j.outcome, approved_quantity_of j s.engine.store, journal_outcome j.outcome)

  -- The code files the lifecycle under its id after the write; nothing reads it in between.
  unfoldable pub reconcile_one : DateTime → PendingApprovalRecord F → Step F (Unit {0})
  reconcile_one now r = do
    (state, quantity, result) ←
        gets (λ s. orphan_result (find_journal_entry_by_signal_id r.signal_id s.engine.store) s)
    register r
    l ← transition r.signal_id state now
    write_if_stored (finalize_decision r.signal_id l.state l.history quantity result)

  unfoldable pub reconcile_each : DateTime → List (PendingApprovalRecord F) → Step F (Unit {0})
  reconcile_each now [] = pure tt
  reconcile_each now (r ∷ rs) = do reconcile_one now r; reconcile_each now rs

  abbrev pub rows_of :
      (LiveStateStore F → List (PendingApprovalRecord F))
      → Option (LiveStateStore F)
      → List (PendingApprovalRecord F)
  rows_of query none = []
  rows_of query (some st) = query st

  unfoldable pub restore_pending_approvals : Step F (Unit {0})
  restore_pending_approvals = do
    rows ← gets (λ s. rows_of list_pending s.state_store)
    restore_each rows

  unfoldable pub reconcile_orphaned_claims : DateTime → Step F (Unit {0})
  reconcile_orphaned_claims now = do
    rows ← gets (λ s. rows_of list_orphaned_claims s.state_store)
    reconcile_each now rows

  -- `__init__`, after the fields are set
  unfoldable pub start : DateTime → Step F (Unit {0})
  start now = do restore_pending_approvals; reconcile_orphaned_claims now
