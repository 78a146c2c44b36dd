-- ===== src/Live/StateStore.antt =====
-- live/state_store.py: the tables of the live subsystem and the statements on them. The time at which
-- a statement runs, `_now()`, is an argument. The schema's version and the migration of a column are
-- left out.
pub mod Models
pub mod Closed
use trading_workstation.Prelude.{
  ℕ, suc, Bool, true, false, not, ◌&&◌, Option, none, some, List, [], ◌∷◌, ◌++◌, ◌==◌, any,
  if◌then◌else◌,
}
use trading_workstation.Signal.{DateTime}
use trading_workstation.Paper.Store.{find, without}
use trading_workstation.Live.Approval.{
  SignalLifecycleState, pending_human_approval, human_approved, index,
}
use trading_workstation.Live.StateStore.Models.{
  Decision, ExecutionResult, PendingApprovalRecord, KillSwitch, FeedStatusRecord, ClockSkewRecord,
  CriticRejectionRecord, RiskRejectionRecord, CriticEvaluationRecord,
}

pub record LiveStateStore (F : Type 0) : Type 0 where
  pub pending_approvals : List (PendingApprovalRecord F)
  pub kill_switch : Option KillSwitch
  pub feed_status : List (FeedStatusRecord F)
  pub clock_skew : Option (ClockSkewRecord F)
  pub critic_rejections : List CriticRejectionRecord
  pub critic_evaluations : List CriticEvaluationRecord
  pub risk_rejections : List (RiskRejectionRecord F)

abbrev pub empty_store : {F : Type 0} → LiveStateStore F
empty_store = record {
  pending_approvals = [];
  kill_switch = none;
  feed_status = [];
  clock_skew = none;
  critic_rejections = [];
  critic_evaluations = [];
  risk_rejections = [];
}

-- `INSERT … ON CONFLICT(key) DO UPDATE`: the first test finds the row, and `update` is what becomes
-- of it.
abbrev pub insert_or_update {ℓ} : {A : Type ℓ} → (A → Bool) → (A → A) → A → List A → List A
insert_or_update test update new [] = new ∷ []
insert_or_update test update new (x ∷ xs) =
    if test x then update x ∷ xs else x ∷ insert_or_update test update new xs

-- `UPDATE … WHERE test`
abbrev pub update_where {ℓ} : {A : Type ℓ} → (A → Bool) → (A → A) → List A → List A
update_where test update [] = []
update_where test update (x ∷ xs) = (if test x then update x else x) ∷ update_where test update xs

abbrev pub rows_where {ℓ} : {A : Type ℓ} → (A → Bool) → List A → List A
rows_where test [] = []
rows_where test (x ∷ xs) = if test x then x ∷ rows_where test xs else rows_where test xs

abbrev pub is_state : SignalLifecycleState → SignalLifecycleState → Bool
is_state a b = index a == index b

-- The exceptions of `update_decision`: InvalidDecisionTransitionError and ValueError.
pub data DecisionError : Type 0 where
  invalid_decision_transition no_such_approval : DecisionError

pub data Decided (F : Type 0) : Type 0 where
  recorded : LiveStateStore F → Decided F
  refused : DecisionError → Decided F

abbrev pub switched_on : Option KillSwitch → Bool
switched_on none = false
switched_on (some row) = row.active

abbrev pub switch_state : Option KillSwitch → Bool × Option DateTime × Option ℕ
switch_state none = (false, none, none)
switch_state (some row) = (row.active, row.activated_at, row.reason)

module _ {F : Type 0} where
  unfoldable pub save_pending_approval :
      PendingApprovalRecord F → LiveStateStore F → LiveStateStore F
  save_pending_approval new st = record st {
    pending_approvals =
        insert_or_update (λ r. r.signal_id == new.signal_id)
          (λ r. record r { state = new.state; history = new.history }) new st.pending_approvals;
  }

  abbrev pub is_pending_row : ℕ → PendingApprovalRecord F → Bool
  is_pending_row id r = (r.signal_id == id) && is_state r.state pending_human_approval

  -- The columns that a decision writes.
  abbrev pub decide_row :
      SignalLifecycleState
      → List (SignalLifecycleState × DateTime)
      → Decision
      → Option ℕ
      → DateTime
      → PendingApprovalRecord F
      → PendingApprovalRecord F
  decide_row state history decision reason decided_at r = record r {
    state = state;
    history = history;
    decision = some decision;
    decision_reason = reason;
    approved_quantity = none;
    final_execution_result = none;
    decided_at = some decided_at;
  }

  unfoldable pub update_decision :
      ℕ
      → SignalLifecycleState
      → List (SignalLifecycleState × DateTime)
      → Decision
      → Option ℕ
      → DateTime
      → LiveStateStore F
      → Decided F
  update_decision id state history decision reason decided_at st =
      if any (is_pending_row id) st.pending_approvals
      then recorded (record st {
        pending_approvals =
            update_where (is_pending_row id) (decide_row state history decision reason decided_at)
              st.pending_approvals;
      })
      else if any (λ r. r.signal_id == id) st.pending_approvals
      then refused invalid_decision_transition
      else refused no_such_approval

  unfoldable pub finalize_decision :
      ℕ
      → SignalLifecycleState
      → List (SignalLifecycleState × DateTime)
      → Option ℕ
      → ExecutionResult
      → LiveStateStore F
      → LiveStateStore F
  finalize_decision id state history approved_quantity result st = record st {
    pending_approvals =
        update_where (λ r. r.signal_id == id)
          (λ r. record r {
            state = state;
            history = history;
            approved_quantity = approved_quantity;
            final_execution_result = some result;
          })
          st.pending_approvals;
  }

  unfoldable pub get : ℕ → LiveStateStore F → Option (PendingApprovalRecord F)
  get id st = find (λ r. r.signal_id == id) st.pending_approvals

  unfoldable pub list_pending : LiveStateStore F → List (PendingApprovalRecord F)
  list_pending st = rows_where (λ r. is_state r.state pending_human_approval) st.pending_approvals

  unfoldable pub list_orphaned_claims : LiveStateStore F → List (PendingApprovalRecord F)
  list_orphaned_claims st = rows_where (λ r. is_state r.state human_approved) st.pending_approvals

  unfoldable pub is_kill_switch_active : LiveStateStore F → Bool
  is_kill_switch_active st = switched_on st.kill_switch

  unfoldable pub kill_switch_state : LiveStateStore F → Bool × Option DateTime × Option ℕ
  kill_switch_state st = switch_state st.kill_switch

  unfoldable pub activate_kill_switch : ℕ → DateTime → LiveStateStore F → LiveStateStore F
  activate_kill_switch reason now st = record st {
    kill_switch = some (record { active = true; activated_at = some now; reason = some reason });
  }

  unfoldable pub reset_kill_switch : LiveStateStore F → LiveStateStore F
  reset_kill_switch st = record st {
    kill_switch = some (record { active = false; activated_at = none; reason = none });
  }

  unfoldable pub save_feed_status : FeedStatusRecord F → LiveStateStore F → LiveStateStore F
  save_feed_status row st = record st {
    feed_status = insert_or_update (λ r. r.symbol == row.symbol) (λ _. row) row st.feed_status;
  }

  unfoldable pub get_feed_status : ℕ → LiveStateStore F → Option (FeedStatusRecord F)
  get_feed_status symbol st = find (λ r. r.symbol == symbol) st.feed_status

  unfoldable pub save_clock_skew : ClockSkewRecord F → LiveStateStore F → LiveStateStore F
  save_clock_skew row st = record st { clock_skew = some row }

  unfoldable pub get_clock_skew : LiveStateStore F → Option (ClockSkewRecord F)
  get_clock_skew st = st.clock_skew

  unfoldable pub save_critic_rejection : CriticRejectionRecord → LiveStateStore F → LiveStateStore F
  save_critic_rejection row st = record st {
    critic_rejections =
        insert_or_update (λ r. r.signal_id == row.signal_id) (λ _. row) row st.critic_rejections;
  }

  unfoldable pub save_risk_rejection : RiskRejectionRecord F → LiveStateStore F → LiveStateStore F
  save_risk_rejection row st = record st {
    risk_rejections =
        insert_or_update (λ r. r.signal_id == row.signal_id) (λ _. row) row st.risk_rejections;
  }

  -- The review's id is that of `uuid4`.
  unfoldable pub save_critic_evaluation :
      CriticEvaluationRecord → LiveStateStore F → LiveStateStore F
  save_critic_evaluation row st = record st {
    critic_evaluations = st.critic_evaluations ++ (row ∷ []);
  }
