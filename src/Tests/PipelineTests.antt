-- ===== src/Tests/PipelineTests.antt =====
-- live/pipeline.py and live/state_store.py: two pipelines race for one signal, a process that
-- crashed with a claim starts again, and the theorems there.
use trading_workstation.Prelude.{
  ◌≡◌, refl, true, none, some, List, [], ◌∷◌, All, Whole, whole_double,
}
use trading_workstation.Samples.{at, breakout, setup, new_engine}
use trading_workstation.Live.Approval.{
  SignalLifecycle, pending_human_approval, human_approved, signal_generated, transition_to,
}
use trading_workstation.Live.StateStore.Models.{PendingApprovalRecord}
use trading_workstation.Live.StateStore.{LiveStateStore, empty_store, update_decision}
use trading_workstation.Live.StateStore.Closed.{Closed}
use trading_workstation.Live.Pipeline.Monad.{PendingApproval, Live, transition, drop_pending}
use trading_workstation.Live.Pipeline.Decisions.{claim, pop_pending, record_decision}
use trading_workstation.Live.Pipeline.Logs.{Unique}
use trading_workstation.Live.Pipeline.Startup.{start}
use trading_workstation.Live.Pipeline.Orphans.{ClosesAll, start-ClosesAll}
use trading_workstation.Live.Pipeline.Races.{
  Turn, Shared, approving, rejecting, claiming, take_turns, take_turns-Unique,
}

abbrev asked : PendingApproval Whole
asked = record {
  signal_id = 5;
  signal = breakout;
  expires_at = at 200;
  requested_quantity = 10;
  strategy_version = 1;
  risk_config_version = 1;
}

abbrev waiting : SignalLifecycle
waiting = record {
  signal_id = 5;
  require_human_approval = true;
  state = pending_human_approval;
  history = (pending_human_approval, at 80) ∷ (signal_generated, at 80) ∷ [];
}

abbrev row : PendingApprovalRecord Whole
row = record {
  signal_id = 5;
  signal = breakout;
  strategy_version = 1;
  risk_config_version = 1;
  requested_quantity = 10;
  state = pending_human_approval;
  history = waiting.history;
  created_at = at 80;
  expires_at = at 200;
  decided_at = none;
  decision = none;
  decision_reason = none;
  approved_quantity = none;
  final_execution_result = none;
}

abbrev shared : Shared Whole
shared = record { store = record empty_store { pending_approvals = row ∷ [] }; engine = new_engine }

-- either pipeline's memory
abbrev member : Live Whole
member = record {
  pending_approvals = asked ∷ [];
  lifecycles = waiting ∷ [];
  buffers = [];
  state_store = none;
  engine = new_engine;
}

-- One approves and the other rejects.
abbrev race : List (Turn Whole)
race =
    record { who = member; act = claiming approving 5 none (at 100) }
    ∷ record { who = member; act = claiming rejecting 5 none (at 101) }
    ∷ []

race_log : (take_turns setup race shared).0 ≡ 5 ∷ []
unfolding take_turns claim pop_pending drop_pending transition transition_to record_decision
    update_decision
race_log = refl

take_turns-Unique_example :
    Unique (take_turns setup race shared).0
    × All (λ id. ¬ Closed id shared.store) (take_turns setup race shared).0
take_turns-Unique_example = take_turns-Unique setup race shared

-- The process crashed between the claim of signal 5 and its order; signal 6 waits for a human.
abbrev crashed : LiveStateStore Whole
crashed = record empty_store {
  pending_approvals = record row { state = human_approved } ∷ record row { signal_id = 6 } ∷ [];
}

abbrev restarted : Live Whole
restarted = record member { pending_approvals = []; lifecycles = []; state_store = some crashed }

start-ClosesAll_example : ClosesAll restarted crashed (start (at 300) restarted)
start-ClosesAll_example = start-ClosesAll restarted crashed (at 300) refl
