-- ===== src/Live/Approval.antt =====
-- live/approval.py: the states of a signal and the transitions between them.
pub mod Ends
pub mod Paths
use trading_workstation.Prelude.{
  ℕ, Bool, true, false, not, Option, none, some, List, [], ◌∷◌, ◌++◌, any, ◌==◌, if◌then◌else◌,
}
use trading_workstation.Signal.{DateTime}

pub data SignalLifecycleState : Type 0 where
  signal_generated critic_rejected risk_approved risk_rejected ai_explained : SignalLifecycleState
  pending_human_approval human_approved human_rejected : SignalLifecycleState
  approval_expired executed : SignalLifecycleState

abbrev pub index : SignalLifecycleState → ℕ
index signal_generated = 0
index critic_rejected = 1
index risk_approved = 2
index risk_rejected = 3
index ai_explained = 4
index pending_human_approval = 5
index human_approved = 6
index human_rejected = 7
index approval_expired = 8
index executed = 9

-- `new_state in allowed`
abbrev pub is_member : SignalLifecycleState → List SignalLifecycleState → Bool
is_member state allowed = any (λ x. index state == index x) allowed

abbrev graph : SignalLifecycleState → List SignalLifecycleState
graph signal_generated = critic_rejected ∷ risk_approved ∷ risk_rejected ∷ []
graph critic_rejected = []
graph risk_approved = ai_explained ∷ pending_human_approval ∷ []
graph ai_explained = pending_human_approval ∷ []
graph pending_human_approval = human_approved ∷ human_rejected ∷ approval_expired ∷ []
graph human_approved = executed ∷ risk_rejected ∷ []
graph risk_rejected = []
graph human_rejected = []
graph approval_expired = []
graph executed = []

-- what is added to the graph where no human needs to approve
abbrev shortcut : SignalLifecycleState → List SignalLifecycleState
shortcut risk_approved = executed ∷ []
shortcut ai_explained = executed ∷ []
shortcut _ = []

abbrev pub legal_transitions : Bool → SignalLifecycleState → List SignalLifecycleState
legal_transitions true state = graph state
legal_transitions false state = graph state ++ shortcut state

-- The newest entry of `history` comes first.
pub record SignalLifecycle : Type 0 where
  pub signal_id : ℕ
  pub require_human_approval : Bool
  pub state : SignalLifecycleState
  pub history : List (SignalLifecycleState × DateTime)

abbrev pub new_lifecycle : ℕ → Bool → DateTime → SignalLifecycle
new_lifecycle signal_id require_human_approval now = record {
  signal_id = signal_id;
  require_human_approval = require_human_approval;
  state = signal_generated;
  history = (signal_generated, now) ∷ [];
}

-- `none` is IllegalStateTransitionError, which is raised before anything is changed.
unfoldable pub transition_to :
    SignalLifecycleState → DateTime → SignalLifecycle → Option SignalLifecycle
transition_to new_state now l =
    if is_member new_state (legal_transitions l.require_human_approval l.state)
    then some (record l { state = new_state; history = (new_state, now) ∷ l.history })
    else none

abbrev pub is_terminal : SignalLifecycle → Bool
is_terminal l =
    is_member l.state
      (critic_rejected ∷ risk_rejected ∷ human_rejected ∷ approval_expired ∷ executed ∷ [])
