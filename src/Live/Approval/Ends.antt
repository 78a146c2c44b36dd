-- ===== src/Live/Approval/Ends.antt =====
-- live/approval.py: where the flow ends.
use mathlib.Core.Path.{subst}
use trading_workstation.Prelude.{
  ℕ, suc, ◌+◌, ◌≤◌, ◌≡◌, inl, inr, ◌↔◌, Bool, true, false, none, some, List, [], ◌∷◌, length, arith,
  Bool-cases,
}
use trading_workstation.Prelude.Options.{>>=-eq-some}
use trading_workstation.Signal.{DateTime}
use trading_workstation.Live.Approval.{
  SignalLifecycleState, SignalLifecycle, signal_generated, risk_approved, ai_explained,
  pending_human_approval, human_approved, executed, legal_transitions, is_member, new_lifecycle,
  transition_to, is_terminal,
}
use trading_workstation.Live.Approval.Paths.{transitions, transition_to_inv}

-- How far a state is from the start, at most.
abbrev depth : SignalLifecycleState → ℕ
depth signal_generated = 0
depth risk_approved = 1
depth ai_explained = 2
depth pending_human_approval = 3
depth human_approved = 4
depth _ = 5

depth_grows :
    (require : Bool) (a b : SignalLifecycleState)
    → is_member b (legal_transitions require a) ≡ true
    → suc (depth a) ≤ depth b
depth_grows require a b h = ground arith

transition_to-depth :
    (state : SignalLifecycleState) (now : DateTime) (l l' : SignalLifecycle)
    → transition_to state now l ≡ some l'
    → suc (depth l.state) ≤ depth l'.state
transition_to-depth state now l l' e =
    let step = transition_to_inv state now l l' e in
    subst (λ x. suc (depth l.state) ≤ depth x.state) step.1 (depth_grows _ l.state state step.0)

depth_max : (s : SignalLifecycleState) → depth s ≤ 5
depth_max s = ground arith

transitions-depth :
    (calls : List (SignalLifecycleState × DateTime)) (l l' : SignalLifecycle)
    → transitions calls l ≡ some l'
    → length calls + depth l.state ≤ 5
unfolding transitions
transitions-depth [] l l' e = omega (arith, depth_max l.state)
transitions-depth ((state, now) ∷ calls) l l' e =
    let (l1, first, rest) = >>=-eq-some (transition_to state now l) (transitions calls) e in
    omega (arith, transition_to-depth state now l l1 first, transitions-depth calls l1 l' rest)

-- No lifecycle goes through more than five transitions.
pub lifecycle_ends :
    (signal_id : ℕ) (require : Bool) (created : DateTime)
    (calls : List (SignalLifecycleState × DateTime)) (l : SignalLifecycle)
    → transitions calls (new_lifecycle signal_id require created) ≡ some l
    → length calls ≤ 5
lifecycle_ends signal_id require created calls l e = omega (arith, transitions-depth calls _ l e)

no_exit :
    (require : Bool) (l : SignalLifecycle) (b : SignalLifecycleState)
    → is_terminal l ≡ true
    → is_member b (legal_transitions require l.state) ≡ false
no_exit require l b ended = ground arith

terminal_raises :
    (state : SignalLifecycleState) (now : DateTime) (l : SignalLifecycle)
    → is_terminal l ≡ true
    → transition_to state now l ≡ none
unfolding transition_to
terminal_raises state now l ended = rw (no_exit l.require_human_approval l state ended)

-- a state that follows, where there is one
abbrev onward : SignalLifecycleState → SignalLifecycleState
onward signal_generated = risk_approved
onward human_approved = executed
onward pending_human_approval = human_approved
onward _ = pending_human_approval

onward_legal :
    (require : Bool) (l : SignalLifecycle)
    → is_terminal l ≡ false
    → is_member (onward l.state) (legal_transitions require l.state) ≡ true
onward_legal require l open_ended = ground arith

goes_on :
    (l : SignalLifecycle) (now : DateTime)
    → is_terminal l ≡ false
    → ¬ (transition_to (onward l.state) now l ≡ none)
unfolding transition_to
goes_on l now open_ended refused =
    ground (arith, onward_legal l.require_human_approval l open_ended)

-- `is_terminal` agrees with the graph: it holds of a lifecycle exactly when every call raises.
pub is_terminal_iff :
    (l : SignalLifecycle)
    → (is_terminal l ≡ true)
      ↔ ((state : SignalLifecycleState) (now : DateTime) → transition_to state now l ≡ none)
is_terminal_iff l = (
  λ ended state now. terminal_raises state now l ended,
  λ raises. elim (Bool-cases (is_terminal l)) [
    | inl ended ↦ ended
    | inr open_ended ↦
        absurd (goes_on l (record { wall = 0; tzinfo = none }) open_ended (raises _ _))
  ],
)
