-- ===== src/Live/Pipeline/Moving.antt =====
-- live/pipeline.py: a transition, a step that leaves the store alone, and a recorded decision.
use mathlib.Core.Path.{subst}
use trading_workstation.Prelude.{
  ℕ, ◌≡◌, refl, sym, ap, ◌∙◌, Bool, true, false, Option, none, some, List, [], ◌∷◌, if_split,
}
use trading_workstation.Signal.{DateTime}
use trading_workstation.Live.Approval.{
  SignalLifecycleState, pending_human_approval, SignalLifecycle, transition_to, is_member,
  legal_transitions,
}
use trading_workstation.Live.StateStore.Models.{Decision}
use trading_workstation.Live.StateStore.Closed.{Closes, update_decision-Closes}
use trading_workstation.Live.StateStore.{
  LiveStateStore, Decided, recorded, refused, invalid_decision_transition, no_such_approval,
  update_decision, is_state,
}
use trading_workstation.Live.Pipeline.Monad.{
  Caught, returned, failed, Failure, Step, ◌>>=◌, moved, move_from, transition, lifecycle_of,
}
use trading_workstation.Live.Pipeline.Decisions.{
  ApprovalActionResult, record_decision, decide_stored, with_decided,
}
use trading_workstation.Live.Pipeline.Logs.{
  Fine-nothing, Fine-one, Ends, Logs, Leaves, Leaves-Logs, Yields, then-Logs,
}

abbrev pub no_decision : Caught ApprovalActionResult → List ℕ
no_decision r = []

-- the states that end the wait for a decision
abbrev pub IsSettled : SignalLifecycleState → Type 0
IsSettled state = is_state state pending_human_approval ≡ false

abbrev state_or : SignalLifecycleState → Option SignalLifecycle → SignalLifecycleState
state_or s none = s
state_or s (some l) = l.state

abbrev state_of_result : SignalLifecycleState → Caught SignalLifecycle → SignalLifecycleState
state_of_result s (returned l) = l.state
state_of_result s (failed e) = s

pub moved-IsSettled :
    (l : SignalLifecycle) (state : SignalLifecycleState)
    → IsSettled state
    → l.state ≡ state
    → IsSettled l.state
moved-IsSettled l state h e = subst IsSettled (sym e) h

pub transition_to-state :
    (new_state : SignalLifecycleState) (now : DateTime) (l k : SignalLifecycle)
    → transition_to new_state now l ≡ some k
    → k.state ≡ new_state
unfolding transition_to
transition_to-state new_state now l k =
    if_split (λ o. o ≡ some k → k.state ≡ new_state)
      (is_member new_state (legal_transitions l.require_human_approval l.state)) _ _
      (λ _ e. sym (ap (state_or new_state) e)) (λ _ e. cc)

-- the decision that a test for success reports
abbrev pub when_true : ℕ → Caught Bool → List ℕ
when_true id (returned true) = id ∷ []
when_true id (returned false) = []
when_true id (failed e) = []

-- the ids that an expiry returns
abbrev pub ids_of : Caught (List ℕ) → List ℕ
ids_of (returned ids) = ids
ids_of (failed e) = []

module _ {F : Type 0} where
  move_from-Leaves :
      (o : Option SignalLifecycle) (new_state : SignalLifecycleState) (now : DateTime)
      → Leaves {F = F} (move_from o new_state now)
  move_from-Leaves none new_state now s = refl
  move_from-Leaves (some l) new_state now s = moved_leaves (transition_to new_state now l)
    where
      moved_leaves : (o : Option SignalLifecycle) → (moved o s).1.state_store ≡ s.state_store
      moved_leaves none = refl
      moved_leaves (some k) = refl

  pub transition-Leaves :
      (id : ℕ) (new_state : SignalLifecycleState) (now : DateTime)
      → Leaves {F = F} (transition id new_state now)
  unfolding transition
  transition-Leaves id new_state now s =
      move_from-Leaves (lifecycle_of id s.lifecycles) new_state now s

  transition-Yields :
      (id : ℕ) (new_state : SignalLifecycleState) (now : DateTime)
      → Yields {F = F} (λ l. l.state ≡ new_state) (transition id new_state now)
  unfolding transition
  transition-Yields id new_state now s l = from_found (lifecycle_of id s.lifecycles)
    where
      from_moved :
          (o : Option SignalLifecycle)
          → ((k : SignalLifecycle) → o ≡ some k → k.state ≡ new_state)
          → (moved o s).0 ≡ returned l
          → l.state ≡ new_state
      from_moved none h e = cc
      from_moved (some k) h e = sym (ap (state_of_result new_state) e) ∙ h k refl

      from_found :
          (o : Option SignalLifecycle)
          → (move_from o new_state now s).0 ≡ returned l
          → l.state ≡ new_state
      from_found none e = cc
      from_found (some k) e =
          from_moved (transition_to new_state now k) (transition_to-state new_state now k) e

  -- a transition, and then the rest, which sees the new state
  pub moving :
      {A : Type 0} (id : ℕ) (new_state : SignalLifecycleState) (now : DateTime)
      (f : SignalLifecycle → Step F A) (log : Caught A → List ℕ)
      → ((l : SignalLifecycle) → l.state ≡ new_state → Logs log (f l))
      → ((e : Failure) → log (failed e) ≡ [])
      → Logs log (transition id new_state now >>= f)
  moving id new_state now f log h none_ =
      then-Logs (transition id new_state now) f (λ l. l.state ≡ new_state) log
        (Leaves-Logs (transition id new_state now) (transition-Leaves id new_state now))
        (transition-Yields id new_state now) h none_

  -- a step that leaves the store alone, and then the rest
  pub leaving :
      {A B : Type 0} (m : Step F A) (f : A → Step F B) (log : Caught B → List ℕ)
      → Leaves m
      → ((a : A) → Logs log (f a))
      → ((e : Failure) → log (failed e) ≡ [])
      → Logs log (m >>= f)
  leaving m f log h k none_ =
      then-Logs m f (λ _. Unit {0}) log (Leaves-Logs m h) (λ _ _ _. tt) (λ a _. k a) none_

  pub record_decision-Logs :
      (id : ℕ) (l : SignalLifecycle) (decision : Decision) (reason : Option ℕ) (now : DateTime)
      → IsSettled l.state
      → Logs {F = F} (when_true id) (record_decision id l decision reason now)
  unfolding record_decision
  record_decision-Logs id l decision reason now settled s st e =
      let e' = ap (λ o. decide_stored o id l decision reason now s) e in
      subst (Ends (when_true id) st) (sym e') (
        go (update_decision id l.state l.history decision reason now st)
          (λ left. update_decision-Closes id l.state l.history decision reason now st left settled))
    where
      go :
          (d : Decided F)
          → ((left : LiveStateStore F) → d ≡ recorded left → Closes id st left)
          → Ends (when_true id) st (with_decided s d s)
      go (recorded left) h = (left, refl, Fine-one id st left (h left refl))
      go (refused invalid_decision_transition) h = (st, e, Fine-nothing st st (λ id c. c))
      go (refused no_such_approval) h = (st, e, Fine-nothing st st (λ id c. c))
