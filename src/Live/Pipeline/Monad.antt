-- ===== src/Live/Pipeline/Monad.antt =====
-- live/pipeline.py: the state of `LiveSimPipeline`, with the store and the engine that it is built
-- with, and its methods as actions on that state. `pending.lifecycle` is the object in `lifecycles`
-- with the same id, so a pending approval names its lifecycle by the id.
use trading_workstation.Prelude.{
  ℕ, Bool, false, Option, none, some, List, [], ◌∷◌, ◌==◌, if◌then◌else◌,
}
use trading_workstation.Signal.{DateTime, Signal}
use trading_workstation.Backtesting.Execution.{Bar}
use trading_workstation.Paper.Models.{Error}
use trading_workstation.Paper.Store.{find, without}
use trading_workstation.Paper.Monad.{Engine, Result, ok, err, Action}
use trading_workstation.Live.Approval.{SignalLifecycleState, SignalLifecycle, transition_to}
use trading_workstation.Live.StateStore.{LiveStateStore, is_kill_switch_active}

pub record PendingApproval (F : Type 0) : Type 0 where
  pub signal_id : ℕ
  pub signal : Signal F
  pub expires_at : DateTime
  pub requested_quantity : ℕ
  pub strategy_version : ℕ
  pub risk_config_version : ℕ

pub record SymbolBuffer (F : Type 0) : Type 0 where
  pub symbol : ℕ
  pub bars : List (Bar F)

-- `state_store` is None where no approvals are persisted.
pub record Live (F : Type 0) : Type 0 where
  pub pending_approvals : List (PendingApproval F)
  pub lifecycles : List SignalLifecycle
  pub buffers : List (SymbolBuffer F)
  pub state_store : Option (LiveStateStore F)
  pub engine : Engine F

-- The exceptions: IllegalStateTransitionError, the ValueError of `update_decision`, a KeyError, the
-- ValueError for an interval of months, and what the engine raises.
pub data Failure : Type 0 where
  illegal_state_transition unknown_approval key_error calendar_interval : Failure
  engine_error : Error → Failure

pub data Caught (A : Type 0) : Type 0 where
  returned : A → Caught A
  failed : Failure → Caught A

-- What was written before an exception stays.
abbrev pub Step : Type 0 → Type 0 → Type 0
Step F A = Live F → Caught A × Live F

module _ {F A : Type 0} where
  abbrev pub pure : A → Step F A
  pure a s = (returned a, s)

  abbrev pub raise : Failure → Step F A
  raise e s = (failed e, s)

  abbrev pub gets : (Live F → A) → Step F A
  gets f s = (returned (f s), s)

abbrev pub proceed : {F A B : Type 0} → (A → Step F B) → Caught A × Live F → Caught B × Live F
proceed f (returned a, s) = f a s
proceed f (failed e, s) = (failed e, s)

infixl 5 ◌>>=◌ ◌>>◌
abbrev pub ◌>>=◌ : {F A B : Type 0} → Step F A → (A → Step F B) → Step F B
◌>>=◌ m f s = proceed f (m s)

abbrev pub ◌>>◌ : {F A B : Type 0} → Step F A → Step F B → Step F B
m >> k = m >>= λ _. k

abbrev pub lifecycle_of : ℕ → List SignalLifecycle → Option SignalLifecycle
lifecycle_of id ls = find (λ l. l.signal_id == id) ls

-- `dict[key] = lifecycle`
abbrev pub put_lifecycle : SignalLifecycle → List SignalLifecycle → List SignalLifecycle
put_lifecycle l [] = l ∷ []
put_lifecycle l (x ∷ xs) = if x.signal_id == l.signal_id then l ∷ xs else x ∷ put_lifecycle l xs

module _ {F : Type 0} where
  abbrev pub modify : (Live F → Live F) → Step F (Unit {0})
  modify f s = (returned tt, f s)

  abbrev pub of_result : {A : Type 0} → Live F → Result A × Engine F → Caught A × Live F
  of_result s (ok a, e) = (returned a, record s { engine = e })
  of_result s (err x, e) = (failed (engine_error x), record s { engine = e })

  -- a call on the engine
  unfoldable pub on_engine : {A : Type 0} → Action F A → Step F A
  on_engine action s = of_result s (action s.engine)

  abbrev pub stored :
      (LiveStateStore F → LiveStateStore F) → Option (LiveStateStore F) → Option (LiveStateStore F)
  stored f none = none
  stored f (some st) = some (f st)

  -- `if self.state_store is not None: …`
  unfoldable pub write_if_stored : (LiveStateStore F → LiveStateStore F) → Step F (Unit {0})
  write_if_stored f = modify (λ s. record s { state_store = stored f s.state_store })

  abbrev pub stored_switch : Option (LiveStateStore F) → Bool
  stored_switch none = false
  stored_switch (some st) = is_kill_switch_active st

  -- `is_kill_switch_active`
  unfoldable pub kill_switch_active : Live F → Bool
  kill_switch_active s = stored_switch s.state_store

  abbrev pub set_lifecycle : SignalLifecycle → Step F SignalLifecycle
  set_lifecycle l s = (returned l, record s { lifecycles = put_lifecycle l s.lifecycles })

  abbrev pub moved : Option SignalLifecycle → Step F SignalLifecycle
  moved none = raise illegal_state_transition
  moved (some l) = set_lifecycle l

  abbrev pub move_from :
      Option SignalLifecycle → SignalLifecycleState → DateTime → Step F SignalLifecycle
  move_from none new_state now = raise key_error
  move_from (some l) new_state now = moved (transition_to new_state now l)

  -- `lifecycle.transition_to(new_state, now=now)`
  unfoldable pub transition : ℕ → SignalLifecycleState → DateTime → Step F SignalLifecycle
  transition id new_state now s = move_from (lifecycle_of id s.lifecycles) new_state now s

  -- `del self.pending_approvals[signal_id]`
  unfoldable pub drop_pending : ℕ → Step F (Unit {0})
  drop_pending id =
      modify
        (λ s. record s { pending_approvals = without (λ p. p.signal_id == id) s.pending_approvals })
