-- ===== src/Live/Pipeline/Methods.antt =====
-- live/pipeline.py: what each method decides.
use trading_workstation.Prelude.{
  ℕ, ◌≡◌, refl, ap, Bool, true, false, Option, none, some, List, [], ◌∷◌, if_split, if◌then◌else◌,
  Double,
}
use trading_workstation.Signal.{DateTime}
use trading_workstation.Paper.Models.{JournalEntry, JournalOutcome}
use trading_workstation.Paper.Monad.{Engine, Result, ok, err, Action}
use trading_workstation.Paper.Positions.{Setup}
use trading_workstation.Paper.Submit.{default_strategy_version, submit_signal}
use trading_workstation.Live.Approval.{
  SignalLifecycleState, approval_expired, risk_rejected, SignalLifecycle,
}
use trading_workstation.Live.StateStore.Models.{
  Decision, expired, ExecutionResult, journal_outcome, kill_switch_was_active,
}
use trading_workstation.Live.StateStore.Closed.{finalize_decision-Closed}
use trading_workstation.Live.StateStore.{LiveStateStore, finalize_decision}
use trading_workstation.Live.Pipeline.Monad.{
  PendingApproval, Live, Caught, returned, failed, Step, pure, gets, proceed, ◌>>=◌, drop_pending,
  on_engine, of_result, write_if_stored, stored, kill_switch_active,
}
use trading_workstation.Live.Pipeline.Decisions.{
  ApprovalActionResult, record_decision, expire_one, expire_each, expire_pending_approvals, with_id,
  has_expired, check_actionable, actionable, find_pending, pop_found, pop_pending, claim, conclude,
  withdraw, submit_claim, final_state, was_approved, approved_quantity_of,
}
use trading_workstation.Live.Pipeline.Logs.{
  Fine, Fine-nothing, Fine-append, Fine-none, Ends, Logs, nothing, Leaves, before-Logs,
}
use trading_workstation.Live.Pipeline.Moving.{
  no_decision, IsSettled, moved-IsSettled, when_true, ids_of, moving, leaving, record_decision-Logs,
}

module _ {F : Type 0} where
  expire_one-Logs :
      (now : DateTime) (p : PendingApproval F) → Logs (when_true p.signal_id) (expire_one now p)
  unfolding expire_one drop_pending
  expire_one-Logs now p =
      let log = when_true p.signal_id in
      if_split (Logs log) (has_expired now p.expires_at) _ _
        (λ _.
          moving p.signal_id approval_expired now _ log
            (λ l e.
              before-Logs (record_decision p.signal_id l expired none now) _ log log
                (record_decision-Logs p.signal_id l expired none now
                  (moved-IsSettled l approval_expired refl e))
                (λ won s. refl) (λ won s. refl) (λ x. refl))
            (λ x. refl))
        (λ _ s st e. (st, e, Fine-nothing st st (λ id c. c)))

  expire_each-Logs :
      (now : DateTime) (ps : List (PendingApproval F)) → Logs ids_of (expire_each now ps)
  unfolding expire_each
  expire_each-Logs now [] s st e = (st, e, Fine-nothing st st (λ id c. c))
  expire_each-Logs now (p ∷ ps) s st e =
      first (expire_each-Logs now ps) (expire_one now p s) (expire_one-Logs now p s st e)
    where
      rest :
          (won : Bool) (mid : LiveStateStore F)
          → Fine (when_true p.signal_id (returned won)) st mid
          → (r : Caught (List ℕ) × Live F) → Ends ids_of mid r
          → Ends ids_of st (proceed (λ ids. pure (with_id won p.signal_id ids)) r)
      rest true mid f (returned ids, s2) (left, e2, g) =
          (left, e2, Fine-append (p.signal_id ∷ []) ids st mid left f g)
      rest false mid f (returned ids, s2) (left, e2, g) =
          (left, e2, Fine-append [] ids st mid left f g)
      rest won mid f (failed x, s2) (left, e2, g) =
          (left, e2, Fine-nothing st left (λ id c. g.keeps id (f.keeps id c)))

      first :
          Logs ids_of (expire_each now ps)
          → (r : Caught Bool × Live F) → Ends (when_true p.signal_id) st r
          → Ends ids_of st
              (proceed (λ won. expire_each now ps >>= λ ids. pure (with_id won p.signal_id ids)) r)
      first ih (returned won, s1) (mid, e1, f) =
          rest won mid f (expire_each now ps s1) (ih s1 mid e1)
      first ih (failed x, s1) (mid, e1, f) = (mid, e1, f)

  pub expire_pending_approvals-Logs :
      (now : DateTime) → Logs {F = F} ids_of (expire_pending_approvals now)
  unfolding expire_pending_approvals
  expire_pending_approvals-Logs now s st e = expire_each-Logs now s.pending_approvals s st e

  -- The check that precedes a decision may let approvals expire.
  pub check_actionable-Logs :
      (id : ℕ) (now : DateTime) → Logs {F = F} nothing (check_actionable id now)
  unfolding check_actionable
  check_actionable-Logs id now s st e =
      if_split (Ends nothing st) (kill_switch_active s) _ _
        (λ _. (st, e, Fine-nothing st st (λ id c. c)))
        (λ _. found (find_pending id s.pending_approvals))
    where
      done :
          {A : Type 0} (a : A) (r : Caught (List ℕ) × Live F)
          → Ends ids_of st r
          → Ends nothing st (proceed (λ _. pure a) r)
      done a (returned ids, s1) (left, e1, f) = (left, e1, Fine-none ids st left f)
      done a (failed x, s1) (left, e1, f) = (left, e1, f)

      found : (o : Option (PendingApproval F)) → Ends nothing st (actionable o id now s)
      found none = (st, e, Fine-nothing st st (λ id c. c))
      found (some p) =
          if_split (Ends nothing st) (has_expired now p.expires_at) _ _
            (λ _.
              done _ (expire_pending_approvals now s) (expire_pending_approvals-Logs now s st e))
            (λ _. (st, e, Fine-nothing st st (λ id c. c)))

  pop_pending-Leaves : (id : ℕ) → Leaves {F = F} (pop_pending id)
  unfolding pop_pending drop_pending
  pop_pending-Leaves id s = found (find_pending id s.pending_approvals)
    where
      found : (o : Option (PendingApproval F)) → (pop_found o id s).1.state_store ≡ s.state_store
      found none = refl
      found (some p) = refl

  -- the claim that a pair reports
  abbrev pub when_won : ℕ → Caught (Bool × PendingApproval F) → List ℕ
  when_won id (returned (true, p)) = id ∷ []
  when_won id (returned (false, p)) = []
  when_won id (failed e) = []

  pub claim-Logs :
      (id : ℕ) (state : SignalLifecycleState) (decision : Decision) (reason : Option ℕ)
      (now : DateTime)
      → IsSettled state
      → Logs (when_won id) (claim {F = F} id state decision reason now)
  unfolding claim
  claim-Logs id state decision reason now settled =
      leaving (pop_pending id) _ (when_won id) (pop_pending-Leaves id)
        (λ p.
          moving id state now _ (when_won id)
            (λ l e.
              before-Logs (record_decision id l decision reason now) (λ won. pure (won, p))
                (when_true id) (when_won id)
                (record_decision-Logs id l decision reason now (moved-IsSettled l state settled e))
                (λ won s. refl) (won_log p) (λ x. refl))
            (λ x. refl))
        (λ x. refl)
    where
      won_log :
          (p : PendingApproval F) (won : Bool) (s : Live F)
          → when_won id (returned (won, p)) ≡ when_true id (returned won)
      won_log p true s = refl
      won_log p false s = refl

  finalize-Logs :
      (id : ℕ) (l : SignalLifecycle) (quantity : Option ℕ) (result : ExecutionResult)
      → IsSettled l.state
      → Logs nothing
          (write_if_stored {F = F} (finalize_decision id l.state l.history quantity result))
  unfolding write_if_stored
  finalize-Logs id l quantity result settled s st e = (
    finalize_decision id l.state l.history quantity result st,
    ap (stored (finalize_decision id l.state l.history quantity result)) e,
    Fine-nothing st _ (λ other c.
        finalize_decision-Closed id l.state l.history quantity result settled other st c),
  )

  then_pure :
      {A B : Type 0} (m : Step F A) (b : B) → Logs nothing m → Logs nothing (m >>= λ _. pure b)
  then_pure m b h =
      before-Logs m (λ _. pure b) nothing nothing h (λ _ s. refl) (λ _ s. refl) (λ x. refl)

  module _ ⦃d : Double F⦄ (setup : Setup F) where
    on_engine-Leaves : {A : Type 0} (action : Action F A) → Leaves (on_engine action)
    unfolding on_engine
    on_engine-Leaves {A = A} action s = of (action s.engine)
      where
        of : (r : Result A × Engine F) → (of_result s r).1.state_store ≡ s.state_store
        of (ok a, e) = refl
        of (err x, e) = refl

    final_state-IsSettled : (o : JournalOutcome) → IsSettled (final_state o)
    final_state-IsSettled o = if_split IsSettled (was_approved o) _ _ (λ _. refl) (λ _. refl)

    withdraw-Logs : (id : ℕ) (now : DateTime) → Logs {F = F} no_decision (withdraw setup id now)
    unfolding withdraw
    withdraw-Logs id now =
        moving id risk_rejected now _ no_decision
          (λ l e.
            then_pure
              (write_if_stored (finalize_decision id l.state l.history none kill_switch_was_active))
              _
              (finalize-Logs id l none kill_switch_was_active
                (moved-IsSettled l risk_rejected refl e)))
          (λ x. refl)

    -- the write that ends a submission
    final_write :
        (id : ℕ) (journal : JournalEntry) (l : SignalLifecycle) (result : ApprovalActionResult)
        → IsSettled l.state
        → Logs {F = F} no_decision (
            gets (λ s. approved_quantity_of journal s.engine.store) >>= λ quantity.
            write_if_stored
              (finalize_decision id l.state l.history quantity (journal_outcome journal.outcome))
            >>= λ _. pure result)
    final_write id journal l result settled =
        leaving (gets (λ s. approved_quantity_of journal s.engine.store))
          (λ quantity.
            write_if_stored
              (finalize_decision id l.state l.history quantity (journal_outcome journal.outcome))
            >>= λ _. pure result)
          no_decision (λ s. refl)
          (λ quantity.
            then_pure
              (write_if_stored
                (finalize_decision id l.state l.history quantity (journal_outcome journal.outcome)))
              result (finalize-Logs id l quantity (journal_outcome journal.outcome) settled))
          (λ x. refl)

    submit_claim-Logs :
        (p : PendingApproval F) (now : DateTime) → Logs no_decision (submit_claim setup p now)
    unfolding submit_claim
    submit_claim-Logs p now =
        leaving (on_engine (submit_signal setup p.signal default_strategy_version now)) _
          no_decision (on_engine-Leaves (submit_signal setup p.signal default_strategy_version now))
          (λ journal.
            moving p.signal_id (final_state journal.outcome) now _ no_decision
              (λ l e. final_write p.signal_id journal l _ (
                moved-IsSettled l (final_state journal.outcome)
                  (final_state-IsSettled journal.outcome) e))
              (λ x. refl))
          (λ x. refl)

    pub conclude-Logs :
        (p : PendingApproval F) (now : DateTime) → Logs no_decision (conclude setup p now)
    unfolding conclude
    conclude-Logs p now =
        leaving (gets kill_switch_active)
          (λ active. if active then withdraw setup p.signal_id now else submit_claim setup p now)
          no_decision (λ s. refl)
          (λ active.
            if_split (Logs no_decision) active (withdraw setup p.signal_id now)
              (submit_claim setup p now) (λ _. withdraw-Logs p.signal_id now)
              (λ _. submit_claim-Logs p now))
          (λ x. refl)
