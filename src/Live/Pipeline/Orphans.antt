-- ===== src/Live/Pipeline/Orphans.antt =====
-- live/pipeline.py: after the start, no claim is left without a result.
use mathlib.Core.Path.{subst}
use trading_workstation.Prelude.{
  ◌≡◌, refl, sym, ap, ◌∙◌, true, false, some, List, [], ◌∷◌, All, any,
}
use trading_workstation.Signal.{DateTime}
use trading_workstation.Paper.Store.{Store, find_journal_entry_by_signal_id}
use trading_workstation.Live.Approval.{human_approved}
use trading_workstation.Live.StateStore.Models.{PendingApprovalRecord}
use trading_workstation.Live.StateStore.{
  LiveStateStore, list_pending, list_orphaned_claims, finalize_decision, is_state,
}
use trading_workstation.Live.Pipeline.Monad.{
  Live, Caught, proceed, returned, Step, ◌>>◌, put_lifecycle, stored,
}
use trading_workstation.Live.Pipeline.Signals.{put_pending}
use trading_workstation.Live.Pipeline.Outcomes.{
  Pairwise, Pairwise-map, TellsOf, TellsOfJournal, orphan_result-TellsOf, SameRequest, named,
  BecomesBy, nothing_claimed, finalized-Pairwise,
}
use trading_workstation.Paper.Monad.{Engine}
use trading_workstation.Live.Pipeline.Startup.{
  lifecycle_of_record, restored, restore_each, reconcile_one, reconcile_each, rows_of,
  restore_pending_approvals, reconcile_orphaned_claims, start,
}
use trading_workstation.Live.Pipeline.Claims.{
  is_claimed, claims, Covered, Closing, reconcile_one-Closing, claims-Covered-by, claims-claimed,
  no_claims, finalize_decision-Covered,
}

module _ {F : Type 0} where
  -- What a start makes of one row of the table: nothing, if its signal has no claim, and what the
  -- journal tells, if it is a claim.
  abbrev pub Settles :
      List (PendingApprovalRecord F)
      → Store F
      → PendingApprovalRecord F
      → PendingApprovalRecord F
      → Type 0
  Settles orphans st x y =
      SameRequest x y
      × (is_state x.state human_approved ≡ true → TellsOfJournal st y)
      × (any (named x.signal_id) orphans ≡ false → y ≡ x)

  -- The step returned, the engine is as it was, no claim is left, and each row is settled.
  abbrev pub ClosesAll : Live F → LiveStateStore F → Caught (Unit {0}) × Live F → Type 0
  ClosesAll s st (r, s1) =
      (r ≡ returned tt)
      × (s1.engine ≡ s.engine)
      × (left : LiveStateStore F) × (s1.state_store ≡ some left)
      × (list_orphaned_claims left ≡ [])
      × Pairwise (Settles (list_orphaned_claims st) s.engine.store) st.pending_approvals
          left.pending_approvals

  -- The same, for the rows of which the claims are still open.
  abbrev ClosesThese :
      List (PendingApprovalRecord F)
      → Live F
      → LiveStateStore F
      → Caught (Unit {0}) × Live F
      → Type 0
  ClosesThese rs s st (r, s1) =
      (r ≡ returned tt)
      × (s1.engine ≡ s.engine)
      × (left : LiveStateStore F) × (s1.state_store ≡ some left)
      × (list_orphaned_claims left ≡ [])
      × Pairwise (BecomesBy rs s.engine.store) st.pending_approvals left.pending_approvals

  then_rest :
      {A B : Type 0} (m : Step F A) (a : A) (k : Step F B) (s : Live F)
      → (m s).0 ≡ returned a
      → (m >> k) s ≡ k (m s).1
  then_rest m a k s e = ap (λ r. proceed (λ _. k) (r, (m s).1)) e

  -- The result that is written tells of the journal's entry, under the id of the claim.
  Closing-TellsOfJournal :
      (r x : PendingApprovalRecord F) (s s1 : Live F) (c : Closing r s s1)
      → x.signal_id ≡ r.signal_id
      → TellsOfJournal s.engine.store (record x {
        state = c.lifecycle.state;
        history = c.lifecycle.history;
        approved_quantity = c.quantity;
        final_execution_result = some c.result;
      })
  Closing-TellsOfJournal r x s s1 c same =
      let row : PendingApprovalRecord F = record x {
        state = c.lifecycle.state;
        history = c.lifecycle.history;
        approved_quantity = c.quantity;
        final_execution_result = some c.result;
      } in
      subst (λ id. TellsOf (find_journal_entry_by_signal_id id s.engine.store) s.engine.store row)
        (sym same)
        (orphan_result-TellsOf (find_journal_entry_by_signal_id r.signal_id s.engine.store) s row
          c.state_is c.quantity_is (ap some c.result_is))

  reconcile_each-ClosesThese :
      (now : DateTime) (rs : List (PendingApprovalRecord F)) (s : Live F) (st : LiveStateStore F)
      → s.state_store ≡ some st
      → All (λ r. is_claimed r.state ≡ true) rs
      → Covered rs st.pending_approvals
      → ClosesThese rs s st (reconcile_each now rs s)
  unfolding reconcile_each list_orphaned_claims claims is_claimed finalize_decision
  reconcile_each-ClosesThese now [] s st e claimed c = (
    refl,
    refl,
    st,
    e,
    no_claims st.pending_approvals c,
    nothing_claimed s.engine.store st.pending_approvals,
  )
  reconcile_each-ClosesThese now (r ∷ rs) s st e (first, others) c =
      let (done, closing) = reconcile_one-Closing now r s first in
      let s1 = (reconcile_one now r s).1 in
      let write =
        finalize_decision r.signal_id closing.lifecycle.state closing.lifecycle.history
          closing.quantity closing.result in
      let e1 : s1.state_store ≡ some (write st) = closing.written ∙ ap (stored write) e in
      let (a, b, left, d, f, rows) = reconcile_each-ClosesThese now rs s1 (write st) e1 others (
        finalize_decision-Covered r rs st closing.lifecycle closing.quantity closing.result
          closing.unclaimed c) in
      subst (ClosesThese (r ∷ rs) s st)
        (sym (then_rest (reconcile_one now r) tt (reconcile_each now rs) s done))
        (
          a,
          b ∙ closing.same_engine,
          left,
          d,
          f,
          finalized-Pairwise s.engine.store r rs closing.lifecycle.state closing.lifecycle.history
              closing.quantity closing.result st.pending_approvals left.pending_approvals
              (λ x same. Closing-TellsOfJournal r x s s1 closing same)
              (subst
                (λ (g : Engine F).
                  Pairwise (BecomesBy rs g.store) (write st).pending_approvals
                    left.pending_approvals)
                closing.same_engine rows),
        )

  restore_each-keeps :
      (rs : List (PendingApprovalRecord F)) (s : Live F)
      → ((restore_each rs s).0 ≡ returned tt)
        × ((restore_each rs s).1.engine ≡ s.engine)
        × ((restore_each rs s).1.state_store ≡ s.state_store)
  unfolding restore_each
  restore_each-keeps [] s = (refl, refl, refl)
  restore_each-keeps (r ∷ rs) s = restore_each-keeps rs (record s {
    pending_approvals = put_pending (restored r) s.pending_approvals;
    lifecycles = put_lifecycle (lifecycle_of_record r) s.lifecycles;
  })

  claims_of :
      (s : Live F) (st : LiveStateStore F)
      → s.state_store ≡ some st
      → rows_of list_orphaned_claims s.state_store ≡ claims st.pending_approvals
  unfolding list_orphaned_claims claims is_claimed
  claims_of s st e = ap (rows_of list_orphaned_claims) e

  -- Once all claims are closed, every row is settled.
  ClosesThese-ClosesAll :
      (s : Live F) (st : LiveStateStore F) (q : Caught (Unit {0}) × Live F)
      → ClosesThese (claims st.pending_approvals) s st q
      → ClosesAll s st q
  unfolding list_orphaned_claims claims is_claimed
  ClosesThese-ClosesAll s st q (a, b, left, d, f, rows) = (
    a,
    b,
    left,
    d,
    f,
    Pairwise-map
        (λ x.
          is_claimed x.state ≡ true → any (named x.signal_id) (claims st.pending_approvals) ≡ true)
        (BecomesBy (claims st.pending_approvals) s.engine.store)
        (Settles (list_orphaned_claims st) s.engine.store)
        (λ x y covered (same, kept, told). (same, (λ c. told (covered c)), kept))
        st.pending_approvals left.pending_approvals
        (claims-Covered-by (claims st.pending_approvals) st.pending_approvals (λ id p. p)) rows,
  )

  reconcile_orphaned_claims-ClosesAll :
      (s : Live F) (st : LiveStateStore F) (now : DateTime)
      → s.state_store ≡ some st
      → ClosesAll s st (reconcile_orphaned_claims now s)
  unfolding reconcile_orphaned_claims
  reconcile_orphaned_claims-ClosesAll s st now e =
      subst (λ rows. ClosesAll s st (reconcile_each now rows s)) (sym (claims_of s st e))
        (ClosesThese-ClosesAll s st (reconcile_each now (claims st.pending_approvals) s) (
          reconcile_each-ClosesThese now (claims st.pending_approvals) s st e
            (claims-claimed st.pending_approvals)
            (claims-Covered-by (claims st.pending_approvals) st.pending_approvals (λ id p. p))))

  -- The start of a pipeline with a store never fails, and it does not touch the engine: no order is
  -- made. No approval is left in the state HUMAN_APPROVED, in which a crash leaves a claim, and no row
  -- is lost. Each row that was in it says afterwards what became of its claim: EXECUTED, the
  -- journal's outcome and the approved quantity, where the journal has an approved entry of the
  -- signal; RISK_REJECTED and the outcome where it was not approved; RISK_REJECTED, as abandoned,
  -- where there is no entry. The rows of signals without a claim are as they were.
  pub start-ClosesAll :
      (s : Live F) (st : LiveStateStore F) (now : DateTime)
      → s.state_store ≡ some st
      → ClosesAll s st (start now s)
  unfolding start restore_pending_approvals
  start-ClosesAll s st now e =
      let (done, engine, store) = restore_each-keeps (rows_of list_pending s.state_store) s in
      let s1 = (restore_pending_approvals s).1 in
      let (a, b, left, d, f, rows) = reconcile_orphaned_claims-ClosesAll s1 st now (store ∙ e) in
      subst (ClosesAll s st)
        (sym (then_rest restore_pending_approvals tt (reconcile_orphaned_claims now) s done))
        (
          a,
          b ∙ engine,
          left,
          d,
          f,
          subst
              (λ (g : Engine F).
                Pairwise (Settles (list_orphaned_claims st) g.store) st.pending_approvals
                  left.pending_approvals)
              engine rows,
        )
