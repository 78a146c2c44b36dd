-- ===== src/Live/Pipeline/Claims.antt =====
-- live/pipeline.py: the claims in a table of approvals, and the closing of one.
use trading_workstation.Prelude.{
  ℕ, ◌≡◌, refl, sym, ap, ◌∙◌, Bool, true, false, ◌||◌, Option, none, some, List, [], ◌∷◌, All, any,
  ◌==◌, ==_refl, if_split, Bool-cases, inl, inr,
}
use trading_workstation.Signal.{DateTime}
use trading_workstation.Paper.Models.{JournalEntry}
use trading_workstation.Paper.Store.{find_journal_entry_by_signal_id}
use trading_workstation.Live.Approval.{
  SignalLifecycleState, signal_generated, critic_rejected, risk_approved, risk_rejected,
  ai_explained, pending_human_approval, human_approved, human_rejected, approval_expired, executed,
  SignalLifecycle, transition_to, is_member, legal_transitions,
}
use trading_workstation.Live.StateStore.Models.{PendingApprovalRecord, ExecutionResult}
use trading_workstation.Live.StateStore.{
  LiveStateStore, finalize_decision, is_state, rows_where, update_where,
}
use trading_workstation.Live.Pipeline.Monad.{
  Live, returned, transition, lifecycle_of, put_lifecycle, write_if_stored, stored,
}
use trading_workstation.Live.Pipeline.Decisions.{was_approved}
use trading_workstation.Live.Pipeline.Outcomes.{==_flip, named}
use trading_workstation.Live.Pipeline.Startup.{lifecycle_of_record, orphan_result, reconcile_one}

unfoldable pub is_claimed : SignalLifecycleState → Bool
is_claimed state = is_state state human_approved

claimed_state : (s : SignalLifecycleState) → is_claimed s ≡ true → s ≡ human_approved
unfolding is_claimed
claimed_state signal_generated e = cc
claimed_state critic_rejected e = cc
claimed_state risk_approved e = cc
claimed_state risk_rejected e = cc
claimed_state ai_explained e = cc
claimed_state pending_human_approval e = cc
claimed_state human_approved e = refl
claimed_state human_rejected e = cc
claimed_state approval_expired e = cc
claimed_state executed e = cc

-- A result of a claim may follow it, and is another state.
abbrev FollowsClaim : SignalLifecycleState → Type 0
FollowsClaim s =
    (is_member s (legal_transitions true human_approved) ≡ true) × (is_claimed s ≡ false)

put_lifecycle-found :
    (l : SignalLifecycle) (ls : List SignalLifecycle)
    → lifecycle_of l.signal_id (put_lifecycle l ls) ≡ some l
put_lifecycle-found l [] = rw (==_refl l.signal_id) refl
put_lifecycle-found l (x ∷ xs) = elim (Bool-cases (x.signal_id == l.signal_id)) [
  | inl e ↦ rw e (rw (==_refl l.signal_id) refl)
  | inr e ↦ rw e (rw e (put_lifecycle-found l xs))
]

or_true : (b : Bool) {c : Bool} → c ≡ true → (b || c) ≡ true
or_true true e = refl
or_true false e = e

module _ {F : Type 0} where
  orphan_result-follows :
      (o : Option JournalEntry) (s : Live F) → FollowsClaim (orphan_result o s).0
  unfolding is_claimed
  orphan_result-follows none s = (refl, refl)
  orphan_result-follows (some j) s =
      if_split FollowsClaim (was_approved j.outcome) _ _ (λ _. (refl, refl)) (λ _. (refl, refl))

  -- What closing one claim does: the row of its signal gets a state that is no claim.
  pub record Closing (r : PendingApprovalRecord F) (s s1 : Live F) : Type 0 where
    pub lifecycle : SignalLifecycle
    pub quantity : Option ℕ
    pub result : ExecutionResult
    pub state_is :
        lifecycle.state
        ≡ (orphan_result (find_journal_entry_by_signal_id r.signal_id s.engine.store) s).0
    pub quantity_is :
        quantity ≡ (orphan_result (find_journal_entry_by_signal_id r.signal_id s.engine.store) s).1
    pub result_is :
        result ≡ (orphan_result (find_journal_entry_by_signal_id r.signal_id s.engine.store) s).2
    pub unclaimed : is_claimed lifecycle.state ≡ false
    pub same_engine : s1.engine ≡ s.engine
    pub written :
        s1.state_store
        ≡ stored
            (finalize_decision r.signal_id lifecycle.state lifecycle.history quantity result)
            s.state_store

  pub reconcile_one-Closing :
      (now : DateTime) (r : PendingApprovalRecord F) (s : Live F)
      → is_claimed r.state ≡ true
      → ((reconcile_one now r s).0 ≡ returned tt) × Closing r s (reconcile_one now r s).1
  unfolding reconcile_one transition transition_to write_if_stored
  reconcile_one-Closing now r s claimed =
      let o = find_journal_entry_by_signal_id r.signal_id s.engine.store in
      let (legal, other) = orphan_result-follows o s in
      let l = lifecycle_of_record r in
      let found = put_lifecycle-found l s.lifecycles in
      let legal_here : is_member (orphan_result o s).0 (legal_transitions true r.state) ≡ true =
        ap (λ x. is_member (orphan_result o s).0 (legal_transitions true x))
          (claimed_state r.state claimed)
        ∙ legal in
      rw (found, legal_here)
        (
          refl,
          record {
            lifecycle = record l {
              state = (orphan_result o s).0;
              history = ((orphan_result o s).0, now) ∷ l.history;
            };
            quantity = (orphan_result o s).1;
            result = (orphan_result o s).2;
            state_is = refl;
            quantity_is = refl;
            result_is = refl;
            unclaimed = other;
            same_engine = refl;
            written = refl;
          },
        )

  -- Each claim of the table is one of the given rows, by its id.
  abbrev pub Covered : List (PendingApprovalRecord F) → List (PendingApprovalRecord F) → Type 0
  Covered rs = All (λ x. is_claimed x.state ≡ true → any (named x.signal_id) rs ≡ true)

  unfoldable pub claims : List (PendingApprovalRecord F) → List (PendingApprovalRecord F)
  claims = rows_where (λ r. is_claimed r.state)

  pub claims-Covered-by :
      (rs table : List (PendingApprovalRecord F))
      → ((id : ℕ) → any (named id) (claims table) ≡ true → any (named id) rs ≡ true)
      → Covered rs table
  unfolding claims
  claims-Covered-by rs [] h = tt
  claims-Covered-by rs (x ∷ xs) h =
      (λ e. h x.signal_id (here e), claims-Covered-by rs xs (λ id p. h id (later id p)))
    where
      here : is_claimed x.state ≡ true → any (named x.signal_id) (claims (x ∷ xs)) ≡ true
      here e = rw e (rw (==_refl x.signal_id) refl)

      later : (id : ℕ) → any (named id) (claims xs) ≡ true → any (named id) (claims (x ∷ xs)) ≡ true
      later id p =
          if_split (λ (rows : List (PendingApprovalRecord F)). any (named id) rows ≡ true)
            (is_claimed x.state) _ _ (λ _. or_true (x.signal_id == id) p) (λ _. p)

  pub claims-claimed :
      (table : List (PendingApprovalRecord F)) → All (λ r. is_claimed r.state ≡ true) (claims table)
  unfolding claims
  claims-claimed [] = tt
  claims-claimed (x ∷ xs) =
      if_split (All (λ r. is_claimed r.state ≡ true)) (is_claimed x.state) _ _
        (λ e. (e, claims-claimed xs)) (λ _. claims-claimed xs)

  pub no_claims : (table : List (PendingApprovalRecord F)) → Covered [] table → claims table ≡ []
  unfolding claims
  no_claims [] c = refl
  no_claims (x ∷ xs) c =
      if_split (λ rows. rows ≡ []) (is_claimed x.state) _ _ (λ e. cc (c.0 e))
        (λ _. no_claims xs c.1)

  Covered-update :
      (r : PendingApprovalRecord F) (rs table : List (PendingApprovalRecord F))
      (update : PendingApprovalRecord F → PendingApprovalRecord F)
      → ((x : PendingApprovalRecord F) → is_claimed (update x).state ≡ false)
      → Covered (r ∷ rs) table
      → Covered rs (update_where (λ x. x.signal_id == r.signal_id) update table)
  Covered-update r rs [] update h c = tt
  Covered-update r rs (x ∷ xs) update h c = (
    if_split
        (λ (y : PendingApprovalRecord F).
          is_claimed y.state ≡ true → any (named y.signal_id) rs ≡ true)
        (x.signal_id == r.signal_id) _ _ (λ _ e. cc (h x))
        (λ apart e.
          ap (λ b. b || any (named x.signal_id) rs)
            (sym (==_flip x.signal_id r.signal_id false apart))
          ∙ c.0 e),
    Covered-update r rs xs update h c.1,
  )

  pub finalize_decision-Covered :
      (r : PendingApprovalRecord F) (rs : List (PendingApprovalRecord F)) (st : LiveStateStore F)
      (l : SignalLifecycle) (quantity : Option ℕ) (result : ExecutionResult)
      → is_claimed l.state ≡ false
      → Covered (r ∷ rs) st.pending_approvals
      → Covered rs
          (finalize_decision r.signal_id l.state l.history quantity result st).pending_approvals
  unfolding finalize_decision
  finalize_decision-Covered r rs st l quantity result other c =
      Covered-update r rs st.pending_approvals _ (λ x. other) c
