-- ===== src/Paper/Idempotent/Commits.antt =====
-- paper/engine.py: what a committed submission leaves in the tables, and what a later one finds.
use trading_workstation.Prelude.{
  ℕ, ◌≡◌, refl, sym, ap, ◌∙◌, Bool, true, not, Option, none, some, List, [], ◌∷◌, ◌++◌, any, ◌==◌,
  arith, Double, if◌then◌else◌,
}
use trading_workstation.Signal.{DateTime, Signal}
use trading_workstation.Risk.{RiskDecision, PositionSize}
use trading_workstation.Risk.Account.{Account}
use trading_workstation.Paper.Models.{
  JournalEntry, SignalRow, RiskDecisionRow, PaperOrder, Error, integrity_error,
  skipped_already_active,
}
use trading_workstation.Paper.Store.{
  Store, Written, wrote, known_signal, save_signal, save_order, save_risk_decision,
  save_journal_entry, find_journal_entry_by_signal_id,
}
use trading_workstation.Paper.Monad.{
  Engine, Result, ok, err, pure, raise, or_raise, gets, set_account, refresh_account, execute,
  transaction, ◌>>=◌,
}
use trading_workstation.Paper.Outcome.{
  Ok, Ok-at, then_known, if-Ok, pure-Ok, raise-Ok, then_gets, then_or_raise, then_get_account,
  then_new_id, then_execute, transaction-Ok,
}
use trading_workstation.Paper.Positions.{Setup}
use trading_workstation.Paper.Submit.{
  place_order, settle, catch, submit_unseen, submit_signal_transaction,
}
use trading_workstation.Paper.Books.Bars.{then_refresh}
use trading_workstation.Paper.Idempotent.{save_journal_entry_lem}

module _ {F : Type 0} where
  -- The signal has its row, and the account is there.
  pub record IsFiled (id : ℕ) (st : Store F) : Type 0 where
    pub row : known_signal id st ≡ true
    pub has_account : (a : Account F) × (st.account ≡ some a)

  -- What a commit leaves for the callers that come after it.
  pub record IsCommitted (id : ℕ) (j : JournalEntry) (st : Store F) : Type 0 where
    pub entry : find_journal_entry_by_signal_id id st ≡ some j
    pub filed : IsFiled id st

  known-append :
      (id : ℕ) (rows : List (SignalRow F)) (row : SignalRow F)
      → row.signal_id ≡ id
      → any (λ r. r.signal_id == id) (rows ++ (row ∷ [])) ≡ true
  known-append id [] row e = ground arith
  known-append id (r ∷ rows) row e = ground (arith, known-append id rows row)

  save_signal-IsFiled :
      (row : SignalRow F) (a : Account F) (st st' : Store F)
      → st.account ≡ some a
      → save_signal row st ≡ wrote st'
      → IsFiled row.signal_id st'
  unfolding save_signal
  save_signal-IsFiled row a st st' ha e = record {
    row = ground (arith, known-append row.signal_id st.signals row refl);
    has_account = (a, ground arith);
  }

  kept :
      {id : ℕ} (st st' : Store F)
      → st'.signals ≡ st.signals
      → st'.account ≡ st.account
      → IsFiled id st
      → IsFiled id st'
  kept {id} st st' same same_account h = record {
    row = ap (any (λ r. r.signal_id == id)) same ∙ h.row;
    has_account = (h.has_account.0, same_account ∙ h.has_account.1);
  }

  -- The writes after the signal's keep its row.
  abbrev Keeps : (Store F → Written F) → Type 0
  Keeps f = (id : ℕ) (st st' : Store F) → f st ≡ wrote st' → IsFiled id st → IsFiled id st'

  save_risk_decision-Keeps : (row : RiskDecisionRow F) → Keeps (save_risk_decision row)
  unfolding save_risk_decision
  save_risk_decision-Keeps row id st st' e h = kept st st' (ground arith) (ground arith) h

  save_order-Keeps : (order : PaperOrder F) → Keeps (save_order order)
  unfolding save_order
  save_order-Keeps order id st st' e h = kept st st' (ground arith) (ground arith) h

  save_journal_entry-Keeps : (j : JournalEntry) → Keeps (λ (st : Store F). save_journal_entry j st)
  unfolding save_journal_entry
  save_journal_entry-Keeps j id st st' e h = kept st st' (ground arith) (ground arith) h

module _ {F : Type 0} ⦃d : Double F⦄ (setup : Setup F) (signal : Signal F) (id : ℕ)
    (now : DateTime) where
  abbrev Placed : JournalEntry → Engine F → Type 0
  Placed j s = (j.signal_id ≡ id) × IsFiled id s.store

  place_order-Placed :
      (size : Option (PositionSize F)) (j : JournalEntry) (s : Engine F)
      → Placed j s
      → Ok (place_order setup signal id size now j s) Placed
  place_order-Placed none j s h = raise-Ok _ _ _
  place_order-Placed (some size) j s (same, h) =
      then_new_id _ _ _
        (then_execute _ _ _ _ λ st e. pure-Ok _ _ _ (same, save_order-Keeps _ id s.store st e h))

  settle-Placed :
      (decision : RiskDecision F) (active : Bool) (j : JournalEntry) (s : Engine F)
      → Placed j s
      → Ok (settle setup signal id decision active now j s) Placed
  unfolding settle
  settle-Placed decision active j s h =
      if-Ok Placed s (not decision.approved) (pure j)
        (if active
          then pure (record j { outcome = skipped_already_active })
          else place_order setup signal id decision.position_size now j)
        (λ refused. pure-Ok _ _ _ h)
        (λ approved.
          if-Ok Placed s active (pure (record j { outcome = skipped_already_active }))
            (place_order setup signal id decision.position_size now j) (λ busy. pure-Ok _ _ _ h)
            (λ free. place_order-Placed decision.position_size j s h))

  pub submit-IsCommitted :
      (version : ℕ) (s : Engine F)
      → Ok
          (submit_signal_transaction setup signal id version now s)
          λ j s'. IsCommitted id j s'.store
  unfolding submit_signal_transaction
  submit-IsCommitted version s = transaction-Ok _ _ _ (
      then_refresh _ _ _ λ a e0. then_execute _ _ _ _ λ st1 e1. then_get_account _ _ _ (
        then_or_raise _ _ _ _ _ λ decision e2. then_new_id _ _ _ (
          then_execute _ _ _ _ λ st2 e3. then_new_id _ _ _ (
            then_gets _ _ _ _ (
              then_known Placed _ _ _ _
                (settle-Placed decision _ _ _ (
                  refl,
                  save_risk_decision-Keeps _ id st1 st2 e3 (save_signal-IsFiled _ a _ st1 e0 e1),
                ))
                λ j s' (same, filed). then_execute _ _ _ _ λ st3 e4. pure-Ok _ _ _ (record {
                  entry = save_journal_entry_lem j id s'.store st3 e4 same;
                  filed = save_journal_entry-Keeps j id s'.store st3 e4 filed;
                }))))))

  -- The write of the signal's row fails, and the entry of the winner is the answer.
  pub submit_unseen-committed :
      (version : ℕ) (s : Engine F) (j : JournalEntry)
      → IsCommitted id j s.store
      → let r = submit_unseen setup signal id version now s in (r.0 ≡ ok j) × (r.1.store ≡ s.store)
  unfolding submit_signal_transaction transaction refresh_account gets or_raise set_account raise
      pure execute save_signal ◌>>=◌ find_journal_entry_by_signal_id
  submit_unseen-committed version s j h =
      let (a, ha) = h.filed.has_account in rw (ha, h.filed.row, h.entry) (refl, refl)

  pub catch-IsCommitted :
      (st : Store F) (r : Result JournalEntry × Engine F) (j : JournalEntry)
      → find_journal_entry_by_signal_id id st ≡ none
      → ((e : Error) → r.0 ≡ err e → r.1.store ≡ st)
      → Ok r (λ j s'. IsCommitted id j s'.store)
      → (catch setup id r).0 ≡ ok j
      → IsCommitted id j (catch setup id r).1.store
  unfolding gets or_raise raise pure ◌>>=◌
  catch-IsCommitted st (ok i, s) j unseen back h e =
      Ok-at (λ i s. IsCommitted id i s.store) (ok i, s) j h e
  catch-IsCommitted st (err integrity_error, s) j unseen back h e =
      let missing : find_journal_entry_by_signal_id id s.store ≡ none =
        ap (find_journal_entry_by_signal_id id) (back integrity_error refl) ∙ unseen in
      let raised_again : (catch setup id (err integrity_error, s)).0 ≡ err integrity_error =
        rw missing refl in
      cc (sym raised_again ∙ e)
  catch-IsCommitted st (err _, s) j unseen back h e = cc e
