-- ===== src/Paper/Books/Writes.antt =====
-- What each write to the store does to the tables of trades and positions.
use trading_workstation.Prelude.{
  ℕ, ◌≡◌, refl, ◌∙◌, true, Option, none, some, [], ◌∷◌, ◌++◌, arith, any, Double,
}
use trading_workstation.Signal.{Signal}
use trading_workstation.Risk.Account.{Account}
use trading_workstation.Backtesting.Execution.{OpenPosition}
use trading_workstation.Paper.Models.{
  PaperOrder, PaperFill, Position, TradeRow, JournalEntry, SignalRow, RiskDecisionRow,
}
use trading_workstation.Paper.Store.{
  Store, wrote, save_fill, update_order, save_position, update_position, save_trade, save_order,
  save_signal, save_risk_decision, save_journal_entry, update_journal_entry,
  find_journal_entry_by_signal_id, get_signal, without, may_update_position,
}
use trading_workstation.Paper.Monad.{Engine, Action, pure, modify_store, ◌>>=◌}
use trading_workstation.Paper.Outcome.{
  Ok, bind-Ok, then_gets, then_or_raise, pure-Ok, modify_store-Ok,
}
use trading_workstation.Paper.Positions.{to_open_position, load_open_position, update_journal}
use trading_workstation.Paper.Books.{Agrees}

module _ {F : Type 0} where
  -- A write that touches neither table, nor the stored account.
  pub record Same (st st' : Store F) : Type 0 where
    pub same_trades : st'.trades ≡ st.trades
    pub same_positions : st'.positions ≡ st.positions
    pub same_account : st'.account ≡ st.account

  pub save_fill-Same :
      (x : PaperFill F) (st st' : Store F) → save_fill x st ≡ wrote st' → Same st st'
  unfolding save_fill
  save_fill-Same x st st' e = ground arith

  pub update_order-Same :
      (x : PaperOrder F) (st st' : Store F) → update_order x st ≡ wrote st' → Same st st'
  unfolding update_order
  update_order-Same x st st' e = ground arith

  pub save_position_lem :
      (x : Position F) (st st' : Store F)
      → save_position x st ≡ wrote st'
      → (st'.trades ≡ st.trades) × (st'.positions ≡ st.positions ++ (x ∷ []))
  unfolding save_position
  save_position_lem x st st' e = ground arith

  pub update_position_lem :
      (x : Position F) (st st' : Store F)
      → update_position x st ≡ wrote st'
      → (any (may_update_position x.position_id) st.positions ≡ true)
        × (st'.trades ≡ st.trades)
        × (st'.positions ≡ without (may_update_position x.position_id) st.positions ++ (x ∷ []))
  unfolding update_position
  update_position_lem x st st' e = ground arith

  pub save_trade_lem :
      (x : TradeRow F) (st st' : Store F)
      → save_trade x st ≡ wrote st'
      → (st'.trades ≡ st.trades ++ (x ∷ [])) × (st'.positions ≡ st.positions)
  unfolding save_trade
  save_trade_lem x st st' e = ground arith

  pub save_order-Same :
      (x : PaperOrder F) (st st' : Store F) → save_order x st ≡ wrote st' → Same st st'
  unfolding save_order
  save_order-Same x st st' e = ground arith

  pub save_signal-Same :
      (x : SignalRow F) (st st' : Store F) → save_signal x st ≡ wrote st' → Same st st'
  unfolding save_signal
  save_signal-Same x st st' e = ground arith

  pub save_risk_decision-Same :
      (x : RiskDecisionRow F) (st st' : Store F) → save_risk_decision x st ≡ wrote st' → Same st st'
  unfolding save_risk_decision
  save_risk_decision-Same x st st' e = ground arith

  pub save_journal_entry-Same :
      (x : JournalEntry) (st st' : Store F) → save_journal_entry x st ≡ wrote st' → Same st st'
  unfolding save_journal_entry
  save_journal_entry-Same x st st' e = ground arith

  pub Same-refl : (st : Store F) → Same st st
  Same-refl st = record { same_trades = refl; same_positions = refl; same_account = refl }

  after_journal-Ok :
      (o : Option JournalEntry) (change : JournalEntry → JournalEntry)
      (Q : Unit {0} → Engine F → Type 0) (s : Engine F)
      → ((st : Store F) → Same s.store st → Q tt (record s { store = st }))
      → Ok
          (elim o as (λ x. Action F (Unit {0})) [
            | none ↦ pure tt
            | some j ↦ modify_store (update_journal_entry (change j))
          ]
            s)
          Q
  unfolding update_journal_entry
  after_journal-Ok none change Q s h = pure-Ok _ _ _ (h s.store (Same-refl s.store))
  after_journal-Ok (some j) change Q s h =
      modify_store-Ok _ _ _
        (h _ (record { same_trades = refl; same_positions = refl; same_account = refl }))

  pub Same-trans : (a b c : Store F) → Same a b → Same b c → Same a c
  Same-trans a b c h k = record {
    same_trades = k.same_trades ∙ h.same_trades;
    same_positions = k.same_positions ∙ h.same_positions;
    same_account = k.same_account ∙ h.same_account;
  }

  pub update_journal-Ok :
      (id : ℕ) (change : JournalEntry → JournalEntry) (Q : Unit {0} → Engine F → Type 0)
      (s : Engine F)
      → ((st : Store F) → Same s.store st → Q tt (record s { store = st }))
      → Ok (update_journal id change s) Q
  unfolding update_journal
  update_journal-Ok id change Q s h =
      then_gets _ _ _ _ (after_journal-Ok (find_journal_entry_by_signal_id id s.store) change Q s h)

  pub then_load :
      {B : Type 0} (Q : B → Engine F → Type 0) (s : Engine F) (p : Position F)
      (k : OpenPosition F → Action F B)
      → ((signal : Signal F)
          → get_signal p.signal_id s.store ≡ some signal
          → Ok (k (to_open_position p signal) s) Q)
      → Ok ((load_open_position p >>= k) s) Q
  unfolding load_open_position
  then_load Q s p k h =
      bind-Ok (load_open_position p) k Q s
        (then_gets _ _ _ _ (then_or_raise _ _ _ _ _ λ signal e. pure-Ok _ _ _ (h signal e)))

module _ {F : Type 0} ⦃d : Double F⦄ where
  pub Same-Agrees : (a : Account F) (st st' : Store F) → Same st st' → Agrees a st → Agrees a st'
  Same-Agrees a st st' e h = record {
    pnl = rw e.same_trades h.pnl;
    trades = rw e.same_trades h.trades;
    positions = rw e.same_positions h.positions;
  }
