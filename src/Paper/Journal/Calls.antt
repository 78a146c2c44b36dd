-- ===== src/Paper/Journal/Calls.antt =====
-- paper/engine.py: any sequence of calls keeps the keys of the journal.
use mathlib.Core.Path.{subst}
use trading_workstation.Prelude.{◌≡◌, sym, List, Double, arith}
use trading_workstation.Paper.Store.{
  Store, Written, wrote, save_signal, save_risk_decision, save_order, update_order, save_fill,
  save_position, update_position, save_trade, save_account, set_last_bar_timestamp,
}
use trading_workstation.Paper.Monad.{Engine}
use trading_workstation.Paper.Positions.{Setup}
use trading_workstation.Paper.Books.Calls.{Call, perform_all}
use trading_workstation.Paper.Keeps.Laws.{IsStable, IsKeptBy}
use trading_workstation.Paper.Keeps.Calls.{perform_all-keeps}
use trading_workstation.Paper.Journal.{
  IsKeyed, IsKeyedStore, save_journal_entry-IsKeyed, update_journal_entry-IsKeyed,
}

module _ {F : Type 0} where
  -- a statement that writes another table
  elsewhere :
      (f : Store F → Written F)
      → ((st st' : Store F) → f st ≡ wrote st' → st'.journal ≡ st.journal)
      → IsKeptBy IsKeyedStore f
  elsewhere f same st st' e k = subst IsKeyed (sym (same st st' e)) k

  IsKeyed-IsStable : IsStable {F = F} IsKeyedStore
  unfolding save_signal save_risk_decision save_order update_order save_fill save_position
      update_position save_trade save_account set_last_bar_timestamp
  IsKeyed-IsStable = record {
    signals = λ row. elsewhere _ λ st st' e. ground arith;
    decisions = λ row. elsewhere _ λ st st' e. ground arith;
    orders = λ order. elsewhere _ λ st st' e. ground arith;
    fills_of_orders = λ order. elsewhere _ λ st st' e. ground arith;
    fills = λ fill. elsewhere _ λ st st' e. ground arith;
    positions = λ p. elsewhere _ λ st st' e. ground arith;
    updates = λ p. elsewhere _ λ st st' e. ground arith;
    trades = λ row. elsewhere _ λ st st' e. ground arith;
    entries = save_journal_entry-IsKeyed;
    journal = update_journal_entry-IsKeyed;
    accounts = λ a st k. k;
    cursors = λ symbol ts st k. k;
  }

module _ {F : Type 0} ⦃d : Double F⦄ (setup : Setup F) where
  -- Whatever calls are made, those that raise included: if no two entries of the journal share their
  -- id or their signal before, none do after. So no signal ever has two entries.
  pub perform_all-IsKeyed :
      (cs : List (Call F)) (s : Engine F)
      → IsKeyed s.store.journal
      → IsKeyed (perform_all setup cs s).store.journal
  perform_all-IsKeyed cs s k = perform_all-keeps IsKeyedStore IsKeyed-IsStable setup cs s k
