-- ===== src/Paper/Keeps/Laws.antt =====
-- paper/store.py: a property of the tables that every statement of the engine keeps.
use trading_workstation.Prelude.{ℕ, ◌≡◌, some}
use trading_workstation.Risk.Account.{Account}
use trading_workstation.Paper.Models.{
  PaperOrder, PaperFill, Position, TradeRow, JournalEntry, SignalRow, RiskDecisionRow,
}
use trading_workstation.Paper.Store.{
  Store, Written, wrote, save_signal, save_risk_decision, save_order, update_order, save_fill,
  save_position, update_position, save_trade, save_journal_entry, update_journal_entry,
  find_journal_entry_by_signal_id, save_account, set_last_bar_timestamp,
}

-- `P` holds after the statement, if it held before and the statement did not raise.
abbrev pub IsKeptBy : {F : Type 0} → (Store F → Type 0) → (Store F → Written F) → Type 0
IsKeptBy {F} P f = (st st' : Store F) → f st ≡ wrote st' → P st → P st'

-- The engine updates an entry of the journal that it has found, and leaves its keys.
pub record IsStable {F : Type 0} (P : Store F → Type 0) : Type 0 where
  pub signals : (row : SignalRow F) → IsKeptBy P (save_signal row)
  pub decisions : (row : RiskDecisionRow F) → IsKeptBy P (save_risk_decision row)
  pub orders : (order : PaperOrder F) → IsKeptBy P (save_order order)
  pub fills_of_orders : (order : PaperOrder F) → IsKeptBy P (update_order order)
  pub fills : (fill : PaperFill F) → IsKeptBy P (save_fill fill)
  pub positions : (p : Position F) → IsKeptBy P (save_position p)
  pub updates : (p : Position F) → IsKeptBy P (update_position p)
  pub trades : (row : TradeRow F) → IsKeptBy P (save_trade row)
  pub entries : (j : JournalEntry) → IsKeptBy P (save_journal_entry j)
  pub journal :
      (id : ℕ) (j e : JournalEntry) (st : Store F)
      → find_journal_entry_by_signal_id id st ≡ some j
      → e.journal_entry_id ≡ j.journal_entry_id
      → e.signal_id ≡ j.signal_id
      → P st
      → P (update_journal_entry e st)
  pub accounts : (a : Account F) (st : Store F) → P st → P (save_account a st)
  pub cursors : (symbol ts : ℕ) (st : Store F) → P st → P (set_last_bar_timestamp symbol ts st)
