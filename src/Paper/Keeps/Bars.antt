-- ===== src/Paper/Keeps/Bars.antt =====
-- paper/engine.py: `process_bar` and `close_at_end_of_data` keep what every statement keeps.
use trading_workstation.Prelude.{ℕ, Bool, true, Option, none, some, Double}
use trading_workstation.Backtesting.Execution.{Bar, end_of_data}
use trading_workstation.Paper.Models.{PaperOrder, Position}
use trading_workstation.Paper.Store.{Store, save_account}
use trading_workstation.Paper.Monad.{Action, pure, modify_store, get_account, ◌>>=◌, ◌>>◌}
use trading_workstation.Paper.Keeps.{
  Keeps, bind-Keeps, pure-Keeps, raise-Keeps, gets-Keeps, get_account-Keeps, set_account-Keeps,
  modify_store-Keeps, if-Keeps, transaction-Keeps, refresh_account-Keeps,
}
use trading_workstation.Paper.Positions.{Setup, close_open_position}
use trading_workstation.Paper.Bars.{
  BarOrder, new_bar, duplicate_bar, older_bar, try_fill, manage, trade_bar, persist, advance_bar,
  handle, bar_step, process_bar, close_at_end_of_data,
}
use trading_workstation.Paper.Keeps.Laws.{IsStable}
use trading_workstation.Paper.Keeps.Methods.{fill-Keeps, close-Keeps, process-Keeps}

module _ {F : Type 0} ⦃d : Double F⦄ (P : Store F → Type 0) (law : IsStable P)
    (setup : Setup F) where
  try_fill-Keeps :
      (o : Option (PaperOrder F)) (b : Bar F) (allow : Bool) → Keeps P (try_fill setup o b allow)
  try_fill-Keeps none b allow = pure-Keeps _ _
  try_fill-Keeps (some order) b allow =
      if-Keeps _ _ _ _
        (bind-Keeps _ _ _ (fill-Keeps P law setup order b)
          λ p. bind-Keeps _ _ _ (process-Keeps P law setup p b) λ u. pure-Keeps _ _)
        (pure-Keeps _ _)

  manage-Keeps :
      (o : Option (Position F)) (symbol : ℕ) (b : Bar F) (allow : Bool)
      → Keeps P (manage setup o symbol b allow)
  manage-Keeps none symbol b allow =
      bind-Keeps _ _ _ (gets-Keeps _ _) λ order. try_fill-Keeps order b allow
  manage-Keeps (some p) symbol b allow =
      bind-Keeps _ _ _ (process-Keeps P law setup p b) λ u. pure-Keeps _ _

  trade_bar-Keeps :
      (symbol : ℕ) (b : Bar F) (fresh allow : Bool) → Keeps P (trade_bar setup symbol b fresh allow)
  unfolding trade_bar
  trade_bar-Keeps symbol b fresh allow =
      if-Keeps _ _ _ _ (bind-Keeps _ _ _ (gets-Keeps _ _) λ o. manage-Keeps o symbol b allow)
        (pure-Keeps _ _)

  advance_bar-Keeps :
      (symbol : ℕ) (b : Bar F) (fresh allow : Bool)
      → Keeps P (advance_bar setup symbol b fresh allow)
  unfolding advance_bar persist
  advance_bar-Keeps symbol b fresh allow = bind-Keeps _ _ _ (get_account-Keeps _) λ account.
      bind-Keeps _ _ _ (set_account-Keeps _ _) λ u1.
        bind-Keeps _ _ _ (trade_bar-Keeps symbol b fresh allow) λ halted.
          bind-Keeps _ _ _ (get_account-Keeps _) λ later.
            bind-Keeps _ _ _ (modify_store-Keeps P _ (law.accounts later)) λ u2.
              bind-Keeps _ _ _ (modify_store-Keeps P _ (law.cursors symbol _)) λ u3. pure-Keeps _ _

  handle-Keeps :
      (o : BarOrder) (symbol : ℕ) (b : Bar F) (fresh allow : Bool)
      → Keeps P (handle setup o symbol b fresh allow)
  handle-Keeps duplicate_bar symbol b fresh allow = pure-Keeps _ _
  handle-Keeps older_bar symbol b fresh allow = raise-Keeps _ _ _
  handle-Keeps new_bar symbol b fresh allow = advance_bar-Keeps symbol b fresh allow

  pub process_bar-Keeps :
      (symbol : ℕ) (b : Bar F) (fresh allow : Bool)
      → Keeps P (process_bar setup symbol b fresh allow)
  unfolding process_bar bar_step
  process_bar-Keeps symbol b fresh allow = transaction-Keeps _ _ (
      bind-Keeps _ _ _ (refresh_account-Keeps _)
        λ u. bind-Keeps _ _ _ (gets-Keeps _ _) λ last. handle-Keeps _ symbol b fresh allow)

  end-Keeps :
      (o : Option (Position F)) (b : Bar F)
      → Keeps P (elim o as (λ x. Action F (Unit {0})) [
        | none ↦ pure tt
        | some p ↦ (do
          close_open_position setup p b.close b.timestamp end_of_data true
          account ← get_account
          modify_store (save_account account))
      ])
  end-Keeps none b = pure-Keeps _ _
  end-Keeps (some p) b = bind-Keeps _ _ _ (close-Keeps P law setup p _ _ _ _) λ u.
      bind-Keeps _ _ _ (get_account-Keeps _)
        λ account. modify_store-Keeps P _ (law.accounts account)

  pub close_at_end-Keeps : (symbol : ℕ) (b : Bar F) → Keeps P (close_at_end_of_data setup symbol b)
  unfolding close_at_end_of_data
  close_at_end-Keeps symbol b = transaction-Keeps _ _ (
      bind-Keeps _ _ _ (refresh_account-Keeps _)
        λ u. bind-Keeps _ _ _ (gets-Keeps _ _) λ o. end-Keeps o b)
