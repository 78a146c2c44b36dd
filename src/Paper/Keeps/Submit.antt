-- ===== src/Paper/Keeps/Submit.antt =====
-- paper/engine.py: `submit_signal` keeps what every statement keeps.
use mathlib.Core.Path.{subst}
use trading_workstation.Prelude.{ℕ, sym, Bool, not, Option, none, some, Double, if◌then◌else◌}
use trading_workstation.Signal.{DateTime, Signal}
use trading_workstation.Risk.{PositionSize, RiskDecision}
use trading_workstation.Paper.Models.{JournalEntry, skipped_already_active}
use trading_workstation.Paper.Monad.{Engine, Result, ok, err, Action, pure, gets, ◌>>=◌}
use trading_workstation.Paper.Outcome.{transaction_always}
use trading_workstation.Paper.Keeps.{
  Keeps, bind-Keeps, pure-Keeps, raise-Keeps, or_raise-Keeps, gets-Keeps, get_account-Keeps,
  new_id-Keeps, execute-Keeps, if-Keeps, transaction-Keeps, execute-Keeps, refresh_account-Keeps,
}
use trading_workstation.Paper.Positions.{Setup}
use trading_workstation.Paper.Submit.{
  place_order, settle, submit_signal_transaction, submit_signal, catch,
}
use trading_workstation.Paper.Keeps.Laws.{IsStable}
use trading_workstation.Paper.Store.{Store}
use trading_workstation.Paper.Books.Calls.{recover-store}

module _ {F : Type 0} ⦃d : Double F⦄ (P : Store F → Type 0) (law : IsStable P)
    (setup : Setup F) where
  place_order-Keeps :
      (x : Signal F) (id : ℕ) (size : Option (PositionSize F)) (now : DateTime) (j : JournalEntry)
      → Keeps P (place_order setup x id size now j)
  place_order-Keeps x id none now j = raise-Keeps _ _ _
  place_order-Keeps x id (some size) now j =
      bind-Keeps _ _ _ (new_id-Keeps _)
        λ order_id. bind-Keeps _ _ _ (execute-Keeps P _ (law.orders _)) λ u. pure-Keeps _ _

  settle-Keeps :
      (x : Signal F) (id : ℕ) (decision : RiskDecision F) (active : Bool) (now : DateTime)
      (j : JournalEntry)
      → Keeps P (settle setup x id decision active now j)
  unfolding settle
  settle-Keeps x id decision active now j =
      let skipped = record j { outcome = skipped_already_active } in
      let placed = place_order setup x id decision.position_size now j in
      if-Keeps P (not decision.approved) (pure j) (if active then pure skipped else placed)
        (pure-Keeps P j)
        (if-Keeps P active (pure skipped) placed (pure-Keeps P skipped)
          (place_order-Keeps x id _ now j))

  submit_transaction-Keeps :
      (x : Signal F) (id version : ℕ) (now : DateTime)
      → Keeps P (submit_signal_transaction setup x id version now)
  unfolding submit_signal_transaction
  submit_transaction-Keeps x id version now = transaction-Keeps _ _ (
      bind-Keeps _ _ _ (refresh_account-Keeps _) λ u1.
        bind-Keeps _ _ _ (execute-Keeps P _ (law.signals _)) λ u2.
          bind-Keeps _ _ _ (get_account-Keeps _) λ account.
            bind-Keeps _ _ _ (or_raise-Keeps _ _ _) λ decision.
              bind-Keeps _ _ _ (new_id-Keeps _) λ risk_decision_id.
                bind-Keeps _ _ _ (execute-Keeps P _ (law.decisions _)) λ u3.
                  bind-Keeps _ _ _ (new_id-Keeps _) λ entry_id.
                    bind-Keeps _ _ _ (gets-Keeps _ _) λ active.
                      bind-Keeps _ _ _ (settle-Keeps x id decision active now _) λ j.
                        bind-Keeps _ _ _ (execute-Keeps P _ (law.entries j)) λ u4. pure-Keeps _ _)

  submit_transaction-keeps :
      (x : Signal F) (id version : ℕ) (now : DateTime) (s : Engine F)
      → P s.store
      → P (submit_signal_transaction setup x id version now s).1.store
  unfolding submit_signal_transaction
  submit_transaction-keeps x id version now s k =
      transaction_always _ P s
        (unfold submit_signal_transaction in submit_transaction-Keeps x id version now s k) k

  catch-keeps :
      (id : ℕ) (r : Result JournalEntry × Engine F) → P r.1.store → P (catch setup id r).1.store
  catch-keeps id (ok j, s) k = k
  catch-keeps id (err e, s) k = subst P (sym (recover-store setup id e s)) k

  looked_up-keeps :
      (o : Option JournalEntry) (x : Signal F) (id version : ℕ) (now : DateTime) (s : Engine F)
      → P s.store
      → P
          (elim o as (λ y. Action F JournalEntry) [
            | some j ↦ pure j
            | none ↦ λ s. catch setup id (submit_signal_transaction setup x id version now s)
          ]
            s).1.store
  unfolding pure
  looked_up-keeps (some j) x id version now s k = k
  looked_up-keeps none x id version now s k =
      catch-keeps id _ (submit_transaction-keeps x id version now s k)

  pub submit_signal-keeps :
      (x : Signal F) (version : ℕ) (now : DateTime) (s : Engine F)
      → P s.store
      → P (submit_signal setup x version now s).1.store
  unfolding submit_signal gets ◌>>=◌
  submit_signal-keeps x version now s k = looked_up-keeps _ x _ version now s k
