-- ===== src/Paper/Keeps/Methods.antt =====
-- paper/engine.py: the methods that move a position keep what every statement keeps.
use trading_workstation.Prelude.{ℕ, ◌≡◌, refl, Bool, false, Option, none, some, Double}
use trading_workstation.Signal.{DateTime, Side}
use trading_workstation.Backtesting.Execution.{ExitReason, OpenPosition, Bar, check_exit}
use trading_workstation.Paper.Models.{PaperOrder, Position, JournalEntry}
use trading_workstation.Paper.Store.{Store, update_journal_entry, find_journal_entry_by_signal_id}
use trading_workstation.Paper.Monad.{Engine, Action, pure, modify_store}
use trading_workstation.Paper.Outcome.{Ok, then_gets, pure-Ok, modify_store-Ok}
use trading_workstation.Paper.Keeps.{
  Keeps, bind-Keeps, pure-Keeps, or_raise-Keeps, gets-Keeps, get_account-Keeps, set_account-Keeps,
  new_id-Keeps, execute-Keeps, if-Keeps,
}
use trading_workstation.Paper.Positions.{
  Setup, load_open_position, update_journal, fill_pending_order, settle_price, record_exit,
  close_open_position, hold, process_open_position,
}
use trading_workstation.Paper.Keeps.Laws.{IsStable}

module _ {F : Type 0} (P : Store F → Type 0) (law : IsStable P) where
  update_found :
      (id : ℕ) (change : JournalEntry → JournalEntry) (o : Option JournalEntry) (s : Engine F)
      → ((j : JournalEntry) → (change j).journal_entry_id ≡ j.journal_entry_id)
      → ((j : JournalEntry) → (change j).signal_id ≡ j.signal_id)
      → find_journal_entry_by_signal_id id s.store ≡ o
      → P s.store
      → Ok
          (elim o as (λ x. Action F (Unit {0})) [
            | none ↦ pure tt
            | some j ↦ modify_store (update_journal_entry (change j))
          ]
            s)
          λ u s'. P s'.store
  update_found id change none s a b f k = pure-Ok _ _ _ k
  update_found id change (some j) s a b f k =
      modify_store-Ok _ _ _ (law.journal id j (change j) s.store f (a j) (b j) k)

  update_journal-Keeps :
      (id : ℕ) (change : JournalEntry → JournalEntry)
      → ((j : JournalEntry) → (change j).journal_entry_id ≡ j.journal_entry_id)
      → ((j : JournalEntry) → (change j).signal_id ≡ j.signal_id)
      → Keeps {F = F} P (update_journal id change)
  unfolding update_journal
  update_journal-Keeps id change a b s k = then_gets _ _ _ _ (update_found id change _ s a b refl k)

  load_open_position-Keeps : (p : Position F) → Keeps P (load_open_position p)
  unfolding load_open_position
  load_open_position-Keeps p =
      bind-Keeps _ _ _ (gets-Keeps _ _)
        λ found. bind-Keeps _ _ _ (or_raise-Keeps _ found _) λ signal. pure-Keeps _ _

module _ {F : Type 0} ⦃d : Double F⦄ (P : Store F → Type 0) (law : IsStable P)
    (setup : Setup F) where
  pub fill-Keeps :
      (order : PaperOrder F) (bar : Bar F) → Keeps P (fill_pending_order setup order bar)
  unfolding fill_pending_order
  fill-Keeps order bar = bind-Keeps _ _ _ (or_raise-Keeps _ _ _) λ entry_price.
      bind-Keeps _ _ _ (new_id-Keeps _) λ fill_id.
        bind-Keeps _ _ _ (execute-Keeps P _ (law.fills _)) λ u1.
          bind-Keeps _ _ _ (execute-Keeps P _ (law.fills_of_orders _)) λ u2.
            bind-Keeps _ _ _ (new_id-Keeps _) λ position_id.
              bind-Keeps _ _ _ (execute-Keeps P _ (law.positions _)) λ u3.
                bind-Keeps _ _ _ (get_account-Keeps _) λ account.
                  bind-Keeps _ _ _ (or_raise-Keeps _ _ _) λ opened.
                    bind-Keeps _ _ _ (set_account-Keeps _ opened) λ u4.
                      bind-Keeps _ _ _ (update_journal-Keeps P law _ _ (λ j. refl) (λ j. refl))
                        λ u5. pure-Keeps _ _

  record_exit-Keeps :
      (p : Position F) (o : OpenPosition F) (price override : F) (time : DateTime)
      (reason : ExitReason)
      → Keeps P (record_exit setup p o price override time reason)
  unfolding record_exit
  record_exit-Keeps p o price override time reason = bind-Keeps _ _ _ (new_id-Keeps _) λ fill_id.
      bind-Keeps _ _ _ (execute-Keeps P _ (law.fills _)) λ u1.
        bind-Keeps _ _ _ (new_id-Keeps _) λ trade_id.
          bind-Keeps _ _ _ (execute-Keeps P _ (law.trades _)) λ u2.
            bind-Keeps _ _ _ (execute-Keeps P _ (law.updates _)) λ u3.
              bind-Keeps _ _ _ (get_account-Keeps _) λ account.
                bind-Keeps _ _ _ (or_raise-Keeps _ _ _) λ closed.
                  bind-Keeps _ _ _ (set_account-Keeps _ closed)
                    λ u4. update_journal-Keeps P law _ _ (λ j. refl) (λ j. refl)

  settle_price-Keeps :
      (override : F) (side : Side) (reason : ExitReason) (final : Bool)
      → Keeps P (settle_price setup override side reason final)
  unfolding settle_price
  settle_price-Keeps override side reason final =
      if-Keeps _ _ _ _ (or_raise-Keeps _ _ _) (pure-Keeps _ _)

  pub close-Keeps :
      (p : Position F) (override : F) (time : DateTime) (reason : ExitReason) (final : Bool)
      → Keeps P (close_open_position setup p override time reason final)
  unfolding close_open_position
  close-Keeps p override time reason final =
      bind-Keeps _ _ _ (load_open_position-Keeps P law p) λ o.
        bind-Keeps _ _ _ (settle_price-Keeps override _ reason final)
          λ price. record_exit-Keeps p o price override time reason

  hold-Keeps : (limit : Option ℕ) (p : Position F) (bar : Bar F) → Keeps P (hold setup limit p bar)
  unfolding hold
  hold-Keeps none p bar = pure-Keeps _ _
  hold-Keeps (some limit) p bar =
      if-Keeps _ _ _ _ (close-Keeps p _ _ _ _) (execute-Keeps P _ (law.updates _))

  exit-Keeps :
      (o : Option (F × ExitReason)) (p : Position F) (bar : Bar F)
      → Keeps P (elim o as (λ x. Action F (Unit {0})) [
        | none ↦ hold setup setup.max_holding_bars p bar
        | some (price, reason) ↦ close_open_position setup p price bar.timestamp reason false
      ])
  exit-Keeps none p bar = hold-Keeps setup.max_holding_bars p bar
  exit-Keeps (some (price, reason)) p bar = close-Keeps p price bar.timestamp reason false

  pub process-Keeps : (p : Position F) (bar : Bar F) → Keeps P (process_open_position setup p bar)
  unfolding process_open_position
  process-Keeps p bar = bind-Keeps _ _ _ (get_account-Keeps _) λ account.
      bind-Keeps _ _ _ (set_account-Keeps _ _) λ u.
        bind-Keeps _ _ _ (load_open_position-Keeps P law p) λ o. exit-Keeps (check_exit o bar) p bar
