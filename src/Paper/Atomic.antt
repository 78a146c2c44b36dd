-- ===== src/Paper/Atomic.antt =====
-- paper/engine.py: a call that raises, after whatever writes, takes them back.
use trading_workstation.Prelude.{ℕ, ◌≡◌, refl, ◌∙◌, Bool, true, false, Option, none, some, Double}
use trading_workstation.Signal.{DateTime, Signal, stable_id}
use trading_workstation.Paper.Models.{JournalEntry}
use trading_workstation.Paper.Store.{Store, find_journal_entry_by_signal_id}
use trading_workstation.Paper.Monad.{
  Engine, Result, ok, err, Action, finish, transaction, gets, pure, ◌>>=◌,
}
use trading_workstation.Paper.Positions.{Setup}
use trading_workstation.Paper.Bars.{process_bar, close_at_end_of_data}
use trading_workstation.Paper.Submit.{submit_signal, submit_signal_transaction, catch}
use trading_workstation.Paper.Books.Calls.{Call, bar, end_of_bars, signal, perform, recover-store}

abbrev pub is_error : {A : Type 0} → Result A → Bool
is_error (ok a) = false
is_error (err e) = true

module _ {F : Type 0} where
  -- a result after which the store is as it was before, if it is an exception
  abbrev TakesBack : {A : Type 0} → Store F → Result A × Engine F → Type 0
  TakesBack st r = is_error r.0 ≡ true → r.1.store ≡ st

  finish-TakesBack :
      {A : Type 0} (st : Store F) (r : Result A × Engine F) → TakesBack st (finish st r)
  finish-TakesBack st (ok a, s) = λ e. cc e
  finish-TakesBack st (err x, s) = λ _. refl

  transaction-TakesBack :
      {A : Type 0} (m : Action F A) (s : Engine F) → TakesBack s.store (transaction m s)
  unfolding transaction
  transaction-TakesBack m s = finish-TakesBack s.store (m s)

module _ {F : Type 0} ⦃d : Double F⦄ (setup : Setup F) where
  unfoldable pub raises : Call F → Engine F → Bool
  raises (bar symbol b fresh allow) s = is_error (process_bar setup symbol b fresh allow s).0
  raises (end_of_bars symbol b) s = is_error (close_at_end_of_data setup symbol b s).0
  raises (signal x version now) s = is_error (submit_signal setup x version now s).0

  catch-TakesBack :
      (id : ℕ) (st : Store F) (r : Result JournalEntry × Engine F)
      → TakesBack st r
      → TakesBack st (catch setup id r)
  catch-TakesBack id st (ok j, s) h = h
  catch-TakesBack id st (err e, s) h = λ _. recover-store setup id e s ∙ h refl

  looked_up-TakesBack :
      (o : Option JournalEntry) (x : Signal F) (id version : ℕ) (now : DateTime) (s : Engine F)
      → TakesBack s.store (
          elim o as (λ y. Action F JournalEntry) [
            | some j ↦ pure j
            | none ↦ λ s. catch setup id (submit_signal_transaction setup x id version now s)
          ]
            s)
  unfolding pure submit_signal_transaction
  looked_up-TakesBack none x id version now s =
      catch-TakesBack id s.store _ (transaction-TakesBack _ s)
  looked_up-TakesBack (some j) x id version now s = λ _. refl

  -- Every public method is all or nothing: where a bar, the close at the end of the data or a signal
  -- raises, whatever it raises and whatever it has written before, the tables are as they were
  -- before the call. A signal's integrity error that is answered from the journal is no exception.
  pub perform_raising :
      (c : Call F) (s : Engine F) → raises c s ≡ true → (perform setup c s).store ≡ s.store
  unfolding raises perform
  perform_raising (bar symbol b fresh allow) s e = unfold process_bar in transaction-TakesBack _ s e
  perform_raising (end_of_bars symbol b) s e =
      unfold close_at_end_of_data in transaction-TakesBack _ s e
  perform_raising (signal x version now) s e =
      unfold submit_signal gets ◌>>=◌ in
      looked_up-TakesBack (find_journal_entry_by_signal_id (stable_id setup.digest x) s.store) x _
        version now s e
