-- ===== src/Paper/Books/Calls.antt =====
-- paper/engine.py: any sequence of calls, those that raise included, keeps the books.
use trading_workstation.Prelude.{
  ◌∙◌, ℕ, ◌≡◌, refl, Bool, Option, none, some, List, [], ◌∷◌, arith, Double,
}
use trading_workstation.Signal.{DateTime, Signal, stable_id}
use trading_workstation.Backtesting.Execution.{Bar}
use trading_workstation.Paper.Models.{JournalEntry, Error, integrity_error}
use trading_workstation.Paper.Store.{Store, find_journal_entry_by_signal_id}
use trading_workstation.Paper.Monad.{
  Engine, Result, ok, err, Action, pure, raise, or_raise, gets, ◌>>=◌,
}
use trading_workstation.Paper.Outcome.{transaction_always}
use trading_workstation.Paper.Positions.{Setup}
use trading_workstation.Paper.Bars.{process_bar, close_at_end_of_data}
use trading_workstation.Paper.Submit.{submit_signal, submit_signal_transaction, recover, catch}
use trading_workstation.Paper.Books.Writes.{Same, Same-refl, Same-Agrees}
use trading_workstation.Paper.Books.Bars.{IsReconciled, process_bar-Ok, close_at_end-Ok}
use trading_workstation.Paper.Books.Submit.{submit-Same}

-- A call of a public method of the engine.
pub data Call (F : Type 0) : Type 0 where
  bar : ℕ → Bar F → Bool → Bool → Call F
  end_of_bars : ℕ → Bar F → Call F
  signal : Signal F → ℕ → DateTime → Call F

module _ {F : Type 0} ⦃d : Double F⦄ (setup : Setup F) where
  -- The state after a call. A call that raises leaves a state too, and its caller goes on.
  unfoldable pub perform : Call F → Engine F → Engine F
  perform (bar symbol b fresh allow) s = (process_bar setup symbol b fresh allow s).1
  perform (end_of_bars symbol b) s = (close_at_end_of_data setup symbol b s).1
  perform (signal x version now) s = (submit_signal setup x version now s).1

  unfoldable pub perform_all : List (Call F) → Engine F → Engine F
  perform_all [] s = s
  perform_all (c ∷ cs) s = perform_all cs (perform c s)

  or_raise-store :
      (o : Option JournalEntry) (e : Error) (s : Engine F) → (or_raise o e s).1.store ≡ s.store
  unfolding or_raise
  or_raise-store none e s = refl
  or_raise-store (some j) e s = refl

  pub recover-store : (id : ℕ) (e : Error) (s : Engine F) → (recover setup id e s).1.store ≡ s.store
  unfolding raise gets ◌>>=◌
  recover-store id integrity_error s =
      ground (arith, or_raise-store (find_journal_entry_by_signal_id id s.store) integrity_error s)
  recover-store id _ s = refl

  catch-Same :
      (id : ℕ) (st : Store F) (r : Result JournalEntry × Engine F)
      → Same st r.1.store
      → Same st (catch setup id r).1.store
  catch-Same id st (ok j, s) h = h
  catch-Same id st (err e, s) h = rw (recover-store id e s) h

  submit_transaction-Same :
      (x : Signal F) (id version : ℕ) (now : DateTime) (s : Engine F)
      → Same s.store (submit_signal_transaction setup x id version now s).1.store
  unfolding submit_signal_transaction
  submit_transaction-Same x id version now s =
      transaction_always _ (Same s.store) s
        (unfold submit_signal_transaction in submit-Same setup x id now version s)
        (Same-refl s.store)

  after_lookup-Same :
      (o : Option JournalEntry) (x : Signal F) (id version : ℕ) (now : DateTime) (s : Engine F)
      → Same s.store
          (elim o as (λ y. Action F JournalEntry) [
            | some j ↦ pure j
            | none ↦ λ s. catch setup id (submit_signal_transaction setup x id version now s)
          ]
            s).1.store
  unfolding pure
  after_lookup-Same none x id version now s =
      catch-Same id s.store _ (submit_transaction-Same x id version now s)
  after_lookup-Same (some j) x id version now s = Same-refl s.store

  submit_signal-Same :
      (x : Signal F) (version : ℕ) (now : DateTime) (s : Engine F)
      → Same s.store (submit_signal setup x version now s).1.store
  unfolding submit_signal gets ◌>>=◌
  submit_signal-Same x version now s =
      after_lookup-Same (find_journal_entry_by_signal_id (stable_id setup.digest x) s.store) x _
        version now s

  Same-IsReconciled : (st st' : Store F) → Same st st' → IsReconciled st → IsReconciled st'
  Same-IsReconciled st st' same (a, e, h) = (a, same.same_account ∙ e, Same-Agrees a st st' same h)

  perform-IsReconciled :
      (c : Call F) (s : Engine F) → IsReconciled s.store → IsReconciled (perform c s).store
  unfolding perform
  perform-IsReconciled (bar symbol b fresh allow) s h =
      unfold process_bar in
      transaction_always _ IsReconciled s (process_bar-Ok setup symbol b fresh allow s h) h
  perform-IsReconciled (end_of_bars symbol b) s h =
      unfold close_at_end_of_data in
      transaction_always _ IsReconciled s (close_at_end-Ok setup symbol b s h) h
  perform-IsReconciled (signal x version now) s h =
      Same-IsReconciled s.store _ (submit_signal-Same x version now s) h

  -- Whatever bars and signals arrive, in whatever order, fresh or stale, and whichever of the calls
  -- raise: if the stored account agrees with the tables before, it does after. Its realized PnL is
  -- the sum over the trades, added in the same order, its count is their number, and it holds a
  -- position exactly when one row of the table is open, never two.
  pub perform_all-IsReconciled :
      (cs : List (Call F)) (s : Engine F)
      → IsReconciled s.store
      → IsReconciled (perform_all cs s).store
  unfolding perform_all
  perform_all-IsReconciled [] s h = h
  perform_all-IsReconciled (c ∷ cs) s h =
      perform_all-IsReconciled cs (perform c s) (perform-IsReconciled c s h)
