-- ===== src/Paper/Books/Sessions.antt =====
-- paper/engine.py: an engine on a new database keeps the books from the start.
use mathlib.Core.Path.{subst}
use mathlib.Core.Option.{some-injective}
use trading_workstation.Prelude.{
  ℕ, ◌≡◌, refl, sym, ap, ◌∙◌, Option, none, some, List, [], foldl, length, num, arith, Double,
}
use trading_workstation.Risk.Account.{Account, new_account}
use trading_workstation.Paper.Store.{Store, save_account}
use trading_workstation.Paper.Monad.{Engine, initialized, with_account}
use trading_workstation.Paper.Positions.{Setup}
use trading_workstation.Paper.Books.{Agrees, realized, add_net}
use trading_workstation.Paper.Books.Bars.{IsReconciled}
use trading_workstation.Paper.Books.Calls.{Call, perform_all, perform_all-IsReconciled}

module _ {F : Type 0} ⦃d : Double F⦄ where
  -- a database in which nothing has been traded
  pub record IsNew (st : Store F) : Type 0 where
    pub no_account : st.account ≡ none
    pub no_trades : st.trades ≡ []
    pub no_positions : st.positions ≡ []

  -- the parts of a new account that the books are about
  new_account_lem :
      (capital : F) (a : Account F)
      → new_account capital ≡ some a
      → (a.realized_pnl ≡ num 0) × (a.total_trades ≡ 0) × (a.open_position_quantity ≡ 0)
  unfolding new_account
  new_account_lem capital a e = (ground arith, ground arith, ground arith)

  new_account-Agrees :
      (capital : F) (a : Account F) (st : Store F)
      → new_account capital ≡ some a
      → IsNew st
      → Agrees a (save_account a st)
  unfolding realized save_account
  new_account-Agrees capital a st e h =
      let (pnl, count, flat) = new_account_lem capital a e in
      record {
        pnl = pnl ∙ sym (ap (foldl add_net (num 0)) h.no_trades);
        trades = count ∙ sym (ap length h.no_trades);
        positions = rw (h.no_positions, flat);
      }

  with_account-IsReconciled :
      (capital : F) (o : Option (Account F)) (id : ℕ) (st : Store F) (s : Engine F)
      → new_account capital ≡ o
      → IsNew st
      → with_account o id st ≡ some s
      → IsReconciled s.store
  unfolding save_account
  with_account-IsReconciled capital none id st s e h built = cc
  with_account-IsReconciled capital (some a) id st s e h built =
      subst (λ x. IsReconciled x.store) (some-injective _ _ built)
        (a, refl, new_account-Agrees capital a st e h)

  initialized_lem :
      (capital : F) (id : ℕ) (st : Store F)
      → st.account ≡ none
      → initialized capital id st ≡ with_account (new_account capital) id st
  unfolding initialized
  initialized_lem capital id st e =
      ap
        (λ o. elim o as (λ x. Option (Engine F)) [
          | some a ↦ some (record { store = st; account = a; next_id = id })
          | none ↦ with_account (new_account capital) id st
        ])
        e

  initialized-IsReconciled :
      (capital : F) (id : ℕ) (st : Store F) (s : Engine F)
      → IsNew st
      → initialized capital id st ≡ some s
      → IsReconciled s.store
  initialized-IsReconciled capital id st s h built =
      with_account-IsReconciled capital (new_account capital) id st s refl h
        (sym (initialized_lem capital id st h.no_account) ∙ built)

  -- An engine that is built on a database without an account, trades or positions keeps the books
  -- through all its calls: after any of them, those that raise included, the stored account agrees
  -- with the tables.
  pub session-IsReconciled :
      (setup : Setup F) (capital : F) (id : ℕ) (st : Store F) (s : Engine F) (cs : List (Call F))
      → IsNew st
      → initialized capital id st ≡ some s
      → IsReconciled (perform_all setup cs s).store
  session-IsReconciled setup capital id st s cs h built =
      perform_all-IsReconciled setup cs s (initialized-IsReconciled capital id st s h built)
