-- ===== src/Paper/Monad.antt =====
-- A method call on `PaperTradingEngine`: its state, exceptions, and the store's transaction.
use trading_workstation.Prelude.{ℕ, ◌+◌, Option, none, some, Double}
use trading_workstation.Risk.Account.{Account, new_account}
use trading_workstation.Paper.Models.{Error, runtime_error}
use trading_workstation.Paper.Store.{Store, Written, wrote, raised, save_account}

-- `next_id` stands for `uuid4`: an id that has not been given before.
pub record Engine (F : Type 0) : Type 0 where
  pub store : Store F
  pub account : Account F
  pub next_id : ℕ

pub data Result (A : Type 0) : Type 0 where
  ok : A → Result A
  err : Error → Result A

-- What was written before a raise stays, unless a transaction takes it back.
abbrev pub Action : Type 0 → Type 0 → Type 0
Action F A = Engine F → Result A × Engine F

module _ {F A : Type 0} where
  unfoldable pub pure : A → Action F A
  pure a s = (ok a, s)

  unfoldable pub raise : Error → Action F A
  raise e s = (err e, s)

  unfoldable pub or_raise : Option A → Error → Action F A
  unfolding pure raise
  or_raise none e = raise e
  or_raise (some a) e = pure a

  -- a query
  unfoldable pub gets : (Store F → A) → Action F A
  gets f s = (ok (f s.store), s)

  -- `BEGIN IMMEDIATE`, the body, then `COMMIT` or `ROLLBACK`; the account in memory is not rolled
  -- back
  abbrev pub finish : Store F → Result A × Engine F → Result A × Engine F
  finish before (ok a, s) = (ok a, s)
  finish before (err e, s) = (err e, record s { store = before })

  unfoldable pub transaction : Action F A → Action F A
  transaction body s = finish s.store (body s)

infixl 5 ◌>>=◌ ◌>>◌
unfoldable pub ◌>>=◌ : {F A B : Type 0} → Action F A → (A → Action F B) → Action F B
unfolding raise
◌>>=◌ m f s = let (r, s') = m s in elim r [ ok a ↦ f a s' | err e ↦ raise e s' ]

abbrev pub ◌>>◌ : {F A B : Type 0} → Action F A → Action F B → Action F B
m >> k = m >>= λ _. k

module _ {F : Type 0} where
  -- a statement that writes
  abbrev pub committed : Written F → Action F (Unit {0})
  committed (wrote st) s = (ok tt, record s { store = st })
  committed (raised e) s = (err e, s)

  unfoldable pub execute : (Store F → Written F) → Action F (Unit {0})
  execute f s = committed (f s.store) s

  unfoldable pub modify_store : (Store F → Store F) → Action F (Unit {0})
  modify_store f s = (ok tt, record s { store = f s.store })

  unfoldable pub set_account : Account F → Action F (Unit {0})
  set_account a s = (ok tt, record s { account = a })

  unfoldable pub get_account : Action F (Account F)
  get_account s = (ok s.account, s)

  unfoldable pub new_id : Action F ℕ
  new_id s = (ok s.next_id, record s { next_id = s.next_id + 1 })

  -- `refresh_account`
  unfoldable pub refresh_account : Action F (Unit {0})
  refresh_account = do
    stored ← gets (λ st. st.account)
    account ← or_raise stored runtime_error
    set_account account

module _ {F : Type 0} ⦃d : Double F⦄ where
  -- a new account, once it is made, in the store
  abbrev pub with_account : Option (Account F) → ℕ → Store F → Option (Engine F)
  with_account none first_id st = none
  with_account (some a) first_id st =
      some (record { store = save_account a st; account = a; next_id = first_id })

  -- `__init__`: the account in the store, or a new one that is stored
  unfoldable pub initialized : F → ℕ → Store F → Option (Engine F)
  initialized initial_capital first_id st = elim st.account [
    | some a ↦ some (record { store = st; account = a; next_id = first_id })
    | none ↦ with_account (new_account initial_capital) first_id st
  ]
