-- ===== src/Paper/Books/Bars.antt =====
-- paper/engine.py: `process_bar` and `close_at_end_of_data` keep the books.
use mathlib.Core.Path.{subst}
use mathlib.Core.Option.{some-injective}
use trading_workstation.Prelude.{
  sym, ◌∙◌, ℕ, ◌≡◌, refl, Bool, true, false, Option, none, some, List, [], ◌∷◌, arith, Double,
}
use trading_workstation.Signal.{date, to_naive}
use trading_workstation.Risk.Account.{Account, roll_to_day}
use trading_workstation.Backtesting.Execution.{Bar, end_of_data}
use trading_workstation.Paper.Models.{PaperOrder, Position}
use trading_workstation.Paper.Store.{
  Store, find, open_for, is_open_status, get_open_position, save_account, set_last_bar_timestamp,
}
use trading_workstation.Paper.Monad.{
  Engine, Action, pure, refresh_account, get_account, modify_store, ◌>>=◌, ◌>>◌,
}
use trading_workstation.Paper.Outcome.{
  Ok, then_known, bind-Ok, pure-Ok, raise-Ok, then_gets, then_or_raise, then_get_account,
  then_set_account, then_modify_store, set_account-Ok, modify_store-Ok, transaction-Ok,
}
use trading_workstation.Paper.Positions.{Setup, close_open_position}
use trading_workstation.Paper.Bars.{
  BarOrder, new_bar, duplicate_bar, older_bar, try_fill, manage, trade_bar, advance_bar, handle,
  process_bar, close_at_end_of_data,
}
use trading_workstation.Paper.Books.{Agrees}
use trading_workstation.Paper.Books.Fill.{fill-Agrees}
use trading_workstation.Paper.Books.Close.{InBooks, process-Agrees, close-Agrees}

pub find-passes :
    {A : Type 0} (test : A → Bool) (xs : List A) (x : A) → find test xs ≡ some x → test x ≡ true
find-passes test [] x e = cc
find-passes test (y ∷ ys) x e = ground (arith, find-passes test ys x)

module _ {F : Type 0} where
  pub get_open_position-is_open :
      (symbol : ℕ) (st : Store F) (p : Position F)
      → get_open_position symbol st ≡ some p
      → is_open_status p.status ≡ true
  unfolding get_open_position
  get_open_position-is_open symbol st p e =
      ground (arith, find-passes (open_for symbol) st.positions p e)

module _ {F : Type 0} ⦃d : Double F⦄ where
  -- The stored account agrees with the tables.
  abbrev pub IsReconciled : Store F → Type 0
  IsReconciled st = (a : Account F) × (st.account ≡ some a) × Agrees a st

  pub then_refresh :
      {B : Type 0} (k : Unit {0} → Action F B) (Q : B → Engine F → Type 0) (s : Engine F)
      → ((a : Account F) → s.store.account ≡ some a → Ok (k tt (record s { account = a })) Q)
      → Ok ((refresh_account >>= k) s) Q
  unfolding refresh_account
  then_refresh k Q s h =
      bind-Ok _ _ _ _
        (then_gets _ _ _ _ (then_or_raise _ _ _ _ _ λ a e. set_account-Ok _ _ _ (h a e)))

  rolled-Agrees :
      (day : ℕ) (a : Account F) (st : Store F) → Agrees a st → Agrees (roll_to_day day a) st
  unfolding roll_to_day
  rolled-Agrees day a st h = ground arith

module _ {F : Type 0} ⦃d : Double F⦄ (setup : Setup F) (symbol : ℕ) (bar : Bar F) where
  try_fill-Agrees :
      (o : Option (PaperOrder F)) (allow : Bool) (s : Engine F)
      → InBooks s
      → Ok (try_fill setup o bar allow s) λ x s'. InBooks s'
  try_fill-Agrees none allow s h = pure-Ok _ _ _ h
  try_fill-Agrees (some o) false s h = pure-Ok _ _ _ h
  try_fill-Agrees (some o) true s h =
      then_known (λ p s'. InBooks s' × (is_open_status p.status ≡ true)) _ _ _ s
        (fill-Agrees setup o bar s h)
        λ p s' (h', is_open).
          then_known (λ x s''. InBooks s'') _ _ _ s' (process-Agrees setup p bar s' is_open h')
            λ x s'' h''. pure-Ok _ _ _ h''

  manage-Agrees :
      (o : Option (Position F)) (allow : Bool) (s : Engine F)
      → ((p : Position F) → o ≡ some p → is_open_status p.status ≡ true)
      → InBooks s
      → Ok (manage setup o symbol bar allow s) λ x s'. InBooks s'
  manage-Agrees none allow s is_open h = then_gets _ _ _ _ (try_fill-Agrees _ allow s h)
  manage-Agrees (some p) allow s is_open h =
      then_known (λ x s'. InBooks s') _ _ _ s (process-Agrees setup p bar s (is_open p refl) h)
        λ x s' h'. pure-Ok _ _ _ h'

  trade_bar-Agrees :
      (fresh allow : Bool) (s : Engine F)
      → InBooks s
      → Ok (trade_bar setup symbol bar fresh allow s) λ x s'. InBooks s'
  unfolding trade_bar
  trade_bar-Agrees false allow s h = pure-Ok _ _ _ h
  trade_bar-Agrees true allow s h = then_gets _ _ _ _ (
      manage-Agrees (get_open_position symbol s.store) allow s
        (get_open_position-is_open symbol s.store) h)

  saved-IsReconciled :
      (a : Account F) (ts : ℕ) (st : Store F)
      → Agrees a st
      → IsReconciled (set_last_bar_timestamp symbol ts (save_account a st))
  unfolding set_last_bar_timestamp save_account
  saved-IsReconciled a ts st h =
      (a, refl, record { pnl = h.pnl; trades = h.trades; positions = h.positions })

  advance_bar-IsReconciled :
      (fresh allow : Bool) (s : Engine F)
      → InBooks s
      → Ok (advance_bar setup symbol bar fresh allow s) λ x s'. IsReconciled s'.store
  unfolding advance_bar
  advance_bar-IsReconciled fresh allow s h = then_get_account _ _ _ (
      then_set_account _ _ _ _ (
        then_known (λ x s'. InBooks s') _ _ _ _
          (trade_bar-Agrees fresh allow _ (rolled-Agrees (date bar.timestamp) s.account s.store h))
          λ halted s' h'. then_get_account _ _ _ (
            then_modify_store _ _ _ _ (
              then_modify_store _ _ _ _ (
                pure-Ok _ _ _
                  (saved-IsReconciled s'.account (to_naive bar.timestamp) s'.store h'))))))

  handle-IsReconciled :
      (o : BarOrder) (fresh allow : Bool) (s : Engine F)
      → InBooks s
      → IsReconciled s.store
      → Ok (handle setup o symbol bar fresh allow s) λ x s'. IsReconciled s'.store
  handle-IsReconciled duplicate_bar fresh allow s h r = pure-Ok _ _ _ r
  handle-IsReconciled older_bar fresh allow s h r = raise-Ok _ _ _
  handle-IsReconciled new_bar fresh allow s h r = advance_bar-IsReconciled fresh allow s h

  pub process_bar-Ok :
      (fresh allow : Bool) (s : Engine F)
      → IsReconciled s.store
      → Ok (process_bar setup symbol bar fresh allow s) λ x s'. IsReconciled s'.store
  unfolding process_bar
  process_bar-Ok fresh allow s r = transaction-Ok _ _ _ (
      then_refresh _ _ _ λ a e. then_gets _ _ _ _ (
        handle-IsReconciled _ fresh allow _
          (subst (λ x. Agrees x s.store) (some-injective _ _ (sym r.1 ∙ e)) r.2) r))

  close_cases :
      (o : Option (Position F)) (s : Engine F)
      → InBooks s
      → IsReconciled s.store
      → Ok
          (elim o as (λ x. Action F (Unit {0})) [
            | none ↦ pure tt
            | some p ↦ (do
              close_open_position setup p bar.close bar.timestamp end_of_data true
              account ← get_account
              modify_store (save_account account))
          ]
            s)
          λ x s'. IsReconciled s'.store
  unfolding save_account
  close_cases none s h r = pure-Ok _ _ _ r
  close_cases (some p) s h r =
      then_known (λ x s'. InBooks s') _ _ _ s (close-Agrees setup p _ _ _ true s h)
        λ x s' h'. then_get_account _ _ _ (
          modify_store-Ok _ _ _ (
            s'.account,
            refl,
            record { pnl = h'.pnl; trades = h'.trades; positions = h'.positions },
          ))

  pub close_at_end-Ok :
      (s : Engine F)
      → IsReconciled s.store
      → Ok (close_at_end_of_data setup symbol bar s) λ x s'. IsReconciled s'.store
  unfolding close_at_end_of_data
  close_at_end-Ok s r = transaction-Ok _ _ _ (
      then_refresh _ _ _ λ a e.
        then_gets _ _ _ _ (
          close_cases _ _ (subst (λ x. Agrees x s.store) (some-injective _ _ (sym r.1 ∙ e)) r.2) r))
