-- ===== src/Paper/Delivery.antt =====
-- paper/engine.py: `process_bar` takes a bar once.
use mathlib.Core.Path.{subst}
use trading_workstation.Prelude.{
  sym, ℕ, ◌≡◌, refl, Bool, Option, none, some, List, [], ◌∷◌, arith, Double, ◌==◌,
}
use trading_workstation.Signal.{to_naive}
use trading_workstation.Risk.Account.{Account}
use trading_workstation.Backtesting.Execution.{Bar}
use trading_workstation.Paper.Models.{CursorRow}
use trading_workstation.Paper.Store.{
  Store, find, upsert, get_last_bar_timestamp, save_account, set_last_bar_timestamp,
}
use trading_workstation.Paper.Monad.{
  Engine, Result, ok, err, pure, or_raise, gets, set_account, refresh_account, transaction, ◌>>=◌,
}
use trading_workstation.Paper.Outcome.{
  Ok, Ok-at, then_known, pure-Ok, raise-Ok, then_gets, then_get_account, then_set_account,
  then_modify_store, transaction-Ok,
}
use trading_workstation.Paper.Positions.{Setup}
use trading_workstation.Paper.Bars.{
  BarOutcome, duplicate_skipped, BarOrder, new_bar, duplicate_bar, older_bar, bar_order,
  advance_bar, handle, process_bar,
}
use trading_workstation.Paper.Books.Bars.{then_refresh}

pub upsert-found :
    (symbol ts : ℕ) (cs : List CursorRow)
    → find
        (λ c. c.symbol == symbol)
        (upsert (record { symbol = symbol; last_bar_timestamp = ts }) cs)
      ≡ some (record { symbol = symbol; last_bar_timestamp = ts })
upsert-found symbol ts [] = ground arith
upsert-found symbol ts (c ∷ cs) = ground (arith, upsert-found symbol ts cs)

module _ {F : Type 0} ⦃d : Double F⦄ where
  -- The last bar of the symbol is the one at `ts`, and the account is there.
  pub record IsSeen (symbol ts : ℕ) (st : Store F) : Type 0 where
    pub cursor : get_last_bar_timestamp symbol st ≡ some ts
    pub has_account : (a : Account F) × (st.account ≡ some a)

  saved-IsSeen :
      (symbol ts : ℕ) (a : Account F) (st : Store F)
      → IsSeen symbol ts (set_last_bar_timestamp symbol ts (save_account a st))
  unfolding set_last_bar_timestamp save_account get_last_bar_timestamp
  saved-IsSeen symbol ts a st = record {
    cursor = rw (upsert-found symbol ts st.cursors, get_last_bar_timestamp);
    has_account = (a, refl);
  }

  trivial-Ok : {A : Type 0} (r : Result A × Engine F) → Ok r (λ a s. Unit {0})
  trivial-Ok (ok a, s) = tt
  trivial-Ok (err e, s) = tt

module _ {F : Type 0} ⦃d : Double F⦄ (setup : Setup F) (symbol : ℕ) where
  advance_bar-IsSeen :
      (bar : Bar F) (fresh allow : Bool) (s : Engine F)
      → Ok
          (advance_bar setup symbol bar fresh allow s)
          λ x s'. IsSeen symbol (to_naive bar.timestamp) s'.store
  unfolding advance_bar
  advance_bar-IsSeen bar fresh allow s = then_get_account _ _ _ (
      then_set_account _ _ _ _ (
        then_known (λ x s'. Unit {0}) _ _ _ _ (trivial-Ok _)
          λ halted s' _. then_get_account _ _ _ (
            then_modify_store _ _ _ _ (
              then_modify_store _ _ _ _ (
                pure-Ok _ _ _
                  (saved-IsSeen symbol (to_naive bar.timestamp) s'.account s'.store))))))

  handle-IsSeen :
      (o : BarOrder) (bar : Bar F) (fresh allow : Bool) (s : Engine F)
      → (o ≡ duplicate_bar → IsSeen symbol (to_naive bar.timestamp) s.store)
      → Ok
          (handle setup o symbol bar fresh allow s)
          λ x s'. IsSeen symbol (to_naive bar.timestamp) s'.store
  handle-IsSeen duplicate_bar bar fresh allow s h = pure-Ok _ _ _ (h refl)
  handle-IsSeen older_bar bar fresh allow s h = raise-Ok _ _ _
  handle-IsSeen new_bar bar fresh allow s h = advance_bar-IsSeen bar fresh allow s

  duplicate_of : (last : Option ℕ) (ts : ℕ) → bar_order last ts ≡ duplicate_bar → last ≡ some ts
  duplicate_of none ts e = cc
  duplicate_of (some last) ts e = ground arith

  process_bar-IsSeen :
      (bar : Bar F) (fresh allow : Bool) (s : Engine F)
      → Ok
          (process_bar setup symbol bar fresh allow s)
          λ x s'. IsSeen symbol (to_naive bar.timestamp) s'.store
  unfolding process_bar
  process_bar-IsSeen bar fresh allow s = transaction-Ok _ _ _ (
      then_refresh _ _ _ λ a e. then_gets _ _ _ _ (
        handle-IsSeen _ bar fresh allow _
          λ same. record { cursor = duplicate_of _ _ same; has_account = (a, e) }))

  duplicate_skips :
      (bar : Bar F) (fresh allow : Bool) (s : Engine F)
      → IsSeen symbol (to_naive bar.timestamp) s.store
      → let r = process_bar setup symbol bar fresh allow s in
        (r.0 ≡ ok duplicate_skipped) × (r.1.store ≡ s.store)
  unfolding process_bar transaction refresh_account gets or_raise set_account pure ◌>>=◌
      get_last_bar_timestamp
  duplicate_skips bar fresh allow s h =
      let (a, ha) = h.has_account in
      let again : bar_order (some (to_naive bar.timestamp)) (to_naive bar.timestamp)
          ≡ duplicate_bar =
        ground arith in
      rw (ha, h.cursor, again) (refl, refl)

  -- A bar that has been processed is processed once: if `process_bar` returns, a second call for
  -- the symbol with a bar of the same time, whatever its prices, flags and zone, is skipped as a
  -- duplicate and leaves the store as it is.
  pub process_bar_twice :
      (bar again : Bar F) (fresh allow fresh' allow' : Bool) (s : Engine F) (o : BarOutcome)
      → (process_bar setup symbol bar fresh allow s).0 ≡ ok o
      → to_naive again.timestamp ≡ to_naive bar.timestamp
      → let s' = (process_bar setup symbol bar fresh allow s).1 in
        let r = process_bar setup symbol again fresh' allow' s' in
        (r.0 ≡ ok duplicate_skipped) × (r.1.store ≡ s'.store)
  process_bar_twice bar again fresh allow fresh' allow' s o e same =
      let seen = Ok-at _ _ o (process_bar-IsSeen bar fresh allow s) e in
      duplicate_skips again fresh' allow' _ (
        subst (λ t. IsSeen symbol t (process_bar setup symbol bar fresh allow s).1.store) (sym same)
          seen)
