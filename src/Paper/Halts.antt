-- ===== src/Paper/Halts.antt =====
-- paper/engine.py: the flags `is_fresh` and `allow_new_fill` of `process_bar`.
use trading_workstation.Prelude.{
  ℕ, ◌≡◌, refl, ap, sym, ◌∙◌, Bool, true, false, none, some, Double, Option-cases, inl, inr,
}
use trading_workstation.Signal.{date, to_naive}
use trading_workstation.Risk.Account.{Account, roll_to_day}
use trading_workstation.Backtesting.Execution.{Bar}
use trading_workstation.Paper.Models.{PaperOrder, Position}
use trading_workstation.Paper.Store.{
  Store, get_open_position, get_pending_order, get_last_bar_timestamp, save_account,
  set_last_bar_timestamp,
}
use trading_workstation.Paper.Monad.{
  Engine, ok, pure, raise, or_raise, gets, get_account, set_account, modify_store, refresh_account,
  finish, transaction, ◌>>=◌,
}
use trading_workstation.Paper.Outcome.{bind_cong, bind-ok}
use trading_workstation.Paper.Positions.{Setup}
use trading_workstation.Paper.Bars.{
  stale_skipped, execution_halted_skipped, BarOrder, new_bar, duplicate_bar, older_bar, handle,
  bar_order, trade_bar, persist, bar_step, advance_bar, process_bar,
}

module _ {F : Type 0} ⦃d : Double F⦄ (setup : Setup F) (symbol : ℕ) (bar : Bar F) where
  -- The store after a bar that moved nothing but time: the day of the account and the cursor.
  abbrev pub time_passed : Account F → Store F → Store F
  time_passed a st =
      set_last_bar_timestamp symbol (to_naive bar.timestamp)
        (save_account (roll_to_day (date bar.timestamp) a) st)

  refresh_lem :
      (s : Engine F) (a : Account F)
      → s.store.account ≡ some a
      → refresh_account s ≡ (ok tt, record s { account = a })
  unfolding refresh_account gets or_raise set_account pure ◌>>=◌
  refresh_lem s a ha = rw ha

  -- A new bar that is not fresh is never traded on: where the account is stored, whatever orders and
  -- positions there are and whether or not fills are allowed, the call returns STALE_SKIPPED, and the
  -- store differs only by the day of the account and the cursor of the symbol.
  pub process_bar_stale :
      (allow : Bool) (s : Engine F) (a : Account F)
      → s.store.account ≡ some a
      → bar_order (get_last_bar_timestamp symbol s.store) (to_naive bar.timestamp) ≡ new_bar
      → let r = process_bar setup symbol bar false allow s in
        (r.0 ≡ ok stale_skipped) × (r.1.store ≡ time_passed a s.store)
  unfolding process_bar advance_bar trade_bar transaction refresh_account gets or_raise set_account
      get_account modify_store pure ◌>>=◌ get_last_bar_timestamp
  process_bar_stale allow s a ha new = rw (ha, new) (refl, refl)

  trade_bar-halted :
      (s : Engine F) (order : PaperOrder F)
      → get_open_position symbol s.store ≡ none
      → get_pending_order symbol s.store ≡ some order
      → trade_bar setup symbol bar true false s ≡ (ok true, s)
  unfolding trade_bar gets pure ◌>>=◌ get_open_position get_pending_order
  trade_bar-halted s order flat waits = rw (flat, waits)

  -- `bar_step` and `advance_bar`, as far as they do not branch.
  bar_step_lem :
      (fresh allow : Bool) (s : Engine F) (a : Account F)
      → s.store.account ≡ some a
      → bar_step setup symbol bar fresh allow s
        ≡ handle setup
            (bar_order (get_last_bar_timestamp symbol s.store) (to_naive bar.timestamp))
            symbol
            bar
            fresh
            allow
            (record s { account = a })
  unfolding bar_step gets
  bar_step_lem fresh allow s a ha =
      bind-ok _ _ s tt (record s { account = a }) (refresh_lem s a ha)
      ∙ bind-ok _ _ (record s { account = a }) (get_last_bar_timestamp symbol s.store)
          (record s { account = a }) refl

  advance_bar_lem :
      (fresh allow : Bool) (s s' : Engine F) (halted : Bool)
      → trade_bar setup symbol bar fresh allow
          (record s { account = roll_to_day (date bar.timestamp) s.account })
        ≡ (ok halted, s')
      → advance_bar setup symbol bar fresh allow s ≡ persist setup symbol bar fresh halted s'
  unfolding advance_bar get_account set_account ◌>>=◌
  advance_bar_lem fresh allow s s' halted e =
      bind-ok (trade_bar setup symbol bar fresh allow) (persist setup symbol bar fresh)
        (record s { account = roll_to_day (date bar.timestamp) s.account }) halted s' e

  -- While new fills are not allowed, a pending order of a flat symbol stays pending: for a bar that
  -- is new and fresh, where the account is stored, the call returns EXECUTION_HALTED_SKIPPED, and the
  -- store differs only by the day of the account and the cursor of the symbol.
  pub process_bar_halted :
      (s : Engine F) (a : Account F) (order : PaperOrder F)
      → s.store.account ≡ some a
      → bar_order (get_last_bar_timestamp symbol s.store) (to_naive bar.timestamp) ≡ new_bar
      → get_open_position symbol s.store ≡ none
      → get_pending_order symbol s.store ≡ some order
      → let r = process_bar setup symbol bar true false s in
        (r.0 ≡ ok execution_halted_skipped) × (r.1.store ≡ time_passed a s.store)
  unfolding process_bar transaction persist get_account modify_store pure ◌>>=◌
  process_bar_halted s a order ha new flat waits =
      let here = record s { account = a } in
      let rolled = record s { account = roll_to_day (date bar.timestamp) a } in
      let e : bar_step setup symbol bar true false s ≡ persist setup symbol bar true true rolled =
        bar_step_lem true false s a ha
        ∙ ap (λ o. handle setup o symbol bar true false here) new
        ∙ advance_bar_lem true false here rolled true (trade_bar-halted rolled order flat waits) in
      (ap (λ r. (finish s.store r).0) e, ap (λ r. (finish s.store r).1.store) e)

  trade_bar-flag :
      (fresh : Bool) (s : Engine F) (p : Position F)
      → get_open_position symbol s.store ≡ some p
      → trade_bar setup symbol bar fresh true s ≡ trade_bar setup symbol bar fresh false s
  unfolding trade_bar gets pure ◌>>=◌ get_open_position
  trade_bar-flag false s p held = refl
  trade_bar-flag true s p held = rw held

  advance_bar-flag :
      (fresh : Bool) (s : Engine F) (p : Position F)
      → get_open_position symbol s.store ≡ some p
      → advance_bar setup symbol bar fresh true s ≡ advance_bar setup symbol bar fresh false s
  unfolding advance_bar get_account set_account ◌>>=◌
  advance_bar-flag fresh s p held =
      let rolled = record s { account = roll_to_day (date bar.timestamp) s.account } in
      bind_cong (trade_bar setup symbol bar fresh true) (trade_bar setup symbol bar fresh false)
        (persist setup symbol bar fresh) rolled (trade_bar-flag fresh rolled p held)

  handle-flag :
      (o : BarOrder) (fresh : Bool) (s : Engine F) (p : Position F)
      → get_open_position symbol s.store ≡ some p
      → handle setup o symbol bar fresh true s ≡ handle setup o symbol bar fresh false s
  handle-flag duplicate_bar fresh s p held = refl
  handle-flag older_bar fresh s p held = refl
  handle-flag new_bar fresh s p held = advance_bar-flag fresh s p held

  -- An open position is managed in a halt exactly as outside it: with a position open in the symbol
  -- the flag makes no difference to the result or to the state.
  pub process_bar_halt_keeps_exits :
      (fresh : Bool) (s : Engine F) (p : Position F)
      → get_open_position symbol s.store ≡ some p
      → process_bar setup symbol bar fresh true s ≡ process_bar setup symbol bar fresh false s
  unfolding process_bar transaction
  process_bar_halt_keeps_exits fresh s p held =
      ap (finish s.store) (elim (Option-cases s.store.account) [
        | inl missing ↦ unfold bar_step refresh_account gets or_raise raise ◌>>=◌ in rw missing
        | inr (a, ha) ↦
            bar_step_lem fresh true s a ha
            ∙ handle-flag _ fresh (record s { account = a }) p held
            ∙ sym (bar_step_lem fresh false s a ha)
      ])
