-- ===== src/Paper/Books/Close.antt =====
-- paper/engine.py: closing a position, and holding it for one more bar, keep the books.
use trading_workstation.Prelude.{
  ℕ, ◌+◌, ◌≡◌, refl, ◌∙◌, ◌||◌, Bool, true, false, Option, none, some, List, [], ◌∷◌, ◌++◌,
  foldl-append, length-append, arith, any, num, leb, Double,
}
use trading_workstation.Signal.{DateTime, Side}
use trading_workstation.Risk.Account.{
  Account, mark_to_market, marked, close_position, update_peak, closed,
}
use trading_workstation.Backtesting.Execution.{Bar, OpenPosition, ExitReason, expired, check_exit}
use trading_workstation.Paper.Models.{Position, TradeRow}
use trading_workstation.Paper.Store.{
  Store, is_open_status, may_update_position, update_position, without,
}
use trading_workstation.Paper.Monad.{Engine, Action, pure, execute}
use trading_workstation.Paper.Outcome.{
  Ok, bind-Ok, if-Ok, pure-Ok, execute-Ok, then_or_raise, then_execute, then_new_id,
  then_get_account, then_set_account, or_raise-Ok,
}
use trading_workstation.Paper.Positions.{
  Setup, is_expired, record_exit, settle_price, close_open_position, hold, process_open_position,
  to_open_position, slippage,
}
use trading_workstation.Paper.Books.{
  Agrees, realized, add_net, count_open-append, count_open-without,
}
use trading_workstation.Paper.Books.Writes.{
  update_journal-Ok, then_load, Same-Agrees, save_fill-Same, save_trade_lem, update_position_lem,
}

module _ {F : Type 0} ⦃d : Double F⦄ where
  open d use {add}

  realized-append :
      (ts : List (TradeRow F)) (t : TradeRow F)
      → realized (ts ++ (t ∷ [])) ≡ add (realized ts) t.trade.net_pnl
  unfolding realized
  realized-append ts t = foldl-append add_net (num 0) ts (t ∷ [])

  -- The account closes its position as the trade is added and the open row becomes a closed one.
  closed-Agrees :
      (price cost : F) (a a' : Account F) (t : TradeRow F) (p : Position F) (st st' : Store F)
      → Agrees a st
      → close_position price cost t.trade.net_pnl a ≡ some a'
      → is_open_status p.status ≡ false
      → any (may_update_position p.position_id) st.positions ≡ true
      → st'.trades ≡ st.trades ++ (t ∷ [])
      → st'.positions ≡ without (may_update_position p.position_id) st.positions ++ (p ∷ [])
      → Agrees a' st'
  unfolding close_position update_peak closed
  closed-Agrees price cost a a' t p st st' h e o some_row et ep =
      let rest = without (may_update_position p.position_id) st.positions in
      ground (
        arith,
        count_open-append rest (p ∷ []),
        count_open-without p.position_id st.positions some_row,
        realized-append st.trades t,
        length-append st.trades (t ∷ []),
      )

  -- An open row is replaced by an open row.
  held-Agrees :
      (a : Account F) (p : Position F) (st st' : Store F)
      → Agrees a st
      → is_open_status p.status ≡ true
      → any (may_update_position p.position_id) st.positions ≡ true
      → st'.trades ≡ st.trades
      → st'.positions ≡ without (may_update_position p.position_id) st.positions ++ (p ∷ [])
      → Agrees a st'
  held-Agrees a p st st' h o some_row et ep =
      let rest = without (may_update_position p.position_id) st.positions in
      ground (
        arith,
        count_open-append rest (p ∷ []),
        count_open-without p.position_id st.positions some_row,
      )

  marked-Agrees :
      (price : F) (a : Account F) (st : Store F) → Agrees a st → Agrees (mark_to_market price a) st
  unfolding mark_to_market update_peak marked
  marked-Agrees price a st h = ground arith

  abbrev pub InBooks : Engine F → Type 0
  InBooks s = Agrees s.account s.store

module _ {F : Type 0} ⦃d : Double F⦄ (setup : Setup F) where
  record_exit-Agrees :
      (p : Position F) (o : OpenPosition F) (price override : F) (time : DateTime)
      (reason : ExitReason) (s : Engine F)
      → InBooks s
      → Ok (record_exit setup p o price override time reason s) λ x s'. InBooks s'
  unfolding record_exit
  record_exit-Agrees p o price override time reason s h = then_new_id _ _ _ (
      then_execute _ _ _ _ λ st1 e1. then_new_id _ _ _ (
        then_execute _ _ _ _ λ st2 e2. then_execute _ _ _ _ λ st3 e3. then_get_account _ _ _ (
          then_or_raise _ _ _ _ _ λ acc e4. then_set_account _ _ _ _ (
            update_journal-Ok _ _ _ _ λ st same.
              let (et, ep) = save_trade_lem _ st1 st2 e2 in
              let (found, et', ep') = update_position_lem _ st2 st3 e3 in
              Same-Agrees _ _ _ same (
                closed-Agrees _ _ s.account acc _ _ st1 st3
                  (Same-Agrees _ _ _ (save_fill-Same _ _ _ e1) h) e4 refl (rw ep at found)
                  (et' ∙ et) (rw ep at ep'))))))

  settle_price-Ok :
      (override : F) (side : Side) (reason : ExitReason) (at_end : Bool) (Q : F → Engine F → Type 0)
      (s : Engine F)
      → ((price : F) → Q price s)
      → Ok (settle_price setup override side reason at_end s) Q
  unfolding settle_price
  settle_price-Ok override side reason at_end Q s h =
      if-Ok Q s (at_end || is_expired reason) (slippage setup override side false) (pure override)
        (λ slipped. or_raise-Ok _ _ _ _ λ price e. h price) (λ exact. pure-Ok _ _ _ (h override))

  -- Closing a position, at whatever price and for whatever reason, keeps the books.
  pub close-Agrees :
      (p : Position F) (override : F) (time : DateTime) (reason : ExitReason) (at_end : Bool)
      (s : Engine F)
      → InBooks s
      → Ok (close_open_position setup p override time reason at_end s) λ x s'. InBooks s'
  unfolding close_open_position
  close-Agrees p override time reason at_end s h = then_load _ _ _ _ λ signal e. bind-Ok _ _ _ _ (
      settle_price-Ok override _ reason at_end _ s
        λ price. record_exit-Agrees p _ price override time reason s h)

  hold-Agrees :
      (limit : Option ℕ) (p : Position F) (bar : Bar F) (s : Engine F)
      → is_open_status p.status ≡ true
      → InBooks s
      → Ok (hold setup limit p bar s) λ x s'. InBooks s'
  unfolding hold
  hold-Agrees none p bar s o h = pure-Ok _ _ _ h
  hold-Agrees (some limit) p bar s o h =
      if-Ok _ _ (leb limit (p.bars_held + 1))
        (close_open_position setup p bar.close bar.timestamp expired false)
        (execute (update_position (record p { bars_held = p.bars_held + 1 })))
        (λ over. close-Agrees p _ _ _ _ s h)
        (λ under. execute-Ok _ _ _ λ st e.
          let (found, et, ep) = update_position_lem _ s.store st e in
          held-Agrees s.account _ s.store st h o found et ep)

  -- Checking an open position against a bar keeps the books, whether it exits or is held.
  pub process-Agrees :
      (p : Position F) (bar : Bar F) (s : Engine F)
      → is_open_status p.status ≡ true
      → InBooks s
      → Ok (process_open_position setup p bar s) λ x s'. InBooks s'
  unfolding process_open_position
  process-Agrees p bar s o h = then_get_account _ _ _ (
      then_set_account _ _ _ _
        (then_load _ _ _ _ λ signal e. exit_cases (check_exit (to_open_position p signal) bar)))
    where
      h' : Agrees (mark_to_market bar.close s.account) s.store
      h' = marked-Agrees bar.close s.account s.store h

      exit_cases :
          (o : Option (F × ExitReason))
          → Ok
              (elim o as (λ x. Action F (Unit {0})) [
                | none ↦ hold setup setup.max_holding_bars p bar
                | some (price, reason) ↦
                    close_open_position setup p price bar.timestamp reason false
              ]
                (record s { account = mark_to_market bar.close s.account }))
              λ x s'. InBooks s'
      exit_cases none = hold-Agrees setup.max_holding_bars p bar _ o h'
      exit_cases (some (price, reason)) = close-Agrees p price bar.timestamp reason false _ h'
