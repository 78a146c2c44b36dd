-- ===== src/Paper/Books/Fill.antt =====
-- paper/engine.py: a fill keeps the books.
use trading_workstation.Prelude.{ℕ, ◌≡◌, refl, true, some, ◌++◌, [], ◌∷◌, Double, arith}
use trading_workstation.Risk.Account.{Account, open_position, update_peak, opened}
use trading_workstation.Backtesting.Execution.{Bar}
use trading_workstation.Paper.Models.{PaperOrder, Position}
use trading_workstation.Paper.Store.{Store, is_open_status}
use trading_workstation.Paper.Monad.{Engine}
use trading_workstation.Paper.Outcome.{
  Ok, bind-Ok, pure-Ok, then_or_raise, then_execute, then_new_id, then_get_account,
  then_set_account,
}
use trading_workstation.Paper.Positions.{Setup, fill_pending_order}
use trading_workstation.Paper.Books.Writes.{
  update_journal-Ok, Same-Agrees, save_fill-Same, update_order-Same, save_position_lem,
}
use trading_workstation.Paper.Books.{Agrees, count_open-append}

module _ {F : Type 0} ⦃d : Double F⦄ where
  -- The account opens a position as the table gains an open row.
  pub opened-Agrees :
      (q : ℕ) (price cost : F) (a a' : Account F) (p : Position F) (st st' : Store F)
      → Agrees a st
      → open_position q price cost a ≡ some a'
      → is_open_status p.status ≡ true
      → st'.trades ≡ st.trades
      → st'.positions ≡ st.positions ++ (p ∷ [])
      → Agrees a' st'
  unfolding open_position update_peak opened
  opened-Agrees q price cost a a' p st st' h e o et ep =
      ground (arith, count_open-append st.positions (p ∷ []))

module _ {F : Type 0} ⦃d : Double F⦄ (setup : Setup F) where
  -- Filling an order keeps the books, and hands on a position that is open.
  pub fill-Agrees :
      (order : PaperOrder F) (bar : Bar F) (s : Engine F)
      → Agrees s.account s.store
      → Ok
          (fill_pending_order setup order bar s)
          λ p s'. Agrees s'.account s'.store × (is_open_status p.status ≡ true)
  unfolding fill_pending_order
  fill-Agrees order bar s h = then_or_raise _ _ _ _ _ λ price e. then_new_id _ _ _ (
      then_execute _ _ _ _ λ st1 e1. then_execute _ _ _ _ λ st2 e2. then_new_id _ _ _ (
        then_execute _ _ _ _ λ st3 e3. then_get_account _ _ _ (
          then_or_raise _ _ _ _ _ λ acc e4. then_set_account _ _ _ _ (
            bind-Ok _ _ _ _ (
              update_journal-Ok _ _ _ _ λ st same. pure-Ok _ _ _ (
                Same-Agrees _ _ _ same (
                    opened-Agrees _ _ _ s.account acc _ st2 st3
                      (Same-Agrees _ _ _ (update_order-Same _ _ _ e2)
                        (Same-Agrees _ _ _ (save_fill-Same _ _ _ e1) h))
                      e4 refl (save_position_lem _ _ _ e3).0 (save_position_lem _ _ _ e3).1),
                refl,
              ))))))
