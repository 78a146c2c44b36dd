-- ===== src/Paper/Books.antt =====
-- What the account and the tables of trades and positions have to do with one another.
pub mod Writes
pub mod Fill
pub mod Close
pub mod Bars
pub mod Submit
pub mod Calls
pub mod Sessions
use trading_workstation.Prelude.{
  ℕ, zero, suc, ◌+◌, ◌≤◌, ◌≡◌, refl, Bool, true, false, List, [], ◌∷◌, ◌++◌, foldl, foldl-append,
  length, length-append, Double, num, arith, any, if◌then◌else◌, Option, none, some,
}
use trading_workstation.Risk.Account.{Account, open_positions}
use trading_workstation.Paper.Models.{Position, TradeRow}
use trading_workstation.Paper.Store.{Store, is_open_status, may_update_position, without}

module _ {F : Type 0} where
  abbrev pub count_open : List (Position F) → ℕ
  count_open [] = 0
  count_open (p ∷ ps) = (if is_open_status p.status then 1 else 0) + count_open ps

  pub count_open-append :
      (ps qs : List (Position F)) → count_open (ps ++ qs) ≡ count_open ps + count_open qs
  count_open-append [] qs = omega arith
  count_open-append (p ∷ ps) qs = ground (arith, count_open-append ps qs)

  count_open-without_le :
      (id : ℕ) (ps : List (Position F))
      → count_open (without (may_update_position id) ps) ≤ count_open ps
  count_open-without_le id [] = omega arith
  count_open-without_le id (p ∷ ps) = ground (arith, count_open-without_le id ps)

  -- Taking out the open rows of an id takes out at least one, if there is one.
  pub count_open-without :
      (id : ℕ) (ps : List (Position F))
      → any (may_update_position id) ps ≡ true
      → count_open (without (may_update_position id) ps) + 1 ≤ count_open ps
  count_open-without id [] h = cc
  count_open-without id (p ∷ ps) h =
      ground (arith, count_open-without id ps, count_open-without_le id ps)

module _ {F : Type 0} ⦃d : Double F⦄ where
  open d use {add}

  abbrev pub add_net : F → TradeRow F → F
  add_net sum t = add sum t.trade.net_pnl

  -- the net PnL of the trades, added to 0 in their order
  unfoldable pub realized : List (TradeRow F) → F
  realized ts = foldl add_net (num 0) ts

  pub record Agrees (a : Account F) (st : Store F) : Type 0 where
    pub pnl : a.realized_pnl ≡ realized st.trades
    pub trades : a.total_trades ≡ length st.trades
    pub positions : count_open st.positions ≡ open_positions a
