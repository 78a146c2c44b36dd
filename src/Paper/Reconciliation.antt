-- ===== src/Paper/Reconciliation.antt =====
-- paper/reconciliation.py: the checks of the stored tables. The text of an issue is left out, but for
-- the position or the trade that it names.
pub mod Consistent
pub mod Sessions
use trading_workstation.Prelude.{
  ℕ, ◌+◌, Bool, true, false, not, Option, none, some, List, [], ◌∷◌, ◌++◌, ℤ, pos, Double, ltb,
  ◌==◌, any, length, if◌then◌else◌,
}
use trading_workstation.Risk.Account.{Account, equity}
use trading_workstation.Paper.Models.{PaperOrder, PaperFill, Position, TradeRow, JournalEntry}
use trading_workstation.Paper.Store.{Store}

pub data Check : Type 0 where
  account_exists equity_invariant quantity_non_negative peak_equity : Check
  realized_pnl_matches_trades trade_count_matches orphan_position_entry_fill : Check
  orphan_position_entry_order orphan_position_exit_fill orphan_trade : Check
  duplicate_signal_execution : Check

pub record ReconciliationIssue : Type 0 where
  pub check : Check
  pub subject : Option ℕ

pub record ReconciliationReport : Type 0 where
  pub ok : Bool
  pub issues : List ReconciliationIssue

-- `if test: issues.append(issue)`
abbrev pub issue_if : Bool → Check → Option ℕ → List ReconciliationIssue
issue_if true check subject = record { check = check; subject = subject } ∷ []
issue_if false check subject = []

-- `set(ids)`
abbrev pub distinct : List ℕ → List ℕ
distinct [] = []
distinct (x ∷ xs) = if any (λ y. y == x) xs then distinct xs else x ∷ distinct xs

abbrev pub signal_ids : List JournalEntry → List ℕ
signal_ids [] = []
signal_ids (j ∷ js) = j.signal_id ∷ signal_ids js

-- `not issues`
abbrev pub no_issues : List ReconciliationIssue → Bool
no_issues [] = true
no_issues (i ∷ is) = false

module _ {F : Type 0} where
  abbrev pub net_pnls : List (TradeRow F) → List F
  net_pnls [] = []
  net_pnls (t ∷ ts) = t.trade.net_pnl ∷ net_pnls ts

  abbrev pub has_fill : Store F → ℕ → Bool
  has_fill st id = any (λ f. f.fill_id == id) st.fills

  abbrev pub has_order : Store F → ℕ → Bool
  has_order st id = any (λ o. o.order_id == id) st.orders

  abbrev pub has_position : Store F → ℕ → Bool
  has_position st id = any (λ p. p.position_id == id) st.positions

  -- `exit_fill_id is not None and exit_fill_id not in fill_ids`
  abbrev pub lacks_exit_fill : Store F → Option ℕ → Bool
  lacks_exit_fill st none = false
  lacks_exit_fill st (some id) = not (has_fill st id)

  -- the issues of one position
  abbrev pub position_issues : Store F → Position F → List ReconciliationIssue
  position_issues st p =
      issue_if (not (has_fill st p.entry_fill_id)) orphan_position_entry_fill (some p.position_id)
      ++ (issue_if (not (has_order st p.entry_order_id)) orphan_position_entry_order
            (some p.position_id)
          ++ issue_if (lacks_exit_fill st p.exit_fill_id) orphan_position_exit_fill
              (some p.position_id))

  unfoldable pub all_position_issues : Store F → List (Position F) → List ReconciliationIssue
  all_position_issues st [] = []
  all_position_issues st (p ∷ ps) = position_issues st p ++ all_position_issues st ps

  unfoldable pub all_trade_issues : Store F → List (TradeRow F) → List ReconciliationIssue
  all_trade_issues st [] = []
  all_trade_issues st (t ∷ ts) =
      issue_if (not (has_position st t.position_id)) orphan_trade (some t.trade_id)
      ++ all_trade_issues st ts

  unfoldable pub row_issues : Store F → List ReconciliationIssue
  row_issues st =
      all_position_issues st st.positions
      ++ (all_trade_issues st st.trades
          ++ issue_if
              (not (length (signal_ids st.journal) == length (distinct (signal_ids st.journal))))
              duplicate_signal_execution none)

module _ {F : Type 0} ⦃d : Double F⦄ where
  open d use {add, sub, lt, is_close, total, decimal}

  -- `_PNL_TOLERANCE`
  abbrev pub pnl_tolerance : F
  pnl_tolerance = decimal (pos 1) 6

  -- the checks that come before those of the rows
  unfoldable pub account_issues : Account F → Store F → List ReconciliationIssue
  account_issues a st =
      issue_if
        (not (
          is_close (equity a) (add (add a.cash a.open_position_cost_basis) a.unrealized_pnl)
            pnl_tolerance))
        equity_invariant none
      ++ (issue_if (ltb a.open_position_quantity 0) quantity_non_negative none
          ++ (issue_if (lt a.peak_equity (sub (equity a) pnl_tolerance)) peak_equity none
              ++ (issue_if
                    (not (is_close a.realized_pnl (total (net_pnls st.trades)) pnl_tolerance))
                    realized_pnl_matches_trades none
                  ++ issue_if (not (a.total_trades == length st.trades)) trade_count_matches none)))

  unfoldable pub reconcile : Store F → ReconciliationReport
  reconcile st = elim st.account [
    | none ↦ record { ok = false; issues = issue_if true account_exists none }
    | some a ↦ record {
      ok = no_issues (account_issues a st ++ row_issues st);
      issues = account_issues a st ++ row_issues st;
    }
  ]
