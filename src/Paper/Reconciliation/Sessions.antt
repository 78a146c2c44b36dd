-- ===== src/Paper/Reconciliation/Sessions.antt =====
-- paper/reconciliation.py: what is never reported of the tables that the engine wrote.
use trading_workstation.Prelude.{
  ℕ, ◌≡◌, refl, ap, ◌∙◌, Bool, true, false, some, List, [], ◌∷◌, ◌++◌, any, ◌==◌, length, Double,
  arith,
}
use trading_workstation.Risk.Account.{Account}
use trading_workstation.Paper.Models.{Position}
use trading_workstation.Paper.Store.{Store}
use trading_workstation.Paper.Monad.{Engine}
use trading_workstation.Paper.Positions.{Setup}
use trading_workstation.Paper.Books.Bars.{IsReconciled}
use trading_workstation.Paper.Books.Calls.{Call, perform_all, perform_all-IsReconciled}
use trading_workstation.Paper.Journal.{IsKeyed}
use trading_workstation.Paper.Journal.Calls.{perform_all-IsKeyed}
use trading_workstation.Paper.Links.{IsLinked}
use trading_workstation.Paper.Links.Calls.{perform_all-IsLinked}
use trading_workstation.Paper.Reconciliation.{
  Check, account_exists, equity_invariant, quantity_non_negative, peak_equity,
  realized_pnl_matches_trades, trade_count_matches, orphan_position_entry_fill,
  orphan_position_entry_order, orphan_position_exit_fill, orphan_trade, duplicate_signal_execution,
  ReconciliationIssue, signal_ids, position_issues, all_position_issues, all_trade_issues,
  account_issues, row_issues, no_issues, reconcile,
}
use trading_workstation.Paper.Reconciliation.Consistent.{length-distinct_iff, all_trade_issues_iff}

abbrev check_code : Check → ℕ
check_code account_exists = 0
check_code equity_invariant = 1
check_code quantity_non_negative = 2
check_code peak_equity = 3
check_code realized_pnl_matches_trades = 4
check_code trade_count_matches = 5
check_code orphan_position_entry_fill = 6
check_code orphan_position_entry_order = 7
check_code orphan_position_exit_fill = 8
check_code orphan_trade = 9
check_code duplicate_signal_execution = 10

-- `any(issue.check == check for issue in issues)`
abbrev pub reports : Check → List ReconciliationIssue → Bool
reports c = any (λ i. check_code i.check == check_code c)

-- The checks that do not depend on rounding or on what a position refers to.
abbrev pub is_structural : Check → Bool
is_structural account_exists = true
is_structural quantity_non_negative = true
is_structural trade_count_matches = true
is_structural orphan_trade = true
is_structural duplicate_signal_execution = true
is_structural _ = false

reports-append :
    (c : Check) (xs ys : List ReconciliationIssue)
    → reports c xs ≡ false
    → reports c ys ≡ false
    → reports c (xs ++ ys) ≡ false
reports-append c [] ys h g = g
reports-append c (x ∷ xs) ys h g = ground (arith, reports-append c xs ys)

no_issues-reports :
    (c : Check) (xs : List ReconciliationIssue) → no_issues xs ≡ true → reports c xs ≡ false
no_issues-reports c [] h = refl
no_issues-reports c (x ∷ xs) h = cc

module _ {F : Type 0} where
  all_position_issues-reports :
      (c : Check) (st : Store F) (ps : List (Position F))
      → is_structural c ≡ true
      → reports c (all_position_issues st ps) ≡ false
  unfolding all_position_issues
  all_position_issues-reports c st [] h = refl
  all_position_issues-reports c st (p ∷ ps) h =
      reports-append c (position_issues st p) _ (ground arith)
        (all_position_issues-reports c st ps h)

  row_issues-reports :
      (c : Check) (st : Store F)
      → is_structural c ≡ true
      → IsLinked st
      → IsKeyed st.journal
      → reports c (row_issues st) ≡ false
  unfolding row_issues
  row_issues-reports c st h linked keyed =
      let same = (length-distinct_iff (signal_ids st.journal)).1 keyed.signals in
      reports-append c (all_position_issues st st.positions) _
        (all_position_issues-reports c st st.positions h)
        (reports-append c (all_trade_issues st st.trades) _
          (no_issues-reports c _ ((all_trade_issues_iff st st.trades).1 linked.trades))
          (no_issues-reports c _ (ground arith)))

module _ {F : Type 0} ⦃d : Double F⦄ where
  account_issues-reports :
      (c : Check) (a : Account F) (st : Store F)
      → is_structural c ≡ true
      → a.total_trades ≡ length st.trades
      → reports c (account_issues a st) ≡ false
  unfolding account_issues
  account_issues-reports c a st h count = ground arith

  reconcile-issues :
      (a : Account F) (st : Store F)
      → st.account ≡ some a
      → (reconcile st).issues ≡ account_issues a st ++ row_issues st
  unfolding reconcile
  reconcile-issues a st e = rw e refl

  -- After any calls, those that raise included, from tables whose account agrees with them, whose
  -- journal has no key twice and whose references are valid, a reconciliation reports no missing
  -- account, no negative quantity, no wrong number of trades, no trade without its position and no
  -- signal with two entries.
  pub perform_all-reports :
      (setup : Setup F) (cs : List (Call F)) (s : Engine F) (c : Check)
      → IsReconciled s.store
      → IsKeyed s.store.journal
      → IsLinked s.store
      → is_structural c ≡ true
      → reports c (reconcile (perform_all setup cs s).store).issues ≡ false
  perform_all-reports setup cs s c books keyed linked h =
      let st = (perform_all setup cs s).store in
      let (a, e, agrees) = perform_all-IsReconciled setup cs s books in
      ap (reports c) (reconcile-issues a st e)
      ∙ (reports-append c (account_issues a st) (row_issues st)
          (account_issues-reports c a st h agrees.trades)
          (row_issues-reports c st h (perform_all-IsLinked setup cs s linked)
            (perform_all-IsKeyed setup cs s keyed)))
