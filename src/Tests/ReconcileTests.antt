-- ===== src/Tests/ReconcileTests.antt =====
-- paper/reconciliation.py: a report after a signal, its fill and a late bar.
use trading_workstation.Prelude.{◌≡◌, ◌↔◌, refl, true, [], ◌∷◌, some, Whole, whole_double}
use trading_workstation.Risk.Account.{Account, equity}
use trading_workstation.Paper.Store.{Store}
use trading_workstation.Paper.Reconciliation.{
  reconcile, orphan_position_entry_fill, orphan_position_entry_order, account_issues, row_issues,
  all_position_issues, all_trade_issues,
}
use trading_workstation.Paper.Reconciliation.Consistent.{IsSettled, IsConsistent, reconcile_ok_iff}
use trading_workstation.Prelude.{false, List}
use trading_workstation.Paper.Books.{realized}
use trading_workstation.Paper.Books.Bars.{IsReconciled}
use trading_workstation.Paper.Books.Calls.{Call, bar, signal, perform_all}
use trading_workstation.Paper.Reconciliation.{orphan_trade}
use trading_workstation.Paper.Reconciliation.Sessions.{reports, perform_all-reports}
use trading_workstation.Samples.{
  at, setup, breakout, quiet_bar, target_bar, new_engine, flat_account,
}
use trading_workstation.Tests.PaperRuns.{holding}

-- an open position whose fill and order were lost
abbrev orphaned : Store Whole
orphaned = record new_engine.store { positions = holding ∷ [] }

orphans_found : (reconcile orphaned).issues ≡ (
    record { check = orphan_position_entry_fill; subject = some 5 }
    ∷ record { check = orphan_position_entry_order; subject = some 5 }
    ∷ [])
unfolding reconcile account_issues row_issues all_position_issues all_trade_issues equity
orphans_found = refl

new_store_ok : (reconcile new_engine.store).ok ≡ true
unfolding reconcile account_issues row_issues all_position_issues all_trade_issues equity
new_store_ok = refl

reconcile_ok_iff_example : ((reconcile orphaned).ok ≡ true) ↔ (
    (a : Account Whole) × (orphaned.account ≡ some a)
    × IsSettled a orphaned
    × IsConsistent orphaned)
reconcile_ok_iff_example = reconcile_ok_iff orphaned

abbrev calls : List (Call Whole)
calls =
    signal breakout 1 (at 100_000) ∷ bar 7 quiet_bar true true ∷ bar 7 target_bar true false ∷ []

new_engine-IsReconciled : IsReconciled new_engine.store
unfolding realized
new_engine-IsReconciled =
    (flat_account, refl, record { pnl = refl; trades = refl; positions = refl })

perform_all-reports_example :
    reports orphan_trade (reconcile (perform_all setup calls new_engine).store).issues ≡ false
perform_all-reports_example =
    perform_all-reports setup calls new_engine orphan_trade new_engine-IsReconciled
      (record { entries = tt; signals = tt }) (record { decisions = tt; fills = tt; trades = tt })
      refl
