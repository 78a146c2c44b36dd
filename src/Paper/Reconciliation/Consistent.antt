-- ===== src/Paper/Reconciliation/Consistent.antt =====
-- paper/reconciliation.py: what a report without issues means.
use mathlib.Core.Option.{some-injective}
use trading_workstation.Prelude.{
  ℕ, ◌≤◌, ◌≡◌, ◌↔◌, refl, sym, ◌∙◌, Bool, true, false, not, Option, none, some, List, [], ◌∷◌, ◌++◌,
  Double, ◌==◌, any, length, All, arith, inl, inr, Option-cases,
}
use trading_workstation.Risk.Account.{Account, equity}
use trading_workstation.Paper.Models.{Position, TradeRow}
use trading_workstation.Paper.Store.{Store}
use trading_workstation.Paper.Reconciliation.{
  Check, orphan_trade, duplicate_signal_execution, ReconciliationIssue, issue_if, distinct,
  net_pnls, signal_ids, has_fill, has_order, has_position, lacks_exit_fill, position_issues,
  all_position_issues, all_trade_issues, pnl_tolerance, account_issues, row_issues, no_issues,
  reconcile,
}

-- No id occurs twice.
abbrev pub IsDistinct : List ℕ → Type 0
IsDistinct [] = Unit
IsDistinct (x ∷ xs) = (any (λ y. y == x) xs ≡ false) × IsDistinct xs

distinct-length_le : (xs : List ℕ) → length (distinct xs) ≤ length xs
distinct-length_le [] = omega arith
distinct-length_le (x ∷ xs) = ground (arith, distinct-length_le xs)

pub length-distinct_iff : (xs : List ℕ) → (length xs ≡ length (distinct xs)) ↔ IsDistinct xs
length-distinct_iff [] = (λ h. tt, λ h. refl)
length-distinct_iff (x ∷ xs) = (
  λ h. (
    ground (arith, distinct-length_le xs),
    (length-distinct_iff xs).0 (ground (arith, distinct-length_le xs)),
  ),
  λ (fresh, rest). ground (arith, (length-distinct_iff xs).1 rest),
)

no_issues-append :
    (xs ys : List ReconciliationIssue)
    → (no_issues (xs ++ ys) ≡ true) ↔ ((no_issues xs ≡ true) × (no_issues ys ≡ true))
no_issues-append [] ys = (λ h. (refl, h), λ h. h.1)
no_issues-append (x ∷ xs) ys = (λ h. ground arith, λ h. ground arith)

no_issues-issue_if :
    (b : Bool) (c : Check) (s : Option ℕ) → (no_issues (issue_if b c s) ≡ true) ↔ (b ≡ false)
no_issues-issue_if b c s = (λ h. ground arith, λ h. ground arith)

module _ {F : Type 0} where
  -- A row of positions whose fills and order are in their tables.
  pub record IsRooted (st : Store F) (p : Position F) : Type 0 where
    pub entry_fill : has_fill st p.entry_fill_id ≡ true
    pub entry_order : has_order st p.entry_order_id ≡ true
    pub exit_fill : (id : ℕ) → p.exit_fill_id ≡ some id → has_fill st id ≡ true

  lacks_exit_fill_iff :
      (st : Store F) (o : Option ℕ)
      → (lacks_exit_fill st o ≡ false) ↔ ((id : ℕ) → o ≡ some id → has_fill st id ≡ true)
  lacks_exit_fill_iff st none = (λ h id e. cc, λ h. refl)
  lacks_exit_fill_iff st (some x) =
      (λ h id e. ground (arith, some-injective _ _ e), λ h. ground (arith, h x refl))

  position_issues_iff :
      (st : Store F) (p : Position F) → (no_issues (position_issues st p) ≡ true) ↔ IsRooted st p
  position_issues_iff st p =
      let exit = lacks_exit_fill_iff st p.exit_fill_id in
      (
        λ h. record {
          entry_fill = ground arith;
          entry_order = ground arith;
          exit_fill = exit.0 (ground arith);
        },
        λ r. ground (arith, r.entry_fill, r.entry_order, exit.1 r.exit_fill),
      )

  all_position_issues_iff :
      (st : Store F) (ps : List (Position F))
      → (no_issues (all_position_issues st ps) ≡ true) ↔ All (IsRooted st) ps
  unfolding all_position_issues
  all_position_issues_iff st [] = (λ h. tt, λ h. refl)
  all_position_issues_iff st (p ∷ ps) =
      let split = no_issues-append (position_issues st p) (all_position_issues st ps) in
      let here = position_issues_iff st p in
      let rest = all_position_issues_iff st ps in
      (λ h. (here.0 (split.0 h).0, rest.0 (split.0 h).1), λ (a, b). split.1 (here.1 a, rest.1 b))

  pub all_trade_issues_iff :
      (st : Store F) (ts : List (TradeRow F))
      → (no_issues (all_trade_issues st ts) ≡ true)
        ↔ All (λ t. has_position st t.position_id ≡ true) ts
  unfolding all_trade_issues
  all_trade_issues_iff st [] = (λ h. tt, λ h. refl)
  all_trade_issues_iff st (t ∷ ts) =
      let rest = all_trade_issues_iff st ts in
      let split =
        no_issues-append
          (issue_if (not (has_position st t.position_id)) orphan_trade (some t.trade_id))
          (all_trade_issues st ts) in
      (
        λ h. let (a, b) = split.0 h in (ground arith, rest.0 b),
        λ (a, b). split.1 (ground arith, rest.1 b),
      )

  -- The tables refer to rows that are there, and no signal has two entries in the journal.
  pub record IsConsistent (st : Store F) : Type 0 where
    pub positions : All (IsRooted st) st.positions
    pub trades : All (λ t. has_position st t.position_id ≡ true) st.trades
    pub signals : IsDistinct (signal_ids st.journal)

  row_issues_iff : (st : Store F) → (no_issues (row_issues st) ≡ true) ↔ IsConsistent st
  unfolding row_issues
  row_issues_iff st =
      let dup =
        issue_if (not (length (signal_ids st.journal) == length (distinct (signal_ids st.journal))))
          duplicate_signal_execution none in
      let outer =
        no_issues-append (all_position_issues st st.positions)
          (all_trade_issues st st.trades ++ dup) in
      let inner = no_issues-append (all_trade_issues st st.trades) dup in
      let ps = all_position_issues_iff st st.positions in
      let ts = all_trade_issues_iff st st.trades in
      let ids = length-distinct_iff (signal_ids st.journal) in
      (
        λ h.
            let (a, more) = outer.0 h in
            let (b, c) = inner.0 more in
            record { positions = ps.0 a; trades = ts.0 b; signals = ids.0 (ground arith) },
        λ r.
            let same = ids.1 r.signals in
            outer.1 (ps.1 r.positions, inner.1 (ts.1 r.trades, ground arith)),
      )

contradiction : ¬ (false ≡ true)
contradiction h = cc

module _ {F : Type 0} ⦃d : Double F⦄ where
  open d use {add, sub, lt, is_close, total}

  -- The account passes its own checks and those against the trades.
  pub record IsSettled (a : Account F) (st : Store F) : Type 0 where
    pub equity_holds :
        is_close
          (equity a)
          (add (add a.cash a.open_position_cost_basis) a.unrealized_pnl)
          pnl_tolerance
        ≡ true
    pub peak_holds : lt a.peak_equity (sub (equity a) pnl_tolerance) ≡ false
    pub pnl_holds : is_close a.realized_pnl (total (net_pnls st.trades)) pnl_tolerance ≡ true
    pub count_holds : a.total_trades ≡ length st.trades

  account_issues_iff :
      (a : Account F) (st : Store F) → (no_issues (account_issues a st) ≡ true) ↔ IsSettled a st
  unfolding account_issues
  account_issues_iff a st = (
    λ h. record {
      equity_holds = ground arith;
      peak_holds = ground arith;
      pnl_holds = ground arith;
      count_holds = ground arith;
    },
    λ r. ground (arith, r.equity_holds, r.peak_holds, r.pnl_holds, r.count_holds),
  )

  reconcile-missing : (st : Store F) → st.account ≡ none → (reconcile st).ok ≡ false
  unfolding reconcile
  reconcile-missing st e = rw e

  reconcile-some :
      (st : Store F) (a : Account F)
      → st.account ≡ some a
      → (reconcile st).ok ≡ no_issues (account_issues a st ++ row_issues st)
  unfolding reconcile
  reconcile-some st a e = rw e refl

  -- A report is ok exactly if there is an account, it is settled, and the tables are consistent.
  pub reconcile_ok_iff :
      (st : Store F)
      → ((reconcile st).ok ≡ true)
        ↔ ((a : Account F) × (st.account ≡ some a) × IsSettled a st × IsConsistent st)
  reconcile_ok_iff st = (
    λ h. elim (Option-cases st.account) [
      | inl missing ↦ absurd (contradiction (sym (reconcile-missing st missing) ∙ h))
      | inr (a, e) ↦
          let (settled, rows) =
            (no_issues-append _ (row_issues st)).0 (sym (reconcile-some st a e) ∙ h) in
          (a, e, (account_issues_iff a st).0 settled, (row_issues_iff st).0 rows)
    ],
    λ (a, e, settled, rows).
        reconcile-some st a e
        ∙ (no_issues-append _ _).1
            ((account_issues_iff a st).1 settled, (row_issues_iff st).1 rows),
  )
