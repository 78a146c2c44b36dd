-- ===== src/Tests/RiskTests.antt =====
-- risk/: runs of the risk engine and of the account, and the theorems at concrete inputs.
use trading_workstation.Prelude.{
  pos, negsuc, ◌≡◌, ◌↔◌, ◌≢◌, refl, true, false, none, some, List, [], ◌∷◌, ℤ, Whole, whole, nan,
  inf, arith, whole_double,
}
use trading_workstation.Signal.{Signal}
use trading_workstation.Risk.{RiskDecision, max_drawdown}
use trading_workstation.Risk.Account.{
  Account, equity, daily_pnl, current_drawdown_pct, update_peak, opened, closed, open_position,
  close_position, roll_to_day, mark_to_market, marked, new_account,
}
use trading_workstation.Risk.Account.Peak.{
  Call, roll, mark, enter, leave, apply, run, IsPeaked, IsAlternating, entries, exits,
  apply-IsPeaked, run_alternates,
}
use trading_workstation.Risk.Engine.{
  unsized, evaluate, decide, sized, sizing, sizing_for, risk_quantity, risk_budget,
  in_loss_recovery, affordable, structurally_valid, all_finite, gate_reasons, structural_reasons,
  account_level_halt_reasons, daily_loss_breached, exposure_of,
}
use trading_workstation.Risk.Engine.Safe.{IsSafe, evaluate-IsSafe}
use trading_workstation.Risk.Engine.Reasons.{evaluate_approved_iff}
use trading_workstation.Risk.Engine.Reports.{
  applies, has, evaluate_reports_all, evaluate_rejects_invalid,
}
use trading_workstation.Risk.Engine.Total.{FloorLaws, evaluate_returns}
use trading_workstation.Prelude.{◌+◌, ◌≤◌, length}
use trading_workstation.Risk.{SignalRecord}
use trading_workstation.Risk.Summary.{summarize_risk, reasons_of, with_approval}
use trading_workstation.Risk.Summary.Counts.{
  tallied, summarize_risk-tallied, summarize_risk_adds_up,
}
use trading_workstation.Samples.{at, rupees, thresholds, flat_account, breakout}

-- 1 % of the capital over a stop distance of 5 is 200 units, and the cash affords them.
abbrev decision : RiskDecision Whole
decision = decide thresholds breakout flat_account (sized thresholds breakout flat_account 200 200)

evaluate-breakout : evaluate thresholds breakout flat_account ≡ some decision
unfolding evaluate sizing risk_quantity risk_budget equity in_loss_recovery sizing_for affordable
    structurally_valid all_finite
evaluate-breakout = refl

approves_breakout : decision.approved ≡ true
unfolding decide sized structurally_valid all_finite gate_reasons structural_reasons
    account_level_halt_reasons daily_loss_breached daily_pnl current_drawdown_pct equity exposure_of
approves_breakout = refl

evaluate-IsSafe_example : IsSafe thresholds breakout flat_account decision
evaluate-IsSafe_example =
    evaluate-IsSafe thresholds breakout flat_account decision evaluate-breakout approves_breakout

evaluate_approved_iff_example : (decision.approved ≡ true) ↔ (decision.veto_reasons ≡ [])
evaluate_approved_iff_example =
    evaluate_approved_iff thresholds breakout flat_account decision evaluate-breakout

evaluate_reports_all_example :
    has max_drawdown decision.veto_reasons ≡ applies thresholds breakout flat_account max_drawdown
evaluate_reports_all_example =
    evaluate_reports_all thresholds breakout flat_account max_drawdown decision refl
      evaluate-breakout

-- a stop that is not a number
abbrev broken : Signal Whole
broken = record breakout { stop_price = nan }

is_broken : structurally_valid broken flat_account ≡ false
unfolding structurally_valid all_finite equity
is_broken = refl

evaluate_rejects_invalid_example :
    (r : RiskDecision Whole) × (evaluate thresholds broken flat_account ≡ some r)
    × (r.approved ≡ false)
    × (r.position_size ≡ none)
    × (r.exposure ≡ none)
    × (r.requested_quantity ≡ 0)
    × (r.approved_quantity ≡ 0)
    × (r.veto_reasons ≢ [])
evaluate_rejects_invalid_example = evaluate_rejects_invalid thresholds broken flat_account is_broken

floor_returns :
    (x : Whole) → whole_double.is_finite x ≡ true → (q : ℤ) × (whole_double.floor x ≡ some q)
floor_returns (whole a) h = (a, refl)
floor_returns nan h = absurd (ground arith)
floor_returns inf h = absurd (ground arith)

add_finite :
    (x y : Whole)
    → whole_double.is_finite (whole_double.add x y) ≡ true
    → whole_double.is_finite x ≡ true
add_finite (whole a) y h = refl
add_finite nan y h = cc
add_finite inf (whole b) h = cc
add_finite inf nan h = cc
add_finite inf inf h = cc

gap_not_zero :
    (x y : Whole)
    → whole_double.is_finite x ≡ true
    → whole_double.is_finite y ≡ true
    → whole_double.le x y ≡ false
    → whole_double.eq (whole_double.sub x y) (rupees 0) ≡ false
gap_not_zero (whole (pos a)) (whole (pos b)) h k l = ground arith
gap_not_zero (whole (pos a)) (whole (negsuc b)) h k l = ground arith
gap_not_zero (whole (negsuc a)) (whole (pos b)) h k l = ground arith
gap_not_zero (whole (negsuc a)) (whole (negsuc b)) h k l = ground arith
gap_not_zero nan y h k l = cc
gap_not_zero inf y h k l = cc
gap_not_zero (whole a) nan h k l = cc
gap_not_zero (whole a) inf h k l = cc

whole-FloorLaws : FloorLaws Whole
whole-FloorLaws = record {
  floor_returns = floor_returns;
  add_finite = add_finite;
  gap_not_zero = gap_not_zero;
}

quota_finite :
    whole_double.is_finite (whole_double.div (risk_budget thresholds flat_account) (rupees 5))
    ≡ true
unfolding risk_budget equity in_loss_recovery
quota_finite = refl

evaluate_returns_example :
    (r : RiskDecision Whole) × (evaluate thresholds breakout flat_account ≡ some r)
evaluate_returns_example =
    evaluate_returns thresholds breakout flat_account whole-FloorLaws (λ _. quota_finite)
      (λ _. refl) refl

lt_irreflexive : (x : Whole) → whole_double.lt x x ≡ false
lt_irreflexive (whole a) = ground arith
lt_irreflexive nan = refl
lt_irreflexive inf = refl

-- the account after it has bought 200 at 101
abbrev invested : Account Whole
invested = update_peak (opened 200 (rupees 101) (rupees 20) flat_account)

buys : apply (enter 200 (rupees 101) (rupees 20)) flat_account ≡ some invested
unfolding apply open_position
buys = refl

flat_account-IsPeaked : IsPeaked flat_account
unfolding equity
flat_account-IsPeaked = refl

apply-IsPeaked_example : IsPeaked invested
apply-IsPeaked_example =
    apply-IsPeaked lt_irreflexive (enter 200 (rupees 101) (rupees 20)) flat_account invested
      flat_account-IsPeaked buys

abbrev day : List (Call Whole)
day =
    roll 1
    ∷ enter 200 (rupees 101) (rupees 20)
    ∷ mark (rupees 103)
    ∷ leave (rupees 110) (rupees 20) (rupees 1760)
    ∷ []

abbrev after_day : Account Whole
after_day = update_peak (
    closed (rupees 110) (rupees 20) (rupees 1760) (
      mark_to_market (rupees 103)
        (update_peak (opened 200 (rupees 101) (rupees 20) (roll_to_day 1 flat_account)))))

starts : new_account (rupees 100_000) ≡ some flat_account
unfolding new_account
starts = refl

runs : run day flat_account ≡ some after_day
unfolding run apply open_position close_position roll_to_day mark_to_market marked update_peak
    opened equity
runs = refl

run_alternates_example : IsAlternating after_day (entries day) (exits day)
run_alternates_example = run_alternates (rupees 100_000) day flat_account after_day starts runs

abbrev refusal : RiskDecision Whole
refusal = decide thresholds broken flat_account (unsized 0 [])

evaluate-broken : evaluate thresholds broken flat_account ≡ some refusal
unfolding evaluate structurally_valid all_finite equity
evaluate-broken = refl

abbrev records : List (SignalRecord Whole)
records =
    record { timestamp = at 1; symbol = 7; signal = breakout; decision = decision }
    ∷ record { timestamp = at 2; symbol = 7; signal = broken; decision = refusal }
    ∷ []

summarize_risk_adds_up_example :
    let z = summarize_risk records in
    (z.signals_approved + z.signals_rejected ≡ z.signals_generated)
    × (z.signals_risk_reduced ≤ z.signals_approved)
    × (z.signals_rejected ≤ tallied z.rejections_by_reason)
summarize_risk_adds_up_example = summarize_risk_adds_up records (
  (thresholds, flat_account, evaluate-breakout),
  ((thresholds, flat_account, evaluate-broken), tt),
)

summarize_risk-tallied_example :
    tallied (summarize_risk records).rejections_by_reason
    ≡ length (reasons_of (with_approval false records))
summarize_risk-tallied_example = summarize_risk-tallied records
