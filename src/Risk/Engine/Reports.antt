-- ===== src/Risk/Engine/Reports.antt =====
-- risk/engine.py: which reasons `evaluate` reports.
use mathlib.Core.Path.{subst}
use trading_workstation.Prelude.Options.{◌>>=◌}
use trading_workstation.Prelude.{
  ℕ, zero, suc, ◌≡◌, refl, ◌≢◌, inl, inr, Bool, true, false, not, ◌||◌, Option, none, some, List,
  [], ◌∷◌, ◌++◌, ℤ, pos, negsuc, pos_part, Double, num, arith, any, ltb, leb, ◌==◌, Option-cases,
  if◌then◌else◌,
}
use trading_workstation.Signal.{Signal}
use trading_workstation.Risk.Contracts.{
  code, VetoReason, RiskConfig, RiskDecision, invalid_signal, non_finite_value, invalid_stop,
  invalid_risk_reward, zero_position_size, insufficient_capital, max_exposure, max_daily_loss,
  max_drawdown, consecutive_loss_limit, position_already_open,
}
use trading_workstation.Risk.Account.{Account, open_positions, current_drawdown_pct}
use trading_workstation.Risk.Engine.{
  Sizing, at_least_one, unsized, structurally_valid, structural_reasons, account_level_halt_reasons,
  gate_reasons, sizing, sizing_for, sized, decide, evaluate, risk_quantity, affordable, all_finite,
  is_long, daily_loss_breached,
}
use trading_workstation.Risk.Engine.Safe.{FromBlock, evaluate-FromBlock}
use trading_workstation.Risk.Engine.Reasons.{evaluate_approved_iff}

-- `r in reasons`
abbrev pub has : VetoReason → List VetoReason → Bool
has r = any (λ x. code x == code r)

has-append : (r : VetoReason) (xs ys : List VetoReason) → has r (xs ++ ys) ≡ (has r xs || has r ys)
has-append r [] ys = refl
has-append r (x ∷ xs) ys = ground (arith, has-append r xs ys)

module _ {F : Type 0} ⦃d : Double F⦄ (c : RiskConfig F) (s : Signal F) (a : Account F) where
  open d use {lt, le, is_finite, floor, div, mul, sub, eq}

  -- The test of each reason that does not come from sizing.
  abbrev pub applies : VetoReason → Bool
  applies invalid_signal = not (is_long s.side) || le s.target_price s.reference_price
  applies non_finite_value = not (all_finite s a)
  applies invalid_stop = le s.reference_price s.stop_price
  applies invalid_risk_reward = le s.risk_reward (num 0) || lt s.risk_reward c.min_risk_reward
  applies max_daily_loss = daily_loss_breached c a
  applies max_drawdown = le c.max_drawdown_pct (current_drawdown_pct a)
  applies consecutive_loss_limit = leb c.consecutive_loss_hard_limit a.consecutive_losses
  applies position_already_open = ltb 0 (open_positions a)
  applies _ = false

  -- a reason that sizing adds
  abbrev pub of_sizing : VetoReason → Bool
  of_sizing zero_position_size = true
  of_sizing insufficient_capital = true
  of_sizing max_exposure = true
  of_sizing _ = false

  has-gate_reasons : (x : VetoReason) → of_sizing x ≡ false → has x (gate_reasons c s a) ≡ applies x
  unfolding gate_reasons structural_reasons account_level_halt_reasons
  has-gate_reasons invalid_signal h = ground arith
  has-gate_reasons _ h = ground arith

  cut-vetoes :
      (x : VetoReason) (n : ℕ) (o : Option ℤ) {z : Sizing F}
      → of_sizing x ≡ false
      → (o >>= λ reduced. some (
          if at_least_one reduced
          then sized c s a n (pos_part reduced)
          else unsized n (insufficient_capital ∷ [])))
        ≡ some z
      → has x z.vetoes ≡ false
  unfolding sized
  cut-vetoes x n none h e = cc
  cut-vetoes x n (some (pos zero)) h e = ground arith
  cut-vetoes x n (some (negsuc m)) h e = ground arith
  cut-vetoes x n (some (pos (suc m))) h e = ground arith

  sizing_for-vetoes :
      (x : VetoReason) (q : ℤ) (z : Sizing F)
      → of_sizing x ≡ false
      → sizing_for c s a q ≡ some z
      → has x z.vetoes ≡ false
  unfolding sizing_for
  sizing_for-vetoes x (pos zero) z h e = ground arith
  sizing_for-vetoes x (negsuc m) z h e = ground arith
  sizing_for-vetoes x (pos (suc m)) z h e = cut-vetoes x (suc m) (affordable s a (suc m)) h e

  sizing-vetoes :
      (x : VetoReason) (z : Sizing F)
      → of_sizing x ≡ false
      → sizing c s a ≡ some z
      → has x z.vetoes ≡ false
  unfolding sizing
  sizing-vetoes x z h e = elim (Option-cases (risk_quantity c s a)) [
    | inl raised ↦ cc
    | inr (q, hq) ↦ sizing_for-vetoes x q z h (rw hq at e)
  ]

  decide-reports :
      (x : VetoReason) (z : Sizing F)
      → of_sizing x ≡ false
      → has x z.vetoes ≡ false
      → has x (decide c s a z).veto_reasons ≡ applies x
  unfolding decide
  decide-reports x z h f =
      ground (arith, has-append x (gate_reasons c s a) z.vetoes, has-gate_reasons x h)

  FromBlock-reports :
      (x : VetoReason) (r : RiskDecision F)
      → of_sizing x ≡ false
      → FromBlock c s a r
      → has x r.veto_reasons ≡ applies x
  FromBlock-reports x r h (z, e, inl (valid, hz)) =
      subst (λ r. has x r.veto_reasons ≡ applies x) e
        (decide-reports x z h (sizing-vetoes x z h hz))
  FromBlock-reports x r h (z, e, inr (invalid, hz)) =
      subst (λ r. has x r.veto_reasons ≡ applies x) e (decide-reports x z h (rw hz))

  -- All reasons are collected: whenever `evaluate` returns, each reason that does not come from
  -- sizing is reported exactly when its own test holds, whatever the other tests give.
  pub evaluate_reports_all :
      (x : VetoReason) (r : RiskDecision F)
      → of_sizing x ≡ false
      → evaluate c s a ≡ some r
      → has x r.veto_reasons ≡ applies x
  evaluate_reports_all x r h e = FromBlock-reports x r h (evaluate-FromBlock c s a r e)

  -- A signal that fails a structural test, a NaN or an infinity among its values included, is
  -- rejected without an exception, before any sizing: no size, no exposure, a requested and an
  -- approved quantity of 0, and at least one reason.
  pub evaluate_rejects_invalid :
      structurally_valid s a ≡ false
      → (r : RiskDecision F) × (evaluate c s a ≡ some r)
        × (r.approved ≡ false)
        × (r.position_size ≡ none)
        × (r.exposure ≡ none)
        × (r.requested_quantity ≡ 0)
        × (r.approved_quantity ≡ 0)
        × (r.veto_reasons ≢ [])
  unfolding evaluate
  evaluate_rejects_invalid e =
      let r = decide c s a (unsized 0 []) in
      let h : r.approved ≡ false = unfold decide in ground arith in
      (
        r,
        rw e,
        h,
        unfold decide in refl,
        unfold decide in refl,
        unfold decide in refl,
        unfold decide in ground arith,
        λ f. let t = (evaluate_approved_iff c s a r (rw e)).1 f in cc,
      )
