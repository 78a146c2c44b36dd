-- ===== src/Risk/Engine/Reasons.antt =====
-- risk/engine.py: an approval is the absence of reasons.
use mathlib.Core.Path.{subst}
use trading_workstation.Prelude.Options.{◌>>=◌}
use trading_workstation.Prelude.{
  ℕ, zero, suc, ◌≡◌, refl, ◌↔◌, inl, inr, true, false, Option, none, some, List, [], ◌∷◌, ◌++◌, ℤ,
  pos, negsuc, pos_part, Double, arith, Option-cases, is_some, if◌then◌else◌,
}
use trading_workstation.Signal.{Signal}
use trading_workstation.Risk.Contracts.{VetoReason, RiskConfig, RiskDecision, insufficient_capital}
use trading_workstation.Risk.Account.{Account}
use trading_workstation.Risk.Engine.{
  Sizing, at_least_one, unsized, is_empty, structurally_valid, structural_reasons, gate_reasons,
  sizing, sizing_for, sized, decide, evaluate, risk_quantity, affordable,
}
use trading_workstation.Risk.Engine.Safe.{is_empty-eq-nil, FromBlock, evaluate-FromBlock}

is_empty-append :
    (xs ys : List VetoReason)
    → is_empty (xs ++ ys) ≡ true
    → (is_empty xs ≡ true) × (is_empty ys ≡ true)
is_empty-append [] ys h = (refl, h)
is_empty-append (x ∷ xs) ys h = cc

module _ {F : Type 0} ⦃d : Double F⦄ (c : RiskConfig F) (s : Signal F) (a : Account F) where
  open d use {lt, le, is_finite, floor, div, mul, sub, eq}

  -- A block that leaves no size leaves a reason.
  cut-reason :
      (n : ℕ) (reduced : ℤ) {z : Sizing F}
      → some (
          if at_least_one reduced
          then sized c s a n (pos_part reduced)
          else unsized n (insufficient_capital ∷ []))
        ≡ some z
      → is_empty z.vetoes ≡ true
      → is_some z.size ≡ true
  unfolding sized
  cut-reason n (pos zero) e f = ground arith
  cut-reason n (negsuc m) e f = ground arith
  cut-reason n (pos (suc m)) e f = ground arith

  affordable-reason :
      (n : ℕ) (o : Option ℤ) {z : Sizing F}
      → (o >>= λ reduced. some (
          if at_least_one reduced
          then sized c s a n (pos_part reduced)
          else unsized n (insufficient_capital ∷ [])))
        ≡ some z
      → is_empty z.vetoes ≡ true
      → is_some z.size ≡ true
  affordable-reason n none e f = cc
  affordable-reason n (some q) e f = cut-reason n q e f

  sizing_for-reason :
      (q : ℤ) (z : Sizing F)
      → sizing_for c s a q ≡ some z
      → is_empty z.vetoes ≡ true
      → is_some z.size ≡ true
  unfolding sizing_for
  sizing_for-reason (pos zero) z e f = ground arith
  sizing_for-reason (negsuc m) z e f = ground arith
  sizing_for-reason (pos (suc m)) z e f = affordable-reason (suc m) (affordable s a (suc m)) e f

  sizing-reason :
      (z : Sizing F) → sizing c s a ≡ some z → is_empty z.vetoes ≡ true → is_some z.size ≡ true
  unfolding sizing
  sizing-reason z e f = elim (Option-cases (risk_quantity c s a)) [
    | inl raised ↦ cc
    | inr (q, hq) ↦ sizing_for-reason q z (rw hq at e) f
  ]

  -- An invalid signal has a structural reason.
  invalid-reason : structurally_valid s a ≡ false → is_empty (structural_reasons s a) ≡ false
  unfolding structurally_valid structural_reasons
  invalid-reason e = ground arith

  gates-reason : is_empty (gate_reasons c s a) ≡ true → structurally_valid s a ≡ true
  unfolding gate_reasons
  gates-reason e = ground (arith, invalid-reason, is_empty-append (structural_reasons s a) _)

  decide-approved :
      (z : Sizing F)
      → (is_empty (gate_reasons c s a ++ z.vetoes) ≡ true
          → (structurally_valid s a ≡ true) × (is_some z.size ≡ true))
      → ((decide c s a z).approved ≡ true) ↔ ((decide c s a z).veto_reasons ≡ [])
  unfolding decide
  decide-approved z h =
      let reasons = gate_reasons c s a ++ z.vetoes in
      (λ e. is_empty-eq-nil reasons (ground arith), λ e. let (v, o) = h (rw e) in rw (v, o, e))

  FromBlock-approved :
      (r : RiskDecision F) → FromBlock c s a r → (r.approved ≡ true) ↔ (r.veto_reasons ≡ [])
  FromBlock-approved r (z, e, inl (valid, hz)) =
      subst (λ r. (r.approved ≡ true) ↔ (r.veto_reasons ≡ [])) e
        (decide-approved z
          λ h. (valid, sizing-reason z hz (is_empty-append (gate_reasons c s a) z.vetoes h).1))
  FromBlock-approved r (z, e, inr (invalid, hz)) =
      subst (λ r. (r.approved ≡ true) ↔ (r.veto_reasons ≡ [])) e
        (decide-approved z
          λ h. let v = gates-reason (is_empty-append (gate_reasons c s a) z.vetoes h).0 in cc)

  -- Whenever `evaluate` returns, it approves exactly when it has no reason to veto: one reason is
  -- enough to reject, and every rejection names one.
  pub evaluate_approved_iff :
      (r : RiskDecision F) → evaluate c s a ≡ some r → (r.approved ≡ true) ↔ (r.veto_reasons ≡ [])
  evaluate_approved_iff r e = FromBlock-approved r (evaluate-FromBlock c s a r e)
