-- ===== src/Risk/Engine/Safe.antt =====
-- risk/engine.py: what an approval of `evaluate` guarantees, and what keeps it from being one.
use mathlib.Core.Path.{subst}
use mathlib.Core.Option.{some-injective}
use trading_workstation.Prelude.Options.{>>=-eq-some}
use trading_workstation.Prelude.{
  ℕ, ◌≤◌, ◌≡◌, refl, ◌⊎◌, inl, inr, Bool, true, false, some, List, [], ◌∷◌, ◌++◌, ℤ, pos, negsuc,
  pos_part, zero, suc, if◌then◌else◌, ltb, ◌||◌, Option-cases, inr, Double, num, arith, Bool-cases,
}
use trading_workstation.Signal.{Signal, long}
use trading_workstation.Risk.Contracts.{
  VetoReason, position_already_open, invalid_risk_reward, insufficient_capital, RiskConfig,
  PositionSize, RiskDecision,
}
use trading_workstation.Risk.Account.{Account, open_positions}
use trading_workstation.Risk.Engine.{
  Sizing, when, at_least_one, unsized, is_empty, structurally_valid, account_level_halt_reasons,
  gate_reasons, sizing, sized, decide, evaluate, sizing_for, risk_quantity, affordable, exposure_of,
  structural_reasons, all_finite,
}

append-eq-nil : (xs ys : List VetoReason) → xs ++ ys ≡ [] → (xs ≡ []) × (ys ≡ [])
append-eq-nil [] ys h = (refl, h)
append-eq-nil (x ∷ xs) ys h = cc

when-append-nil :
    (b : Bool) (r : VetoReason) (ys : List VetoReason)
    → when b r ++ ys ≡ []
    → (b ≡ false) × (ys ≡ [])
when-append-nil true r ys h = cc
when-append-nil false r ys h = (refl, h)

pub is_empty-eq-nil : (xs : List VetoReason) → is_empty xs ≡ true → xs ≡ []
is_empty-eq-nil [] h = refl
is_empty-eq-nil (x ∷ xs) h = cc

module _ {F : Type 0} ⦃d : Double F⦄ (c : RiskConfig F) (s : Signal F) (a : Account F) where
  open d use {lt, le}

  -- What holds of the size that the block under `if structurally_valid` settles on.
  pub record IsSized (p : PositionSize F) : Type 0 where
    pub positive : 1 ≤ p.quantity
    pub exposed : lt c.max_exposure_pct (exposure_of s a p.quantity).exposure_pct ≡ false

  -- what is known of a block with no reason to veto
  abbrev Clear : Sizing F → Type 0
  Clear z = (p : PositionSize F) → z.size ≡ some p → z.vetoes ≡ [] → IsSized p

  cut-Clear :
      (n : ℕ) (reduced : ℤ) {z : Sizing F}
      → some (
          if at_least_one reduced
          then sized c s a n (pos_part reduced)
          else unsized n (insufficient_capital ∷ []))
        ≡ some z
      → Clear z
  unfolding sized
  cut-Clear n (pos zero) e p f g = ground arith
  cut-Clear n (negsuc m) e p f g = ground arith
  cut-Clear n (pos (suc m)) e p f g = ground arith

  sizing_for-Clear : (q : ℤ) (z : Sizing F) → sizing_for c s a q ≡ some z → Clear z
  unfolding sizing_for
  sizing_for-Clear (pos zero) z e p f g = ground arith
  sizing_for-Clear (negsuc m) z e p f g = ground arith
  sizing_for-Clear (pos (suc m)) z e p f g =
      let (reduced, _, rest) = >>=-eq-some (affordable s a (suc m)) _ e in
      cut-Clear (suc m) reduced rest p f g

  sizing-Clear : (z : Sizing F) → sizing c s a ≡ some z → Clear z
  unfolding sizing
  sizing-Clear z e =
      let (q, _, rest) = >>=-eq-some (risk_quantity c s a) _ e in sizing_for-Clear q z rest

  -- Everything that an approval has checked.
  pub record IsSafe (r : RiskDecision F) : Type 0 where
    pub finite : all_finite s a ≡ true
    pub long_only : s.side ≡ long
    pub stop_below : le s.reference_price s.stop_price ≡ false
    pub target_above : le s.target_price s.reference_price ≡ false
    pub reward_positive : le s.risk_reward (num 0) ≡ false
    pub reward_enough : lt s.risk_reward c.min_risk_reward ≡ false
    pub flat : open_positions a ≡ 0
    pub no_halt : account_level_halt_reasons c a ≡ []
    pub has_size :
        (p : PositionSize F) × (r.position_size ≡ some p)
        × (r.approved_quantity ≡ p.quantity)
        × IsSized p

  gates_open :
      gate_reasons c s a ≡ []
      → (le s.risk_reward (num 0) ≡ false)
        × (lt s.risk_reward c.min_risk_reward ≡ false)
        × (open_positions a ≡ 0)
        × (account_level_halt_reasons c a ≡ [])
  unfolding gate_reasons
  gates_open e =
      let reward = le s.risk_reward (num 0) || lt s.risk_reward c.min_risk_reward in
      let active = ltb 0 (open_positions a) in
      let halts = account_level_halt_reasons c a in
      let later = when active position_already_open ++ halts in
      ground (
        arith,
        append-eq-nil (structural_reasons s a) (when reward invalid_risk_reward ++ later) e,
        when-append-nil reward invalid_risk_reward later,
        when-append-nil active position_already_open halts,
      )

  valid_parts :
      structurally_valid s a ≡ true
      → (all_finite s a ≡ true)
        × (s.side ≡ long)
        × (le s.reference_price s.stop_price ≡ false)
        × (le s.target_price s.reference_price ≡ false)
  unfolding structurally_valid
  valid_parts e = ground arith

  -- `decide` approves only what is safe.
  decide-IsSafe :
      (z : Sizing F) → Clear z → (decide c s a z).approved ≡ true → IsSafe (decide c s a z)
  unfolding decide
  decide-IsSafe z clear e = elim (Option-cases z.size) [
    | inl unsized_block ↦ ground arith
    | inr (p, sized_block) ↦
        let reasons = gate_reasons c s a ++ z.vetoes in
        let both : (structurally_valid s a ≡ true) × (is_empty reasons ≡ true) = ground arith in
        let (gates, vetoes) =
          append-eq-nil (gate_reasons c s a) z.vetoes (is_empty-eq-nil reasons both.1) in
        let v = valid_parts both.0 in
        let g = gates_open gates in
        record {
          finite = v.0;
          long_only = v.1;
          stop_below = v.2;
          target_above = v.3;
          reward_positive = g.0;
          reward_enough = g.1;
          flat = g.2;
          no_halt = g.3;
          has_size = (p, sized_block, ground arith, clear p sized_block vetoes);
        }
  ]

  unsized-Clear : (n : ℕ) (rs : List VetoReason) → Clear (unsized n rs)
  unsized-Clear n rs p f g = ground arith

  -- A decision is made of the block's result, which is empty for a signal that is not valid.
  abbrev pub FromBlock : RiskDecision F → Type 0
  FromBlock r =
      (z : Sizing F) × (decide c s a z ≡ r)
      × ((structurally_valid s a ≡ true) × (sizing c s a ≡ some z)
          ⊎ (structurally_valid s a ≡ false) × (z ≡ unsized 0 []))

  pub evaluate-FromBlock : (r : RiskDecision F) → evaluate c s a ≡ some r → FromBlock r
  unfolding evaluate
  evaluate-FromBlock r e = elim (Bool-cases (structurally_valid s a)) [
    | inl valid ↦
        let (z, hz, hr) = >>=-eq-some (sizing c s a) (λ z. some (decide c s a z)) (rw valid at e) in
        (z, some-injective _ _ hr, inl (valid, hz))
    | inr invalid ↦ (unsized 0 [], some-injective _ _ (rw invalid at e), inr (invalid, refl))
  ]

  FromBlock-IsSafe : (r : RiskDecision F) → FromBlock r → r.approved ≡ true → IsSafe r
  FromBlock-IsSafe r (z, e, inl (valid, hz)) approved =
      subst (λ r. r.approved ≡ true → IsSafe r) e (decide-IsSafe z (sizing-Clear z hz)) approved
  FromBlock-IsSafe r (z, e, inr (invalid, hz)) approved =
      subst (λ r. r.approved ≡ true → IsSafe r) e (decide-IsSafe z (rw hz (unsized-Clear 0 [])))
        approved

  -- A decision that approves has checked every gate: all values are finite, the side is long, the
  -- stop is below the reference price and the target above it, the reward is positive and large
  -- enough, no position is open, no account-level halt applies, and it carries a size of at least
  -- one unit, which is the approved quantity and whose exposure is within the limit.
  pub evaluate-IsSafe :
      (r : RiskDecision F) → evaluate c s a ≡ some r → r.approved ≡ true → IsSafe r
  evaluate-IsSafe r e = FromBlock-IsSafe r (evaluate-FromBlock r e)
