-- ===== src/Risk/Engine.antt =====
-- risk/engine.py: `RiskEngine`. An uncaught exception of `evaluate` is `none`.
pub mod Reasons
pub mod Reports
pub mod Safe
pub mod Total
use trading_workstation.Prelude.Options.{◌>>=◌}
use trading_workstation.Prelude.{
  ℕ, zero, suc, Bool, true, false, not, ◌&&◌, ◌||◌, Option, none, some, List, [], ◌∷◌, ◌++◌, ℤ, pos,
  negsuc, pos_part, Double, num, checked_div, ltb, leb, all, is_some, if◌then◌else◌,
}
use trading_workstation.Signal.{Side, long, short, Signal}
use trading_workstation.Risk.Contracts.{
  VetoReason, RiskConfig, PositionSize, Exposure, Explanation, approved_units, rejected_for,
  RiskDecision, invalid_signal, non_finite_value, invalid_stop, invalid_risk_reward,
  zero_position_size, insufficient_capital, max_exposure, max_daily_loss, max_drawdown,
  consecutive_loss_limit, position_already_open,
}
use trading_workstation.Risk.Account.{
  Account, equity, current_drawdown_pct, daily_pnl, open_positions,
}

-- `if test: reasons.append(r)`
abbrev pub when : Bool → VetoReason → List VetoReason
when true r = r ∷ []
when false r = []

-- `not reasons`
abbrev pub is_empty : List VetoReason → Bool
is_empty [] = true
is_empty (r ∷ rs) = false

abbrev pub is_long : Side → Bool
is_long long = true
is_long short = false

-- `quantity >= 1`
abbrev pub at_least_one : ℤ → Bool
at_least_one (pos (suc n)) = true
at_least_one _ = false

-- What the block under `if structurally_valid` leaves behind.
pub record Sizing (F : Type 0) : Type 0 where
  pub requested : ℕ
  pub vetoes : List VetoReason
  pub size : Option (PositionSize F)
  pub exposure : Option (Exposure F)

module _ {F : Type 0} ⦃d : Double F⦄ where
  open d use {mul, sub, div, neg, lt, le, is_finite, floor, infinity}

  unfoldable pub daily_loss_breached : RiskConfig F → Account F → Bool
  daily_loss_breached c a =
      let loss_limit = div (mul a.daily_start_equity c.max_daily_loss_pct) (num 100) in
      if le a.daily_start_equity (num 0) then true else le loss_limit (neg (daily_pnl a))

  unfoldable pub account_level_halt_reasons : RiskConfig F → Account F → List VetoReason
  account_level_halt_reasons c a =
      when (daily_loss_breached c a) max_daily_loss
      ++ (when (le c.max_drawdown_pct (current_drawdown_pct a)) max_drawdown
          ++ when (leb c.consecutive_loss_hard_limit a.consecutive_losses) consecutive_loss_limit)

  -- the variable `structurally_valid` and the reasons appended with it
  unfoldable pub all_finite : Signal F → Account F → Bool
  all_finite s a =
      all is_finite
        (s.reference_price ∷ s.stop_price ∷ s.target_price ∷ s.risk_reward ∷ equity a ∷ [])

  unfoldable pub structurally_valid : Signal F → Account F → Bool
  structurally_valid s a =
      all_finite s a
      && is_long s.side
      && not (le s.reference_price s.stop_price)
      && not (le s.target_price s.reference_price)

  unfoldable pub structural_reasons : Signal F → Account F → List VetoReason
  structural_reasons s a =
      when (not (all_finite s a)) non_finite_value
      ++ (when (not (is_long s.side)) invalid_signal
          ++ (when (le s.reference_price s.stop_price) invalid_stop
              ++ when (le s.target_price s.reference_price) invalid_signal))

  -- all reasons that come before sizing
  unfoldable pub gate_reasons : RiskConfig F → Signal F → Account F → List VetoReason
  gate_reasons c s a =
      structural_reasons s a
      ++ (when (le s.risk_reward (num 0) || lt s.risk_reward c.min_risk_reward) invalid_risk_reward
          ++ (when (ltb 0 (open_positions a)) position_already_open
              ++ account_level_halt_reasons c a))

  unfoldable pub in_loss_recovery : RiskConfig F → Account F → Bool
  in_loss_recovery c a = leb c.max_consecutive_losses a.consecutive_losses

  unfoldable pub risk_budget : RiskConfig F → Account F → F
  risk_budget c a =
      let effective_risk_pct =
        if in_loss_recovery c a
        then mul c.risk_per_trade_pct c.consecutive_loss_risk_multiplier
        else c.risk_per_trade_pct in
      div (mul (equity a) effective_risk_pct) (num 100)

  -- `math.floor(risk_budget / risk_per_unit)`
  unfoldable pub risk_quantity : RiskConfig F → Signal F → Account F → Option ℤ
  risk_quantity c s a = checked_div (risk_budget c a) (sub s.reference_price s.stop_price) >>= floor

  -- the reduction to what the cash affords, of a quantity of at least one
  unfoldable pub affordable : Signal F → Account F → ℕ → Option ℤ
  affordable s a quantity =
      let reduced = checked_div a.cash s.reference_price >>= floor in
      if lt a.cash (mul (num quantity) s.reference_price) then reduced else some (pos quantity)

  unfoldable pub exposure_of : Signal F → Account F → ℕ → Exposure F
  exposure_of s a quantity =
      let notional = mul (num quantity) s.reference_price in
      record {
        position_notional = notional;
        account_equity = equity a;
        exposure_pct =
            if lt (num 0) (equity a) then mul (div notional (equity a)) (num 100) else infinity;
      }

  unfoldable pub sized : RiskConfig F → Signal F → Account F → ℕ → ℕ → Sizing F
  sized c s a requested quantity =
      let e = exposure_of s a quantity in
      let risk_per_unit = sub s.reference_price s.stop_price in
      record {
        requested = requested;
        vetoes = when (lt c.max_exposure_pct e.exposure_pct) max_exposure;
        size = some (record {
          quantity = quantity;
          risk_per_unit = risk_per_unit;
          total_risk = mul (num quantity) risk_per_unit;
          notional_value = mul (num quantity) s.reference_price;
        });
        exposure = some e;
      }

  abbrev pub unsized : ℕ → List VetoReason → Sizing F
  unsized requested reasons = record {
    requested = requested;
    vetoes = reasons;
    size = none;
    exposure = none;
  }

  -- the rest of the block, once the quantity is known
  unfoldable pub sizing_for : RiskConfig F → Signal F → Account F → ℤ → Option (Sizing F)
  sizing_for c s a quantity =
      let requested = pos_part quantity in
      let cut = affordable s a requested >>= λ reduced. some (
        if at_least_one reduced
        then sized c s a requested (pos_part reduced)
        else unsized requested (insufficient_capital ∷ [])) in
      if at_least_one quantity then cut else some (unsized requested (zero_position_size ∷ []))

  unfoldable pub sizing : RiskConfig F → Signal F → Account F → Option (Sizing F)
  sizing c s a = do quantity ← risk_quantity c s a; sizing_for c s a quantity

  unfoldable pub explain : Bool → List VetoReason → Option (PositionSize F) → Bool → Explanation F
  explain true reasons (some p) reduced = approved_units p.quantity p.total_risk reduced
  explain _ reasons _ reduced = rejected_for reasons

  abbrev pub risk_amount_of : Option (PositionSize F) → Option F
  risk_amount_of none = none
  risk_amount_of (some p) = some p.total_risk

  abbrev risk_percent_of : Account F → Option (PositionSize F) → Option F
  risk_percent_of a none = none
  risk_percent_of a (some p) =
      if lt (num 0) (equity a) then some (mul (div p.total_risk (equity a)) (num 100)) else none

  abbrev quantity_of : Bool → Option (PositionSize F) → ℕ
  quantity_of true (some p) = p.quantity
  quantity_of _ _ = 0

  unfoldable pub decide : RiskConfig F → Signal F → Account F → Sizing F → RiskDecision F
  decide c s a z =
      let reasons = gate_reasons c s a ++ z.vetoes in
      let approved = structurally_valid s a && is_some z.size && is_empty reasons in
      let reduced = approved && in_loss_recovery c a in
      record {
        approved = approved;
        position_size = z.size;
        risk_amount = risk_amount_of z.size;
        risk_percent = risk_percent_of a z.size;
        exposure = z.exposure;
        veto_reasons = reasons;
        explanation = explain approved reasons z.size reduced;
        risk_reduced = reduced;
        account_equity = equity a;
        current_drawdown_pct = current_drawdown_pct a;
        daily_pnl = daily_pnl a;
        consecutive_losses = a.consecutive_losses;
        requested_quantity = z.requested;
        approved_quantity = quantity_of approved z.size;
      }

  unfoldable pub evaluate : RiskConfig F → Signal F → Account F → Option (RiskDecision F)
  evaluate c s a =
      let block = sizing c s a in
      do z ← if structurally_valid s a then block else some (unsized 0 []); some (decide c s a z)
