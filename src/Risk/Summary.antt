-- ===== src/Risk/Summary.antt =====
-- risk/engine.py: `summarize_risk`.
pub mod Counts
use trading_workstation.Prelude.{
  ℕ, suc, ◌+◌, Bool, true, false, not, Option, none, some, List, [], ◌∷◌, ◌++◌, foldl, Double, num,
  fmax, ltb, length, ◌==◌, if◌then◌else◌,
}
use trading_workstation.Risk.Contracts.{
  VetoReason, code, RiskDecision, SignalRecord, RiskSummary, invalid_signal, non_finite_value,
  invalid_stop, invalid_risk_reward, zero_position_size, insufficient_capital, max_exposure,
  max_daily_loss, max_drawdown, consecutive_loss_limit, position_already_open,
}

-- `for reason in VetoReason`
abbrev pub all_reasons : List VetoReason
all_reasons =
    invalid_signal ∷ non_finite_value ∷ invalid_stop ∷ invalid_risk_reward ∷ zero_position_size
    ∷ insufficient_capital ∷ max_exposure ∷ max_daily_loss ∷ max_drawdown ∷ consecutive_loss_limit
    ∷ position_already_open ∷ []

-- the tally of one reason
abbrev pub count : VetoReason → List VetoReason → ℕ
count r [] = 0
count r (x ∷ xs) = (if code x == code r then 1 else 0) + count r xs

-- the pairs of the dictionary with a positive count
abbrev pub tallies : List VetoReason → List VetoReason → List (VetoReason × ℕ)
tallies [] found = []
tallies (r ∷ rs) found =
    let n = count r found in let rest = tallies rs found in if ltb 0 n then (r, n) ∷ rest else rest

module _ {F : Type 0} where
  -- the records whose decision is approved, or is not
  abbrev pub with_approval : Bool → List (SignalRecord F) → List (SignalRecord F)
  with_approval flag [] = []
  with_approval flag (r ∷ rs) =
      let rest = with_approval flag rs in
      if (if flag then r.decision.approved else not r.decision.approved) then r ∷ rest else rest

  abbrev pub reasons_of : List (SignalRecord F) → List VetoReason
  reasons_of [] = []
  reasons_of (r ∷ rs) = r.decision.veto_reasons ++ reasons_of rs

  abbrev pub risk_amounts : List (SignalRecord F) → List F
  risk_amounts [] = []
  risk_amounts (r ∷ rs) = elim r.decision.risk_amount [
    | none ↦ risk_amounts rs
    | some x ↦ x ∷ risk_amounts rs
  ]

  abbrev pub count_reduced : List (SignalRecord F) → ℕ
  count_reduced [] = 0
  count_reduced (r ∷ rs) = (if r.decision.risk_reduced then 1 else 0) + count_reduced rs

module _ {F : Type 0} ⦃d : Double F⦄ where
  open d use {div, total}

  abbrev pub average : List F → Option F
  average [] = none
  average (x ∷ xs) = some (div (total (x ∷ xs)) (num (length (x ∷ xs))))

  -- the builtin `max` of a list
  abbrev pub maximum : List F → Option F
  maximum [] = none
  maximum (x ∷ xs) = some (foldl fmax x xs)

  unfoldable pub summarize_risk : List (SignalRecord F) → RiskSummary F
  summarize_risk records =
      let approved = with_approval true records in
      let rejected = with_approval false records in
      record {
        signals_generated = length records;
        signals_approved = length approved;
        signals_rejected = length rejected;
        rejections_by_reason = tallies all_reasons (reasons_of rejected);
        average_risk_amount = average (risk_amounts approved);
        maximum_risk_amount = maximum (risk_amounts approved);
        signals_risk_reduced = count_reduced approved;
      }
