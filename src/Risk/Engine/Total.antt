-- ===== src/Risk/Engine/Total.antt =====
-- risk/engine.py: when `evaluate` returns.
use trading_workstation.Prelude.{
  ℕ, zero, suc, ◌≡◌, refl, inl, inr, true, false, some, [], ◌∷◌, ℤ, pos, negsuc, pos_part, Double,
  num, arith, Bool-cases, if◌then◌else◌,
}
use trading_workstation.Signal.{Signal}
use trading_workstation.Risk.Contracts.{
  RiskConfig, RiskDecision, zero_position_size, insufficient_capital,
}
use trading_workstation.Risk.Account.{Account, equity, open_position_notional}
use trading_workstation.Risk.Engine.{
  Sizing, at_least_one, unsized, structurally_valid, all_finite, sizing, sizing_for, sized, decide,
  evaluate, risk_quantity, risk_budget, affordable,
}

-- IEEE arithmetic, with gradual underflow, has these properties.
pub record FloorLaws (F : Type 0) ⦃d : Double F⦄ : Type 0 where
  pub floor_returns : (x : F) → d.is_finite x ≡ true → (q : ℤ) × (d.floor x ≡ some q)
  pub add_finite : (x y : F) → d.is_finite (d.add x y) ≡ true → d.is_finite x ≡ true
  pub gap_not_zero :
      (x y : F)
      → d.is_finite x ≡ true
      → d.is_finite y ≡ true
      → d.le x y ≡ false
      → d.eq (d.sub x y) (num 0) ≡ false

module _ {F : Type 0} ⦃d : Double F⦄ (c : RiskConfig F) (s : Signal F) (a : Account F) where
  open d use {lt, le, is_finite, floor, div, mul, sub, eq}

  affordable_returns :
      ((x : F) → is_finite x ≡ true → (q : ℤ) × (floor x ≡ some q))
      → eq s.reference_price (num 0) ≡ false
      → is_finite (div a.cash s.reference_price) ≡ true
      → (n : ℕ) → (q : ℤ) × (affordable s a n ≡ some q)
  unfolding affordable
  affordable_returns law nonzero fin n =
      let (q, hq) = law (div a.cash s.reference_price) fin in
      elim (Bool-cases (lt a.cash (mul (num n) s.reference_price))) [
        | inl short ↦ (q, rw (short, nonzero, hq))
        | inr enough ↦ (pos n, rw enough)
      ]

  sizing_for_returns :
      (q : ℤ)
      → (q' : ℤ) × (affordable s a (pos_part q) ≡ some q')
      → (z : Sizing F) × (sizing_for c s a q ≡ some z)
  unfolding sizing_for
  sizing_for_returns (pos zero) h = (unsized 0 (zero_position_size ∷ []), refl)
  sizing_for_returns (negsuc m) h = (unsized 0 (zero_position_size ∷ []), refl)
  sizing_for_returns (pos (suc m)) (q', h) = (
    if at_least_one q'
        then sized c s a (suc m) (pos_part q')
        else unsized (suc m) (insufficient_capital ∷ []),
    rw h,
  )

  -- what the guard has found, once it lets a signal through
  record IsGuarded : Type 0 where
    reference_finite : is_finite s.reference_price ≡ true
    stop_finite : is_finite s.stop_price ≡ true
    equity_finite : is_finite (equity a) ≡ true
    stop_below : le s.reference_price s.stop_price ≡ false

  guarded_signal : structurally_valid s a ≡ true → IsGuarded
  unfolding structurally_valid all_finite
  guarded_signal valid = ground arith

  -- For every signal, NaN and infinities included, and every account, `evaluate` returns a decision
  -- with no exception, if two quotients do not overflow: the risk budget of a finite equity over the
  -- stop distance, and a finite amount of cash over the reference price, which is not zero. What
  -- the guard lets through is then divided and floored safely: the floats need `floor` to return
  -- at finite values, a sum to be finite only with its first term, and the difference of two finite
  -- numbers to be zero only where the first is at most the second.
  pub evaluate_returns :
      FloorLaws F
      → (is_finite (equity a) ≡ true
          → is_finite (div (risk_budget c a) (sub s.reference_price s.stop_price)) ≡ true)
      → (is_finite a.cash ≡ true → is_finite (div a.cash s.reference_price) ≡ true)
      → eq s.reference_price (num 0) ≡ false
      → (r : RiskDecision F) × (evaluate c s a ≡ some r)
  unfolding evaluate sizing risk_quantity equity
  evaluate_returns laws quota cover nonzero = elim (Bool-cases (structurally_valid s a)) [
    | inl valid ↦
        let g = guarded_signal valid in
        let gap =
          laws.gap_not_zero s.reference_price s.stop_price g.reference_finite g.stop_finite
            g.stop_below in
        let cash = laws.add_finite a.cash (open_position_notional a) g.equity_finite in
        let (q, hq) =
          laws.floor_returns (div (risk_budget c a) (sub s.reference_price s.stop_price))
            (quota g.equity_finite) in
        let (z, hz) =
          sizing_for_returns q
            (affordable_returns laws.floor_returns nonzero (cover cash) (pos_part q)) in
        (decide c s a z, rw (valid, gap, hq, hz))
    | inr invalid ↦ (decide c s a (unsized 0 []), rw invalid)
  ]
