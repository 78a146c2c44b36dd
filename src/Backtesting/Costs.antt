-- ===== src/Backtesting/Costs.antt =====
-- backtesting/costs.py: `CostModel`. `none` is the NotImplementedError of a short side.
use trading_workstation.Prelude.{Bool, Option, none, some, pos, Double, num, if◌then◌else◌}
use trading_workstation.Signal.{Side, long, short}

pub record CostModel (F : Type 0) : Type 0 where
  pub brokerage_per_fill : F
  pub fees_pct : F
  pub taxes_pct : F
  pub entry_slippage_bps : F
  pub exit_slippage_bps : F

module _ {F : Type 0} ⦃d : Double F⦄ where
  open d use {decimal, add, sub, mul, div}

  -- `CostModel()`
  abbrev pub default_costs : CostModel F
  default_costs = record {
    brokerage_per_fill = decimal (pos 200) 1;
    fees_pct = decimal (pos 0) 1;
    taxes_pct = decimal (pos 0) 1;
    entry_slippage_bps = decimal (pos 50) 1;
    exit_slippage_bps = decimal (pos 50) 1;
  }

  abbrev pub india_nse_intraday_2026 : CostModel F
  india_nse_intraday_2026 = record {
    brokerage_per_fill = decimal (pos 200) 1;
    fees_pct = decimal (pos 375) 5;
    taxes_pct = decimal (pos 25) 3;
    entry_slippage_bps = decimal (pos 50) 1;
    exit_slippage_bps = decimal (pos 100) 1;
  }

  unfoldable pub cost_for_fill : CostModel F → F → F
  cost_for_fill c notional =
      add c.brokerage_per_fill (div (mul notional (add c.fees_pct c.taxes_pct)) (num 100))

  unfoldable pub slippage_adjusted_price : CostModel F → F → Side → Bool → Option F
  slippage_adjusted_price c price short is_entry = none
  slippage_adjusted_price c price long is_entry =
      let bps = if is_entry then c.entry_slippage_bps else c.exit_slippage_bps in
      let adjustment = div (mul price bps) (num 10_000) in
      some (if is_entry then add price adjustment else sub price adjustment)
