-- ===== src/Signal.antt =====
-- strategy/signal.py: the trade candidate, and its identity.
-- Symbols, strategy names and ids are only compared, so they are numbers; a `datetime` is the wall
-- clock in seconds with the zone it may carry.
use trading_workstation.Prelude.{ℕ, ◌/◌, Option, List}

pub data Side : Type 0 where
  long short : Side

pub data ReasonCode : Type 0 where
  trend_confirmed momentum_confirmed volume_confirmed decision_engine_scored : ReasonCode
  random_baseline pullback_confirmed mean_reversion_oversold : ReasonCode
  relative_strength_confirmed breakout_confirmed cross_sectional_laggard : ReasonCode

pub record DateTime : Type 0 where
  pub wall : ℕ
  pub tzinfo : Option ℕ

-- `datetime.date()`, as a day number
abbrev pub date : DateTime → ℕ
date t = t.wall / 86400

-- `core.timeutil.to_naive` of a `datetime`
abbrev pub to_naive : DateTime → ℕ
to_naive t = t.wall

pub record Signal (F : Type 0) : Type 0 where
  pub symbol : ℕ
  pub generated_at : DateTime
  pub side : Side
  pub reference_price : F
  pub stop_price : F
  pub target_price : F
  pub risk_reward : F
  pub strategy_name : ℕ
  pub reason_codes : List ReasonCode
  pub decision_id : Option ℕ

-- The fields that `stable_id` joins, before they are hashed.
pub record Identity (F : Type 0) : Type 0 where
  pub symbol : ℕ
  pub generated_at : DateTime
  pub strategy_name : ℕ
  pub side : Side
  pub reference_price : F
  pub stop_price : F
  pub target_price : F

-- `digest` stands for the first 24 digits of the SHA-256 of the joined text.
unfoldable pub stable_id : {F : Type 0} → (Identity F → ℕ) → Signal F → ℕ
stable_id digest s = digest (record {
  symbol = s.symbol;
  generated_at = s.generated_at;
  strategy_name = s.strategy_name;
  side = s.side;
  reference_price = s.reference_price;
  stop_price = s.stop_price;
  target_price = s.target_price;
})
