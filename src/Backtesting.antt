-- ===== src/Backtesting.antt =====
-- The parts of backtesting/ that the paper engine runs on: costs.py, trade.py and execution.py.
pub mod Costs
pub mod Execution
