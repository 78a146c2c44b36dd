-- ===== src/Lib.antt =====
-- The deterministic core of the trading workstation.
--
-- A strategy turns market data into signals (strategy/signal.py). The risk engine (risk/) sizes a
-- signal and may veto it. The paper-trading engine (paper/engine.py) takes signals and bars: an
-- approved signal becomes a pending order, a bar fills the order at its open and moves the position,
-- and an exit writes a trade and updates the account. All of its state is in tables of SQLite
-- (paper/store.py), each call is one transaction, and the account is read again at its start. In the
-- live subsystem (live/) binary packets become ticks and ticks become bars (live/dhan/); a pipeline
-- checks a bar for its age, gives it to the engine, and takes the strategy's signal through the critic
-- and the risk engine to the engine or to a human, whose decision is recorded in a table that several
-- processes share; monitors watch the delivery of bars, the sessions of the process and those of the
-- exchange.
--
-- The files:
--   Prelude     tests on numbers, lists, `Option`; `ℤ`; `Double`, the operations on floats; `Whole`,
--               whole numbers with an infinity and a NaN, on which the tests run
--   Signal      strategy/signal.py (`Signal`, `stable_id`), core/timeutil.py (`to_naive`)
--   Risk/Contracts       risk/veto.py, risk/config.py, risk/contracts.py
--   Risk/Account         risk/account.py: a method of `Account` is a function to the new account, or
--                        to none where it raises. Account/Peak: sequences of calls
--   Risk/Engine          risk/engine.py: `evaluate` and the functions it is made of. The children
--                        Safe, Reasons, Reports and Total are about approvals, rejections, the
--                        collected reasons and exceptions
--   Risk/Summary         risk/engine.py, `summarize_risk`
--   Backtesting/Costs, Backtesting/Execution
--                        backtesting/costs.py, backtesting/trade.py, backtesting/execution.py, which
--                        the paper engine shares with the backtester
--   Paper/Models         paper/models.py, paper/errors.py
--   Paper/Store          paper/store.py: the tables and the statements
--   Paper/Monad          a method of `PaperTradingEngine`: state, exceptions, the transaction
--   Paper/Positions, Paper/Bars, Paper/Submit
--                        paper/engine.py: fills and exits, `process_bar` and
--                        `close_at_end_of_data`, `submit_signal`
--   Paper/Outcome        rules for the outcome of a method, one for each kind of statement
--   Paper/Keeps          what every statement keeps of the tables, every call keeps: the interface
--                        `IsStable` asks it of the statements
--   Paper/Journal, Paper/Links
--                        the keys of the journal and the references between tables, kept so
--   Paper/Books          the account against the tables, through all calls
--   Paper/Delivery, Paper/Halts, Paper/Idempotent, Paper/Atomic
--                        repeated bars, stale bars and halts, repeated signals and callers that race
--                        for one, calls that raise
--   Paper/Advance        paper/advance.py. Held, Reports, Runs: what a halt holds back, which symbols are
--                        reported, and which bars the engine gets
--   Paper/Replay         paper/replay.py and paper/session.py. Rows, Steps, Parity: the replay as a
--                        whole and bar by bar
--   Paper/Reconciliation paper/reconciliation.py
--   Live/Approval        live/approval.py. Paths and Ends: the histories, and where they end
--   Live/Durations       `timedelta` and its product with a float
--   Live/Freshness       live/freshness.py
--   Live/GapMonitor      live/gap_monitor.py
--   Live/Heartbeat       live/heartbeat.py
--   Live/Dhan/MarketSession
--                        live/dhan/market_session.py
--   Live/Dhan/Wire       live/dhan/wire.py. Bytes and Bodies: `struct` and the formats. Encode, Ranges,
--                        Fields, ReadBack, Lengths, Dispatch, RoundTrip: the documented layout as an
--                        encoder, and its packets read back. Readers, Sizes: which buffers are read
--   Live/Dhan/CandleBuilder
--                        live/dhan/candle_builder.py. Models, Timestamps: the state, and the guard on
--                        timestamps. Order, Valid, Kept, Bars: soundness of the state and of the bars.
--                        Moves, Ordered: the order of the bars
--   Live/StateStore      live/state_store.py. Closed: decided approvals stay so
--   Live/Pipeline        live/pipeline.py: `process_next`. Monad, Decisions, Setup, Signals, Startup: its state,
--                        the decisions of a human, the way of a signal, the start of the process.
--                        Logs, Moving, Methods, Races: what each method decides, and pipelines that race.
--                        Claims, Outcomes, Orphans: the claims that a crash left behind
--   Samples, Tests       concrete inputs, runs on them, and each theorem at one
--
-- How the code is read:
--   * A float is an element of any type with the operations of `Double`. No law of them is assumed
--     unless a theorem names it, so what is proved holds with rounding, NaN and infinities.
--   * Ids, symbols and names are only compared, so they are numbers, and the order of their texts
--     is that of the numbers; `uuid4` is a counter, and the
--     digest in `stable_id` is a function the engine is built with, of which nothing is assumed.
--   * A `datetime` is the seconds on its wall clock and the zone it may carry; durations in live/ are
--     microseconds. The clock is read by the caller, and is an argument. A conversion between zones
--     is a function that `current_market_session` is given.
--   * A table is a list in the order of the column by which the code reads it. Primary keys, UNIQUE
--     constraints, foreign keys and the conditions of UPDATE statements are tests in `Paper.Store`;
--     serialisation to JSON is left out. SQLite admits one writing transaction at a time, and a
--     call is the step from the tables before it to those after it.
--   * A method takes the state and returns a result, or an exception, with the state it leaves. A
--     transaction takes back the tables after an exception, and not the account in memory.
--   * Recursion is on lists, on counts and on the offset into a buffer. Only the loop `run_to_end` of a
--     session has fuel, for each row and one more, and the theorem of Paper/Replay/Parity shows that
--     it is enough.
--   * A byte is a number below 256, and a float32 is its pattern of bits, to which a function that the
--     reader is given assigns a value. Signed fields are read by two's complement.
--   * Processes that share a store take turns. A turn is what the code does between two statements
--     that decide: the check, the claim and the conclusion of an approval are turns of their own.
--
-- Not modelled: the log messages, and with them the warning about a large gap between bars; the
-- migration of an old database and the read-only listings of `PaperStore`; risk/sizing.py;
-- the backtest loop; the connections and the supervision in live/, the evaluation inside the critic
-- gate, the indicators; the strategies and the decision engine; the dashboard, the servers, language models and research scripts.
pub mod Prelude
pub mod Signal
pub mod Risk
pub mod Backtesting
pub mod Paper
pub mod Live
pub mod Samples
mod Tests
