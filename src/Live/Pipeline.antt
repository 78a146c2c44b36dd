-- ===== src/Live/Pipeline.antt =====
-- live/pipeline.py: `process_next` of `LiveSimPipeline`. What the feed delivers is an argument.
pub mod Monad
pub mod Decisions
pub mod Setup
pub mod Signals
pub mod Startup
mod Outcomes
mod Claims
pub mod Orphans
pub mod Logs
pub mod Moving
pub mod Methods
pub mod Races
use trading_workstation.Prelude.{
  ℕ, ◌-◌, Bool, true, false, not, ◌||◌, Option, none, some, List, [], ◌∷◌, ◌++◌, ◌==◌, is_some,
  length, ltb, Double, if◌then◌else◌,
}
use trading_workstation.Signal.{DateTime, Signal, to_naive}
use trading_workstation.Risk.Engine.{account_level_halt_reasons}
use trading_workstation.Backtesting.Execution.{Bar}
use trading_workstation.Paper.Models.{Error, out_of_order_bar}
use trading_workstation.Paper.Store.{get_open_position}
use trading_workstation.Paper.Monad.{Engine, Result, ok, err}
use trading_workstation.Paper.Bars.{
  BarOutcome, processed, duplicate_skipped, stale_skipped, execution_halted_skipped, process_bar,
}
use trading_workstation.Live.Durations.{seconds}
use trading_workstation.Live.Freshness.{FreshnessResult, check}
use trading_workstation.Live.StateStore.Models.{FeedStatusRecord}
use trading_workstation.Live.StateStore.{save_feed_status}
use trading_workstation.Live.Pipeline.Monad.{
  SymbolBuffer, Live, Step, pure, raise, gets, ◌>>=◌, ◌>>◌, modify, write_if_stored,
  kill_switch_active, calendar_interval, engine_error,
}
use trading_workstation.Live.Pipeline.Decisions.{expire_pending_approvals}
use trading_workstation.Live.Pipeline.Setup.{
  PipelineSetup, PipelineStepResult, StepKind, bar_processed, duplicate_skipped_step,
  out_of_order_rejected, stale_signal_suppressed, pending_fill_halted, feed_disconnected,
  feed_exhausted, no_new_data, kill_switch_stop,
}
use trading_workstation.Live.Pipeline.Signals.{bare, with_signal, buffer_of, handle_signal}

pub record FeedBar (F : Type 0) : Type 0 where
  pub symbol : ℕ
  pub bar : Bar F
  pub source : ℕ
  pub status : ℕ
  pub received_at : Option DateTime
  pub connection_state : Option ℕ

-- what `source.next_bar()` does
pub data FeedEvent (F : Type 0) : Type 0 where
  disconnected no_new_bar exhausted : FeedEvent F
  delivered : FeedBar F → FeedEvent F

abbrev pub or_now : Option DateTime → DateTime → DateTime
or_now none now = now
or_now (some t) now = t

-- `deque(maxlen=1000)`
abbrev pub max_buffer_bars : ℕ
max_buffer_bars = 1000

abbrev pub without_first : {A : Type 0} → List A → List A
without_first [] = []
without_first (x ∷ xs) = xs

module _ {F : Type 0} where
  abbrev pub bounded : List (Bar F) → List (Bar F)
  bounded bars = if ltb max_buffer_bars (length bars) then without_first bars else bars

  -- `buffer.append(bar)`, in the buffer of the symbol, which is made where there is none
  abbrev pub append_bar : ℕ → Bar F → List (SymbolBuffer F) → List (SymbolBuffer F)
  append_bar symbol bar [] = record { symbol = symbol; bars = bar ∷ [] } ∷ []
  append_bar symbol bar (b ∷ bs) =
      if b.symbol == symbol
      then record b { bars = bounded (b.bars ++ (bar ∷ [])) } ∷ bs
      else b ∷ append_bar symbol bar bs

  abbrev pub feed_status_of : FeedBar F → DateTime → FeedStatusRecord F
  feed_status_of event now = record {
    symbol = event.symbol;
    source = event.source;
    status = event.status;
    bar_timestamp = event.bar.timestamp;
    received_at = or_now event.received_at now;
    connection_state = event.connection_state;
    updated_at = now;
    last_price = some event.bar.close;
  }

  abbrev pub checked : Option FreshnessResult → Step F FreshnessResult
  checked none = raise calendar_interval
  checked (some r) = pure r

  -- the engine's outcome, or none for its OutOfOrderBarError, which is caught
  abbrev pub of_bar : Live F → Result BarOutcome × Engine F → Step F (Option BarOutcome)
  of_bar before (ok outcome, e) s = pure (some outcome) (record s { engine = e })
  of_bar before (err out_of_order_bar, e) s = pure none (record s { engine = e })
  of_bar before (err x, e) s = raise (engine_error x) (record s { engine = e })

module _ {F : Type 0} ⦃d : Double F⦄ (setup : PipelineSetup F) where
  -- `allow_new_fill`
  unfoldable pub allow_new_fill : ℕ → Live F → Bool
  allow_new_fill symbol s =
      is_some (get_open_position symbol s.engine.store)
      || not (
          not (
            length (account_level_halt_reasons setup.engine_setup.risk_config s.engine.account)
            == 0)
          || kill_switch_active s)

  unfoldable pub feed_bar : FeedBar F → Bool → Bool → Step F (Option BarOutcome)
  feed_bar event is_fresh allow s =
      of_bar s (process_bar setup.engine_setup event.symbol event.bar is_fresh allow s.engine) s

  abbrev pub on_generated : Option (Signal F) → ℕ → DateTime → Step F (PipelineStepResult F)
  on_generated none symbol now = pure (bare bar_processed [])
  on_generated (some signal) symbol now = do
    active ← gets kill_switch_active
    if active
        then pure (with_signal kill_switch_stop signal)
        else handle_signal setup signal symbol now

  -- the bar is new and was taken: it joins the buffer, and the strategy may see it
  unfoldable pub after_bar : FeedBar F → Bool → DateTime → Step F (PipelineStepResult F)
  after_bar event is_fresh now = do
    modify (λ s. record s { buffers = append_bar event.symbol event.bar s.buffers })
    bars ← gets (λ s. buffer_of event.symbol s.buffers)
    if is_fresh
        then on_generated (setup.strategy bars event.symbol) event.symbol now
        else pure (bare stale_signal_suppressed [])

  abbrev pub on_outcome :
      Option BarOutcome → FeedBar F → Bool → DateTime → Step F (PipelineStepResult F)
  on_outcome none event is_fresh now = pure (bare out_of_order_rejected [])
  on_outcome (some duplicate_skipped) event is_fresh now = pure (bare duplicate_skipped_step [])
  on_outcome (some execution_halted_skipped) event is_fresh now = pure (bare pending_fill_halted [])
  on_outcome (some processed) event is_fresh now = after_bar event is_fresh now
  on_outcome (some stale_skipped) event is_fresh now = after_bar event is_fresh now

  unfoldable pub process_event : FeedBar F → DateTime → Step F (PipelineStepResult F)
  process_event event now = do
    write_if_stored (save_feed_status (feed_status_of event now))
    freshness ← checked (
        check setup.freshness_policy (seconds (to_naive event.bar.timestamp))
          setup.interval_quantity setup.interval_unit (seconds (to_naive now)))
    allow ← gets (allow_new_fill event.symbol)
    outcome ← feed_bar event freshness.is_fresh allow
    on_outcome outcome event freshness.is_fresh now

  abbrev pub on_event : FeedEvent F → DateTime → Step F (PipelineStepResult F)
  on_event disconnected now = pure (bare feed_disconnected [])
  on_event no_new_bar now = pure (bare no_new_data [])
  on_event exhausted now = pure (bare feed_exhausted [])
  on_event (delivered event) now = process_event event now

  unfoldable pub process_next : FeedEvent F → DateTime → Step F (PipelineStepResult F)
  process_next event now = do
    expired ← expire_pending_approvals now
    result ← on_event event now
    pure (record result { expired_signal_ids = expired })
