-- ===== src/Paper/Advance.antt =====
-- paper/advance.py: after a pause, each symbol with a pending order or an open position is brought up
-- to date with the bars that it missed.
pub mod Reports
pub mod Held
pub mod Runs
use trading_workstation.Prelude.{
  ℕ, ◌+◌, Bool, true, false, Option, none, some, List, [], ◌∷◌, Double, ltb, leb, ◌==◌,
  if◌then◌else◌, is_some,
}
use trading_workstation.Signal.{Signal, to_naive}
use trading_workstation.Risk.{VetoReason}
use trading_workstation.Risk.Account.{open_positions}
use trading_workstation.Risk.Engine.{account_level_halt_reasons}
use trading_workstation.Backtesting.Execution.{Bar}
use trading_workstation.Paper.Models.{PaperOrder, Position, Error}
use trading_workstation.Paper.Store.{
  Store, is_pending, is_open_status, get_signal, get_pending_order, get_open_position,
  get_last_bar_timestamp,
}
use trading_workstation.Paper.Monad.{Engine, Result, ok, err}
use trading_workstation.Paper.Positions.{Setup}
use trading_workstation.Paper.Bars.{BarOutcome, process_bar}
use trading_workstation.Live.StateStore.{LiveStateStore, is_kill_switch_active}

pub data SkippedReason : Type 0 where
  no_safe_baseline position_elsewhere switch_active : SkippedReason
  risk_halt : List VetoReason → SkippedReason

-- what the provider or the engine raised
pub data AdvanceError : Type 0 where
  provider_error : AdvanceError
  engine_raised : Error → AdvanceError

pub record AdvanceResult : Type 0 where
  pub symbol : ℕ
  pub bars_processed : ℕ
  pub last_outcome : Option BarOutcome
  pub skipped_reason : Option SkippedReason
  pub error : Option AdvanceError

abbrev pub skipped : ℕ → SkippedReason → AdvanceResult
skipped symbol why = record {
  symbol = symbol;
  bars_processed = 0;
  last_outcome = none;
  skipped_reason = some why;
  error = none;
}

abbrev pub stopped : ℕ → ℕ → Option BarOutcome → Option AdvanceError → AdvanceResult
stopped symbol bars last error = record {
  symbol = symbol;
  bars_processed = bars;
  last_outcome = last;
  skipped_reason = none;
  error = error;
}

-- the sorted list of a set: an element is put in its place, once
abbrev pub put_symbol : ℕ → List ℕ → List ℕ
put_symbol x [] = x ∷ []
put_symbol x (y ∷ ys) =
    if ltb x y then x ∷ y ∷ ys else if x == y then y ∷ ys else y ∷ put_symbol x ys

abbrev pub or_else : Option ℕ → Option ℕ → Option ℕ
or_else (some t) other = some t
or_else none other = other

abbrev pub halted_by : List VetoReason → Bool → Option SkippedReason
halted_by (r ∷ rs) switch = some (risk_halt (r ∷ rs))
halted_by [] true = some switch_active
halted_by [] false = none

module _ {F : Type 0} where
  abbrev pub with_pending_symbols : List (PaperOrder F) → List ℕ → List ℕ
  with_pending_symbols [] xs = xs
  with_pending_symbols (o ∷ os) xs =
      if is_pending o.status
      then put_symbol o.symbol (with_pending_symbols os xs)
      else with_pending_symbols os xs

  abbrev pub with_open_symbols : List (Position F) → List ℕ → List ℕ
  with_open_symbols [] xs = xs
  with_open_symbols (p ∷ ps) xs =
      if is_open_status p.status
      then put_symbol p.symbol (with_open_symbols ps xs)
      else with_open_symbols ps xs

  -- `sorted(pending_symbols | open_symbols)`
  abbrev pub due_symbols : Store F → List ℕ
  due_symbols st = with_pending_symbols st.orders (with_open_symbols st.positions [])

  abbrev pub generation_time : Option (Signal F) → Option ℕ
  generation_time none = none
  generation_time (some x) = some (to_naive x.generated_at)

  abbrev pub baseline_of_order : Option (PaperOrder F) → Store F → Option ℕ
  baseline_of_order none st = none
  baseline_of_order (some order) st = generation_time (get_signal order.signal_id st)

  unfoldable pub baseline_timestamp_for : ℕ → Store F → Option ℕ
  baseline_timestamp_for symbol st =
      or_else (get_last_bar_timestamp symbol st)
        (baseline_of_order (get_pending_order symbol st) st)

  -- A stable sort. The bars of one provider carry one zone, so that they are ordered as they read.
  abbrev pub put_bar : Bar F → List (Bar F) → List (Bar F)
  put_bar b [] = b ∷ []
  put_bar b (c ∷ cs) =
      if leb (to_naive b.timestamp) (to_naive c.timestamp) then b ∷ c ∷ cs else c ∷ put_bar b cs

  abbrev pub new_bars : ℕ → List (Bar F) → List (Bar F)
  new_bars baseline [] = []
  new_bars baseline (b ∷ bs) =
      if ltb baseline (to_naive b.timestamp)
      then put_bar b (new_bars baseline bs)
      else new_bars baseline bs

  -- `state_store is not None and state_store.is_kill_switch_active()`
  abbrev pub switch_is_on : Option (LiveStateStore F) → Bool
  switch_is_on none = false
  switch_is_on (some st) = is_kill_switch_active st

-- what follows a call, and `except`
abbrev pub caught :
    {F A B : Type 0} → (A → Engine F → B) → (Error → Engine F → B) → Result A × Engine F → B
caught k handler (ok a, s) = k a s
caught k handler (err e, s) = handler e s

pub caught_split :
    {F A B : Type 0} (P : B → Type 0) (k : A → Engine F → B) (handler : Error → Engine F → B)
    (r : Result A × Engine F)
    → ((a : A) → P (k a r.1))
    → ((e : Error) → P (handler e r.1))
    → P (caught k handler r)
caught_split P k handler (ok a, s) f g = f a
caught_split P k handler (err e, s) f g = g e

-- `provider` gives the bars of a symbol, or nothing where it raises.
module _ {F : Type 0} ⦃d : Double F⦄ (setup : Setup F) (provider : ℕ → Option (List (Bar F)))
    (state_store : Option (LiveStateStore F)) where
  -- the three guards on a symbol without an open position
  unfoldable pub held_back : ℕ → Engine F → Option SkippedReason
  held_back symbol s =
      if is_some (get_open_position symbol s.store)
      then none
      else if ltb 0 (open_positions s.account)
      then some position_elsewhere
      else halted_by (account_level_halt_reasons setup.risk_config s.account)
          (switch_is_on state_store)

  unfoldable pub feed :
      ℕ → List (Bar F) → ℕ → Option BarOutcome → Engine F → AdvanceResult × Engine F
  feed symbol [] bars last s = (stopped symbol bars last none, s)
  feed symbol (b ∷ bs) bars last s =
      caught (λ outcome. feed symbol bs (bars + 1) (some outcome))
        (λ e s1. (stopped symbol bars last (some (engine_raised e)), s1))
        (process_bar setup symbol b true true s)

  abbrev pub fetched : ℕ → ℕ → Option (List (Bar F)) → Engine F → AdvanceResult × Engine F
  fetched symbol baseline none s = (stopped symbol 0 none (some provider_error), s)
  fetched symbol baseline (some bs) s = feed symbol (new_bars baseline bs) 0 none s

  abbrev pub unless_held : ℕ → ℕ → Option SkippedReason → Engine F → AdvanceResult × Engine F
  unless_held symbol baseline (some why) s = (skipped symbol why, s)
  unless_held symbol baseline none s = fetched symbol baseline (provider symbol) s

  abbrev pub after_baseline : ℕ → Option ℕ → Engine F → AdvanceResult × Engine F
  after_baseline symbol none s = (skipped symbol no_safe_baseline, s)
  after_baseline symbol (some t) s = unless_held symbol t (held_back symbol s) s

  -- the body of the loop
  unfoldable pub advance_symbol : ℕ → Engine F → AdvanceResult × Engine F
  advance_symbol symbol s = after_baseline symbol (baseline_timestamp_for symbol s.store) s

  unfoldable pub advance_each : List ℕ → Engine F → List AdvanceResult × Engine F
  advance_each [] s = ([], s)
  advance_each (x ∷ xs) s =
      let (r, s1) = advance_symbol x s in let (rs, s2) = advance_each xs s1 in (r ∷ rs, s2)

  unfoldable pub advance_pending_paper_orders : Engine F → List AdvanceResult × Engine F
  advance_pending_paper_orders s = advance_each (due_symbols s.store) s
