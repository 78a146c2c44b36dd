-- ===== src/Paper/Submit.antt =====
-- paper/engine.py: `submit_signal`. `now` is what the clock reads in the call.
use trading_workstation.Prelude.{
  ℕ, Bool, not, ◌||◌, Option, none, some, Double, is_some, if◌then◌else◌,
}
use trading_workstation.Signal.{DateTime, Signal, stable_id}
use trading_workstation.Risk.{RiskDecision, PositionSize}
use trading_workstation.Risk.Engine.{evaluate}
use trading_workstation.Paper.Models.{
  pending, JournalEntry, rejected, skipped_already_active, approved_pending, Error, integrity_error,
  value_error, arithmetic_error,
}
use trading_workstation.Paper.Store.{
  Store, save_signal, save_risk_decision, save_order, get_pending_order, get_open_position,
  save_journal_entry, find_journal_entry_by_signal_id,
}
use trading_workstation.Paper.Monad.{
  Engine, Result, ok, err, Action, pure, raise, or_raise, gets, transaction, ◌>>=◌, ◌>>◌, execute,
  get_account, new_id, refresh_account,
}
use trading_workstation.Paper.Positions.{Setup}

-- the default of the parameter `strategy_version`, the text "1.0"
abbrev pub default_strategy_version : ℕ
default_strategy_version = 10

module _ {F : Type 0} ⦃d : Double F⦄ (setup : Setup F) where
  -- the fields of an entry that do not depend on the outcome
  abbrev pub journal_of : Signal F → ℕ → ℕ → ℕ → ℕ → DateTime → JournalEntry
  journal_of signal signal_id strategy_version risk_decision_id entry_id now = record {
    journal_entry_id = entry_id;
    signal_id = signal_id;
    symbol = signal.symbol;
    risk_decision_id = risk_decision_id;
    order_id = none;
    position_id = none;
    trade_id = none;
    outcome = rejected;
    strategy_name = signal.strategy_name;
    strategy_version = strategy_version;
    risk_config_version = setup.risk_config_version;
    execution_model_version = setup.execution_model_version;
    created_at = now;
    updated_at = now;
    decision_id = signal.decision_id;
  }

  -- the order of an approved signal; an approved decision always has a size
  abbrev pub place_order :
      Signal F → ℕ → Option (PositionSize F) → DateTime → JournalEntry → Action F JournalEntry
  place_order signal signal_id none now j = raise value_error
  place_order signal signal_id (some size) now j = do
    order_id ← new_id
    execute (
        save_order (record {
          order_id = order_id;
          signal_id = signal_id;
          symbol = signal.symbol;
          side = signal.side;
          quantity = size.quantity;
          requested_price = signal.reference_price;
          status = pending;
          created_at = now;
          stop_price = signal.stop_price;
          target_price = signal.target_price;
        }))
    pure (record j { order_id = some order_id; outcome = approved_pending })

  abbrev pub already_active : ℕ → Store F → Bool
  already_active symbol st =
      is_some (get_pending_order symbol st) || is_some (get_open_position symbol st)

  -- the three outcomes of a decision
  unfoldable pub settle :
      Signal F → ℕ → RiskDecision F → Bool → DateTime → JournalEntry → Action F JournalEntry
  settle signal signal_id decision active now j =
      if not decision.approved
      then pure j
      else if active
      then pure (record j { outcome = skipped_already_active })
      else place_order signal signal_id decision.position_size now j

  unfoldable pub submit_signal_transaction : Signal F → ℕ → ℕ → DateTime → Action F JournalEntry
  submit_signal_transaction signal signal_id strategy_version now = transaction (do
    refresh_account
    execute (
        save_signal
          (record { signal_id = signal_id; signal = signal; strategy_version = strategy_version }))
    account ← get_account
    decision ← or_raise (evaluate setup.risk_config signal account) arithmetic_error
    risk_decision_id ← new_id
    execute (
        save_risk_decision (record {
          risk_decision_id = risk_decision_id;
          signal_id = signal_id;
          decision = decision;
          risk_config_version = setup.risk_config_version;
        }))
    entry_id ← new_id
    active ← gets (already_active signal.symbol)
    j ←
        settle signal signal_id decision active now
          (journal_of signal signal_id strategy_version risk_decision_id entry_id now)
    execute (save_journal_entry j)
    pure j)

  -- `except sqlite3.IntegrityError`
  abbrev pub recover : ℕ → Error → Action F JournalEntry
  recover signal_id integrity_error = do
    existing ← gets (find_journal_entry_by_signal_id signal_id)
    or_raise existing integrity_error
  recover signal_id e = raise e

  abbrev pub catch : ℕ → Result JournalEntry × Engine F → Result JournalEntry × Engine F
  catch signal_id (ok j, s) = (ok j, s)
  catch signal_id (err e, s) = recover signal_id e s

  -- what follows a lookup that found nothing; another caller may commit between the two
  abbrev pub submit_unseen : Signal F → ℕ → ℕ → DateTime → Action F JournalEntry
  submit_unseen signal signal_id strategy_version now s =
      catch signal_id (submit_signal_transaction signal signal_id strategy_version now s)

  unfoldable pub submit_signal : Signal F → ℕ → DateTime → Action F JournalEntry
  submit_signal signal strategy_version now = do
    let signal_id = stable_id setup.digest signal
    existing ← gets (find_journal_entry_by_signal_id signal_id)
    elim existing [ some j ↦ pure j | none ↦ submit_unseen signal signal_id strategy_version now ]
