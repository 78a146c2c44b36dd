-- ===== src/Paper/Store.antt =====
-- paper/store.py: the tables of `PaperStore` and its methods. Each list is a table in the order of
-- its `ORDER BY` column: rows are stamped with the time at which they are written, so an inserted
-- row goes to the end, and so does a position that is updated (`updated_at`).
use trading_workstation.Prelude.{
  ℕ, Bool, true, false, not, ◌&&◌, ◌||◌, Option, none, some, List, [], ◌∷◌, ◌++◌, ◌==◌, any,
  if◌then◌else◌,
}
use trading_workstation.Signal.{Signal}
use trading_workstation.Risk.Account.{Account}
use trading_workstation.Paper.Models.{
  OrderStatus, pending, filled, PaperOrder, PaperFill, PositionStatus, is_open, is_closed, Position,
  JournalEntry, Error, integrity_error, value_error, invalid_position_transition,
  invalid_order_transition, duplicate_trade_for_position, SignalRow, RiskDecisionRow, TradeRow,
  CursorRow,
}

-- `uniqueness_enforced` is the flag trade_position_uniqueness_enforced_at_db_level.
pub record Store (F : Type 0) : Type 0 where
  pub signals : List (SignalRow F)
  pub risk_decisions : List (RiskDecisionRow F)
  pub orders : List (PaperOrder F)
  pub fills : List (PaperFill F)
  pub positions : List (Position F)
  pub trades : List (TradeRow F)
  pub journal : List JournalEntry
  pub account : Option (Account F)
  pub cursors : List CursorRow
  pub uniqueness_enforced : Bool

-- What a write returns: the store after it, or the exception.
pub data Written (F : Type 0) : Type 0 where
  wrote : Store F → Written F
  raised : Error → Written F

module _ {A : Type 0} where
  -- the first row that passes a test, as `fetchone` gives it
  abbrev pub find : (A → Bool) → List A → Option A
  find test [] = none
  find test (x ∷ xs) = if test x then some x else find test xs

  -- the rows that fail a test
  abbrev pub without : (A → Bool) → List A → List A
  without test [] = []
  without test (x ∷ xs) = if test x then without test xs else x ∷ without test xs

  -- every row that passes a test, replaced
  abbrev pub replace : (A → Bool) → A → List A → List A
  replace test new [] = []
  replace test new (x ∷ xs) = (if test x then new else x) ∷ replace test new xs

abbrev pub is_pending : OrderStatus → Bool
is_pending pending = true
is_pending filled = false

abbrev pub is_open_status : PositionStatus → Bool
is_open_status is_open = true
is_open_status is_closed = false

-- `INSERT … ON CONFLICT(symbol) DO UPDATE`
abbrev pub upsert : CursorRow → List CursorRow → List CursorRow
upsert row [] = row ∷ []
upsert row (c ∷ cs) = if c.symbol == row.symbol then row ∷ cs else c ∷ upsert row cs

module _ {F : Type 0} where
  unfoldable pub get_signal : ℕ → Store F → Option (Signal F)
  get_signal id st = elim (find (λ r. r.signal_id == id) st.signals) [
    | none ↦ none
    | some r ↦ some r.signal
  ]

  -- a reference into `signals` that the foreign key checks
  abbrev pub known_signal : ℕ → Store F → Bool
  known_signal id st = any (λ r. r.signal_id == id) st.signals

  unfoldable pub save_signal : SignalRow F → Store F → Written F
  save_signal row st =
      if any (λ r. r.signal_id == row.signal_id) st.signals
      then raised integrity_error
      else wrote (record st { signals = st.signals ++ (row ∷ []) })

  unfoldable pub save_risk_decision : RiskDecisionRow F → Store F → Written F
  save_risk_decision row st =
      if any (λ r. r.risk_decision_id == row.risk_decision_id) st.risk_decisions
        || not (known_signal row.signal_id st)
      then raised integrity_error
      else wrote (record st { risk_decisions = st.risk_decisions ++ (row ∷ []) })

  unfoldable pub save_order : PaperOrder F → Store F → Written F
  save_order order st =
      if any (λ o. o.order_id == order.order_id) st.orders || not (known_signal order.signal_id st)
      then raised integrity_error
      else wrote (record st { orders = st.orders ++ (order ∷ []) })

  -- `WHERE order_id = ? AND status != 'FILLED'`
  abbrev pub may_update_order : PaperOrder F → PaperOrder F → Bool
  may_update_order order o = o.order_id == order.order_id && is_pending o.status

  unfoldable pub update_order : PaperOrder F → Store F → Written F
  update_order order st =
      if any (may_update_order order) st.orders
      then wrote (record st { orders = replace (may_update_order order) order st.orders })
      else if any (λ o. o.order_id == order.order_id) st.orders
      then raised invalid_order_transition
      else raised value_error

  abbrev pub pending_for : ℕ → PaperOrder F → Bool
  pending_for symbol o = o.symbol == symbol && is_pending o.status

  unfoldable pub get_pending_order : ℕ → Store F → Option (PaperOrder F)
  get_pending_order symbol st = find (pending_for symbol) st.orders

  unfoldable pub save_fill : PaperFill F → Store F → Written F
  save_fill fill st =
      if any (λ f. f.fill_id == fill.fill_id) st.fills
        || not (any (λ o. o.order_id == fill.order_id) st.orders)
      then raised integrity_error
      else wrote (record st { fills = st.fills ++ (fill ∷ []) })

  unfoldable pub save_position : Position F → Store F → Written F
  save_position position st =
      if any (λ p. p.position_id == position.position_id) st.positions
      then raised integrity_error
      else wrote (record st { positions = st.positions ++ (position ∷ []) })

  -- `WHERE position_id = ? AND status != 'CLOSED'`
  abbrev pub may_update_position : ℕ → Position F → Bool
  may_update_position id p = p.position_id == id && is_open_status p.status

  unfoldable pub update_position : Position F → Store F → Written F
  update_position position st =
      let row = may_update_position position.position_id in
      if any row st.positions
      then wrote (record st { positions = without row st.positions ++ (position ∷ []) })
      else if any (λ p. p.position_id == position.position_id) st.positions
      then raised invalid_position_transition
      else raised value_error

  abbrev pub open_for : ℕ → Position F → Bool
  open_for symbol p = p.symbol == symbol && is_open_status p.status

  unfoldable pub get_open_position : ℕ → Store F → Option (Position F)
  get_open_position symbol st = find (open_for symbol) st.positions

  unfoldable pub save_trade : TradeRow F → Store F → Written F
  save_trade row st =
      if any (λ t. t.trade_id == row.trade_id) st.trades
      then raised duplicate_trade_for_position
      else if st.uniqueness_enforced && any (λ t. t.position_id == row.position_id) st.trades
      then raised duplicate_trade_for_position
      else if not (any (λ p. p.position_id == row.position_id) st.positions)
      then raised integrity_error
      else wrote (record st { trades = st.trades ++ (row ∷ []) })

  unfoldable pub save_journal_entry : JournalEntry → Store F → Written F
  save_journal_entry entry st =
      if any (λ j. j.journal_entry_id == entry.journal_entry_id || j.signal_id == entry.signal_id)
        st.journal
      then raised integrity_error
      else wrote (record st { journal = st.journal ++ (entry ∷ []) })

  unfoldable pub update_journal_entry : JournalEntry → Store F → Store F
  update_journal_entry entry st = record st {
    journal = replace (λ j. j.journal_entry_id == entry.journal_entry_id) entry st.journal;
  }

  unfoldable pub find_journal_entry_by_signal_id : ℕ → Store F → Option JournalEntry
  find_journal_entry_by_signal_id id st = find (λ j. j.signal_id == id) st.journal

  unfoldable pub save_account : Account F → Store F → Store F
  save_account a st = record st { account = some a }

  unfoldable pub get_last_bar_timestamp : ℕ → Store F → Option ℕ
  get_last_bar_timestamp symbol st = elim (find (λ c. c.symbol == symbol) st.cursors) [
    | none ↦ none
    | some c ↦ some c.last_bar_timestamp
  ]

  unfoldable pub set_last_bar_timestamp : ℕ → ℕ → Store F → Store F
  set_last_bar_timestamp symbol ts st = record st {
    cursors = upsert (record { symbol = symbol; last_bar_timestamp = ts }) st.cursors;
  }
