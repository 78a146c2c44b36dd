-- ===== src/Paper/Links/Calls.antt =====
-- paper/engine.py: any sequence of calls keeps the references.
use mathlib.Core.Path.{subst}
use trading_workstation.Prelude.{◌≡◌, true, List, [], ◌∷◌, ◌++◌, All-append, Double, arith}
use trading_workstation.Paper.Models.{
  PaperOrder, PaperFill, Position, TradeRow, SignalRow, RiskDecisionRow, JournalEntry,
}
use trading_workstation.Paper.Store.{
  known_signal, without, replace, may_update_position, may_update_order, save_signal,
  save_risk_decision, save_order, update_order, save_fill, save_position, update_position,
  save_trade, save_journal_entry, update_journal_entry, save_account, set_last_bar_timestamp,
}
use trading_workstation.Paper.Monad.{Engine}
use trading_workstation.Paper.Positions.{Setup}
use trading_workstation.Paper.Reconciliation.{has_order, has_position}
use trading_workstation.Paper.Books.Calls.{Call, perform_all}
use trading_workstation.Paper.Keeps.Laws.{IsStable, IsKeptBy}
use trading_workstation.Paper.Keeps.Calls.{perform_all-keeps}
use trading_workstation.Paper.Links.{IsLinked, All_mono, any-append, any-updated, any-replace}

module _ {F : Type 0} where
  save_trade-IsLinked : (row : TradeRow F) → IsKeptBy IsLinked (save_trade row)
  unfolding save_trade
  save_trade-IsLinked row st st' e h =
      let known : has_position st row.position_id ≡ true = ground arith in
      let after : record st { trades = st.trades ++ (row ∷ []) } ≡ st' = ground arith in
      subst IsLinked after (record {
        decisions = h.decisions;
        fills = h.fills;
        trades = All-append _ st.trades (row ∷ []) h.trades (known, tt);
      })

  save_fill-IsLinked : (fill : PaperFill F) → IsKeptBy IsLinked (save_fill fill)
  unfolding save_fill
  save_fill-IsLinked fill st st' e h =
      let known : has_order st fill.order_id ≡ true = ground arith in
      let after : record st { fills = st.fills ++ (fill ∷ []) } ≡ st' = ground arith in
      subst IsLinked after (record {
        decisions = h.decisions;
        fills = All-append _ st.fills (fill ∷ []) h.fills (known, tt);
        trades = h.trades;
      })

  save_risk_decision-IsLinked :
      (row : RiskDecisionRow F) → IsKeptBy IsLinked (save_risk_decision row)
  unfolding save_risk_decision
  save_risk_decision-IsLinked row st st' e h =
      let known : known_signal row.signal_id st ≡ true = ground arith in
      let after : record st { risk_decisions = st.risk_decisions ++ (row ∷ []) } ≡ st' =
        ground arith in
      subst IsLinked after (record {
        decisions = All-append _ st.risk_decisions (row ∷ []) h.decisions (known, tt);
        fills = h.fills;
        trades = h.trades;
      })

  save_signal-IsLinked : (row : SignalRow F) → IsKeptBy IsLinked (save_signal row)
  unfolding save_signal
  save_signal-IsLinked row st st' e h =
      let after : record st { signals = st.signals ++ (row ∷ []) } ≡ st' = ground arith in
      subst IsLinked after (record {
        decisions =
            All_mono _ _ st.risk_decisions (λ r. any-append _ st.signals (row ∷ [])) h.decisions;
        fills = h.fills;
        trades = h.trades;
      })

  save_order-IsLinked : (order : PaperOrder F) → IsKeptBy IsLinked (save_order order)
  unfolding save_order
  save_order-IsLinked order st st' e h =
      let after : record st { orders = st.orders ++ (order ∷ []) } ≡ st' = ground arith in
      subst IsLinked after (record {
        decisions = h.decisions;
        fills = All_mono _ _ st.fills (λ f. any-append _ st.orders (order ∷ [])) h.fills;
        trades = h.trades;
      })

  update_order-IsLinked : (order : PaperOrder F) → IsKeptBy IsLinked (update_order order)
  unfolding update_order
  update_order-IsLinked order st st' e h =
      let after : record st { orders = replace (may_update_order order) order st.orders } ≡ st' =
        ground arith in
      subst IsLinked after (record {
        decisions = h.decisions;
        fills = All_mono _ _ st.fills (λ f. any-replace order f.order_id st.orders) h.fills;
        trades = h.trades;
      })

  save_position-IsLinked : (p : Position F) → IsKeptBy IsLinked (save_position p)
  unfolding save_position
  save_position-IsLinked p st st' e h =
      let after : record st { positions = st.positions ++ (p ∷ []) } ≡ st' = ground arith in
      subst IsLinked after (record {
        decisions = h.decisions;
        fills = h.fills;
        trades = All_mono _ _ st.trades (λ t. any-append _ st.positions (p ∷ [])) h.trades;
      })

  update_position-IsLinked : (p : Position F) → IsKeptBy IsLinked (update_position p)
  unfolding update_position
  update_position-IsLinked p st st' e h =
      let after : record st {
        positions = without (may_update_position p.position_id) st.positions ++ (p ∷ []);
      }
          ≡ st' =
        ground arith in
      subst IsLinked after (record {
        decisions = h.decisions;
        fills = h.fills;
        trades = All_mono _ _ st.trades (λ t. any-updated p t.position_id st.positions) h.trades;
      })

  save_journal_entry-IsLinked :
      (j : JournalEntry) → IsKeptBy {F = F} IsLinked (save_journal_entry j)
  unfolding save_journal_entry
  save_journal_entry-IsLinked j st st' e h =
      let after : record st { journal = st.journal ++ (j ∷ []) } ≡ st' = ground arith in
      subst IsLinked after (record { decisions = h.decisions; fills = h.fills; trades = h.trades })

  IsLinked-IsStable : IsStable {F = F} IsLinked
  unfolding update_journal_entry save_account set_last_bar_timestamp
  IsLinked-IsStable = record {
    signals = save_signal-IsLinked;
    decisions = save_risk_decision-IsLinked;
    orders = save_order-IsLinked;
    fills_of_orders = update_order-IsLinked;
    fills = save_fill-IsLinked;
    positions = save_position-IsLinked;
    updates = update_position-IsLinked;
    trades = save_trade-IsLinked;
    entries = save_journal_entry-IsLinked;
    journal =
        λ id j e st f a b h. record { decisions = h.decisions; fills = h.fills; trades = h.trades };
    accounts = λ a st h. record { decisions = h.decisions; fills = h.fills; trades = h.trades };
    cursors =
        λ symbol ts st h. record { decisions = h.decisions; fills = h.fills; trades = h.trades };
  }

module _ {F : Type 0} ⦃d : Double F⦄ (setup : Setup F) where
  -- Whatever calls are made, those that raise included: if every risk decision names a stored signal,
  -- every fill a stored order and every trade a stored position before, they do after.
  pub perform_all-IsLinked :
      (cs : List (Call F)) (s : Engine F)
      → IsLinked s.store
      → IsLinked (perform_all setup cs s).store
  perform_all-IsLinked cs s h = perform_all-keeps IsLinked IsLinked-IsStable setup cs s h
