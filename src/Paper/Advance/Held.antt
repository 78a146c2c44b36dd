-- ===== src/Paper/Advance/Held.antt =====
-- paper/advance.py: the symbols that a halt holds back.
use trading_workstation.Prelude.{
  ℕ, ◌≡◌, refl, Bool, true, false, ◌||◌, Option, none, some, List, [], ◌∷◌, All, any, not, Double,
  if_split, is_some, ltb, arith,
}
use trading_workstation.Risk.{VetoReason}
use trading_workstation.Risk.Account.{open_positions}
use trading_workstation.Risk.Engine.{account_level_halt_reasons, is_empty}
use trading_workstation.Backtesting.Execution.{Bar}
use trading_workstation.Paper.Models.{Position}
use trading_workstation.Paper.Store.{find, open_for, is_open_status, get_open_position}
use trading_workstation.Paper.Monad.{Engine}
use trading_workstation.Paper.Positions.{Setup}
use trading_workstation.Paper.Advance.{
  SkippedReason, AdvanceResult, switch_is_on, halted_by, held_back, due_symbols, after_baseline,
  unless_held, advance_symbol, advance_each, advance_pending_paper_orders, baseline_timestamp_for,
}
use trading_workstation.Live.StateStore.{LiveStateStore}

-- The symbol was passed over, with a reason and without a bar.
abbrev pub IsSkipped : AdvanceResult → Type 0
IsSkipped r = (r.bars_processed ≡ 0) × (is_some r.skipped_reason ≡ true) × (r.error ≡ none)

halted_by-some :
    (reasons : List VetoReason) (switch : Bool)
    → (not (is_empty reasons) || switch) ≡ true
    → is_some (halted_by reasons switch) ≡ true
halted_by-some [] true h = refl
halted_by-some [] false h = cc
halted_by-some (r ∷ rs) switch h = refl

module _ {F : Type 0} where
  abbrev pub holds_position : List (Position F) → Bool
  holds_position ps = any (λ p. is_open_status p.status) ps

  find-open_none :
      (symbol : ℕ) (ps : List (Position F))
      → holds_position ps ≡ false
      → find (open_for symbol) ps ≡ none
  find-open_none symbol [] h = refl
  find-open_none symbol (p ∷ ps) h = ground (arith, find-open_none symbol ps)

module _ {F : Type 0} ⦃d : Double F⦄ (setup : Setup F) (provider : ℕ → Option (List (Bar F)))
    (state_store : Option (LiveStateStore F)) where
  -- a circuit breaker of the account or the kill switch
  abbrev pub is_halted : Engine F → Bool
  is_halted s =
      not (is_empty (account_level_halt_reasons setup.risk_config s.account))
      || switch_is_on state_store

  held_back-halted :
      (symbol : ℕ) (s : Engine F)
      → holds_position s.store.positions ≡ false
      → is_halted s ≡ true
      → is_some (held_back setup provider state_store symbol s) ≡ true
  unfolding held_back get_open_position
  held_back-halted symbol s flat halted = rw (find-open_none symbol s.store.positions flat) (
      if_split (λ (o : Option SkippedReason). is_some o ≡ true) (ltb 0 (open_positions s.account)) _
        _ (λ _. refl)
        (λ _. halted_by-some (account_level_halt_reasons setup.risk_config s.account) _ halted))

  abbrev Passed : ℕ → Engine F → AdvanceResult × Engine F → Type 0
  Passed symbol s (r, s1) = (r.symbol ≡ symbol) × IsSkipped r × (s1 ≡ s)

  unless_held-Passed :
      (symbol baseline : ℕ) (o : Option SkippedReason) (s : Engine F)
      → is_some o ≡ true
      → Passed symbol s (unless_held setup provider state_store symbol baseline o s)
  unless_held-Passed symbol baseline none s h = cc
  unless_held-Passed symbol baseline (some why) s h = (refl, (refl, refl, refl), refl)

  after_baseline-Passed :
      (symbol : ℕ) (o : Option ℕ) (s : Engine F)
      → is_some (held_back setup provider state_store symbol s) ≡ true
      → Passed symbol s (after_baseline setup provider state_store symbol o s)
  after_baseline-Passed symbol none s h = (refl, (refl, refl, refl), refl)
  after_baseline-Passed symbol (some t) s h = unless_held-Passed symbol t _ s h

  advance_each-halted :
      (xs : List ℕ) (s : Engine F)
      → holds_position s.store.positions ≡ false
      → is_halted s ≡ true
      → let (rs, s1) = advance_each setup provider state_store xs s in All IsSkipped rs × (s1 ≡ s)
  unfolding advance_each advance_symbol
  advance_each-halted [] s flat halted = (tt, refl)
  advance_each-halted (x ∷ xs) s flat halted =
      let (a, b, c) =
        after_baseline-Passed x (baseline_timestamp_for x s.store) s
          (held_back-halted x s flat halted) in
      let (d, e) = advance_each-halted xs s flat halted in rw c ((b, d), e)

  -- While the kill switch is on, or while a circuit breaker of the account is open, and no position is
  -- open, bringing the account up to date changes nothing: no pending order is filled, each symbol
  -- is reported as skipped with a reason and without a bar, and the engine is as it was.
  pub advance_pending_paper_orders_halted :
      (s : Engine F)
      → holds_position s.store.positions ≡ false
      → is_halted s ≡ true
      → let (rs, s1) = advance_pending_paper_orders setup provider state_store s in
        All IsSkipped rs × (s1 ≡ s)
  unfolding advance_pending_paper_orders
  advance_pending_paper_orders_halted s flat halted =
      advance_each-halted (due_symbols s.store) s flat halted
