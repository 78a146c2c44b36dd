-- ===== src/Paper/Advance/Reports.antt =====
-- paper/advance.py: which symbols the results are about.
use trading_workstation.Prelude.{
  ℕ, ◌<◌, ◌≡◌, refl, Bool, true, ◌||◌, Option, none, some, List, [], ◌∷◌, All, any, Double, ltb,
  ◌==◌, arith, if_split, ◌+◌, ltb→lt,
}
use trading_workstation.Backtesting.Execution.{Bar}
use trading_workstation.Paper.Models.{PaperOrder, Position}
use trading_workstation.Paper.Store.{pending_for, open_for, is_pending, is_open_status}
use trading_workstation.Paper.Monad.{Engine}
use trading_workstation.Paper.Positions.{Setup}
use trading_workstation.Paper.Bars.{BarOutcome, process_bar}
use trading_workstation.Paper.Advance.{
  SkippedReason, AdvanceResult, caught_split, put_symbol, with_pending_symbols, with_open_symbols,
  due_symbols, new_bars, held_back, feed, fetched, unless_held, after_baseline, advance_symbol,
  advance_each, advance_pending_paper_orders, baseline_timestamp_for,
}
use trading_workstation.Live.StateStore.{LiveStateStore}

abbrev pub Ascending : List ℕ → Type 0
Ascending [] = Unit
Ascending (x ∷ xs) = All (λ y. x < y) xs × Ascending xs

abbrev pub is_among : ℕ → List ℕ → Bool
is_among x ys = any (λ y. y == x) ys

above_smaller : (w x : ℕ) (xs : List ℕ) → w < x → All (λ y. x < y) xs → All (λ y. w < y) xs
above_smaller w x [] h a = tt
above_smaller w x (y ∷ ys) h (a, b) = (omega (arith, h, a), above_smaller w x ys h b)

put_symbol-above :
    (w x : ℕ) (ys : List ℕ) → w < x → All (λ y. w < y) ys → All (λ y. w < y) (put_symbol x ys)
put_symbol-above w x [] h a = (h, tt)
put_symbol-above w x (y ∷ ys) h (a, b) =
    if_split (All (λ y. w < y)) (ltb x y) _ _ (λ _. (h, (a, b)))
      (λ _.
        if_split (All (λ y. w < y)) (x == y) _ _ (λ _. (a, b))
          (λ _. (a, put_symbol-above w x ys h b)))

put_symbol-Ascending : (x : ℕ) (ys : List ℕ) → Ascending ys → Ascending (put_symbol x ys)
put_symbol-Ascending x [] a = (tt, tt)
put_symbol-Ascending x (y ∷ ys) (a, b) =
    if_split Ascending (ltb x y) _ _
      (λ e. ((ltb→lt x y e, above_smaller x y ys (ltb→lt x y e) a), (a, b)))
      (λ e.
        if_split Ascending (x == y) _ _ (λ _. (a, b))
          (λ f. (put_symbol-above y x ys (ground arith) a, put_symbol-Ascending x ys b)))

put_symbol-any :
    (z x : ℕ) (ys : List ℕ) → is_among z (put_symbol x ys) ≡ ((x == z) || is_among z ys)
put_symbol-any z x [] = refl
put_symbol-any z x (y ∷ ys) = ground (arith, put_symbol-any z x ys)

module _ {F : Type 0} where
  pending-Ascending :
      (os : List (PaperOrder F)) (xs : List ℕ)
      → Ascending xs
      → Ascending (with_pending_symbols os xs)
  pending-Ascending [] xs a = a
  pending-Ascending (o ∷ os) xs a =
      if_split Ascending (is_pending o.status) _ _
        (λ _. put_symbol-Ascending o.symbol _ (pending-Ascending os xs a))
        (λ _. pending-Ascending os xs a)

  open-Ascending :
      (ps : List (Position F)) (xs : List ℕ) → Ascending xs → Ascending (with_open_symbols ps xs)
  open-Ascending [] xs a = a
  open-Ascending (p ∷ ps) xs a =
      if_split Ascending (is_open_status p.status) _ _
        (λ _. put_symbol-Ascending p.symbol _ (open-Ascending ps xs a))
        (λ _. open-Ascending ps xs a)

  pending-any :
      (z : ℕ) (os : List (PaperOrder F)) (xs : List ℕ)
      → is_among z (with_pending_symbols os xs) ≡ (any (pending_for z) os || is_among z xs)
  pending-any z [] xs = refl
  pending-any z (o ∷ os) xs =
      ground (arith, pending-any z os xs, put_symbol-any z o.symbol (with_pending_symbols os xs))

  open-any :
      (z : ℕ) (ps : List (Position F)) (xs : List ℕ)
      → is_among z (with_open_symbols ps xs) ≡ (any (open_for z) ps || is_among z xs)
  open-any z [] xs = refl
  open-any z (p ∷ ps) xs =
      ground (arith, open-any z ps xs, put_symbol-any z p.symbol (with_open_symbols ps xs))

abbrev pub symbols_of : List AdvanceResult → List ℕ
symbols_of [] = []
symbols_of (r ∷ rs) = r.symbol ∷ symbols_of rs

module _ {F : Type 0} ⦃d : Double F⦄ (setup : Setup F) (provider : ℕ → Option (List (Bar F)))
    (state_store : Option (LiveStateStore F)) where
  feed-symbol :
      (symbol : ℕ) (bs : List (Bar F)) (bars : ℕ) (last : Option BarOutcome) (s : Engine F)
      → (feed setup provider state_store symbol bs bars last s).0.symbol ≡ symbol
  unfolding feed
  feed-symbol symbol [] bars last s = refl
  feed-symbol symbol (b ∷ bs) bars last s =
      caught_split (λ (r : AdvanceResult × Engine F). r.0.symbol ≡ symbol) _ _
        (process_bar setup symbol b true true s)
        (λ outcome.
          feed-symbol symbol bs (bars + 1) (some outcome)
            (process_bar setup symbol b true true s).1)
        (λ _. refl)

  fetched-symbol :
      (symbol t : ℕ) (o : Option (List (Bar F))) (s : Engine F)
      → (fetched setup provider state_store symbol t o s).0.symbol ≡ symbol
  fetched-symbol symbol t none s = refl
  fetched-symbol symbol t (some bs) s = feed-symbol symbol (new_bars t bs) 0 none s

  unless_held-symbol :
      (symbol t : ℕ) (o : Option SkippedReason) (s : Engine F)
      → (unless_held setup provider state_store symbol t o s).0.symbol ≡ symbol
  unless_held-symbol symbol t (some why) s = refl
  unless_held-symbol symbol t none s = fetched-symbol symbol t (provider symbol) s

  after_baseline-symbol :
      (symbol : ℕ) (o : Option ℕ) (s : Engine F)
      → (after_baseline setup provider state_store symbol o s).0.symbol ≡ symbol
  after_baseline-symbol symbol none s = refl
  after_baseline-symbol symbol (some t) s =
      unless_held-symbol symbol t (held_back setup provider state_store symbol s) s

  advance_each-symbols :
      (xs : List ℕ) (s : Engine F)
      → symbols_of (advance_each setup provider state_store xs s).0 ≡ xs
  unfolding advance_each advance_symbol
  advance_each-symbols [] s = refl
  advance_each-symbols (x ∷ xs) s =
      let s1 = (advance_symbol setup provider state_store x s).1 in
      rw (after_baseline-symbol x (baseline_timestamp_for x s.store) s, advance_each-symbols xs s1)
        refl

  -- Whatever the provider and the engine raise, each symbol that had a pending order or an open
  -- position at the start has exactly one result, and no other symbol has one; the results stand in
  -- the order of the symbols.
  pub advance_pending_paper_orders-symbols :
      (s : Engine F)
      → let reported = symbols_of (advance_pending_paper_orders setup provider state_store s).0 in
        Ascending reported
        × ((z : ℕ)
            → is_among z reported
              ≡ (any (pending_for z) s.store.orders || any (open_for z) s.store.positions))
  unfolding advance_pending_paper_orders
  advance_pending_paper_orders-symbols s = rw (advance_each-symbols (due_symbols s.store) s) (
    pending-Ascending s.store.orders _ (open-Ascending s.store.positions [] tt),
    λ z. ground (
      arith,
      pending-any z s.store.orders (with_open_symbols s.store.positions []),
      open-any z s.store.positions [],
    ),
  )
