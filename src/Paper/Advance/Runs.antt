-- ===== src/Paper/Advance/Runs.antt =====
-- paper/advance.py: what the engine is given, as runs of calls.
use trading_workstation.Prelude.{
  ℕ, ◌<◌, ◌≤◌, ◌+◌, ◌≡◌, refl, true, Option, none, some, List, [], ◌∷◌, All, Double, ltb, leb,
  arith, if_split, ltb→lt, lt→ltb, leb→le, length,
}
use mathlib.Core.List.{Memᴰ}
use mathlib.Core.Path.{subst}
use trading_workstation.Signal.{to_naive}
use trading_workstation.Backtesting.Execution.{Bar}
use trading_workstation.Paper.Monad.{Engine}
use trading_workstation.Paper.Positions.{Setup}
use trading_workstation.Paper.Bars.{BarOutcome, process_bar}
use trading_workstation.Paper.Books.Calls.{Call, bar, perform, perform_all}
use trading_workstation.Paper.Advance.{
  SkippedReason, AdvanceResult, caught_split, put_bar, new_bars, held_back, feed, fetched,
  unless_held, after_baseline, advance_symbol, advance_each, due_symbols,
  advance_pending_paper_orders, baseline_timestamp_for,
}
use trading_workstation.Live.StateStore.{LiveStateStore}

module _ {F : Type 0} where
  abbrev pub wall : Bar F → ℕ
  wall b = to_naive b.timestamp

  abbrev pub InOrder : List (Bar F) → Type 0
  InOrder [] = Unit
  InOrder (b ∷ bs) = All (λ c. wall b ≤ wall c) bs × InOrder bs

  -- a call for each bar, with the flags as they are by default
  abbrev pub bar_calls : ℕ → List (Bar F) → List (Call F)
  bar_calls symbol [] = []
  bar_calls symbol (b ∷ bs) = bar symbol b true true ∷ bar_calls symbol bs

  put_bar-later :
      (t : ℕ) (b : Bar F) (bs : List (Bar F))
      → t ≤ wall b
      → All (λ c. t ≤ wall c) bs
      → All (λ c. t ≤ wall c) (put_bar b bs)
  put_bar-later t b [] h a = (h, tt)
  put_bar-later t b (c ∷ cs) h (e, a) =
      if_split (All (λ c. t ≤ wall c)) (leb (wall b) (wall c)) _ _ (λ _. (h, (e, a)))
        (λ _. (e, put_bar-later t b cs h a))

  later :
      (t u : ℕ) (bs : List (Bar F)) → t ≤ u → All (λ c. u ≤ wall c) bs → All (λ c. t ≤ wall c) bs
  later t u [] h a = tt
  later t u (b ∷ bs) h (e, a) = (omega (arith, h, e), later t u bs h a)

  put_bar-InOrder : (b : Bar F) (bs : List (Bar F)) → InOrder bs → InOrder (put_bar b bs)
  put_bar-InOrder b [] h = (tt, tt)
  put_bar-InOrder b (c ∷ cs) (a, h) =
      if_split InOrder (leb (wall b) (wall c)) _ _
        (λ e.
          let le = leb→le (wall b) (wall c) e in ((le, later (wall b) (wall c) cs le a), (a, h)))
        (λ e. (put_bar-later (wall c) b cs (ground arith) a, put_bar-InOrder b cs h))

  new_bars-InOrder : (t : ℕ) (bs : List (Bar F)) → InOrder (new_bars t bs)
  new_bars-InOrder t [] = tt
  new_bars-InOrder t (b ∷ bs) =
      if_split InOrder (ltb t (wall b)) _ _ (λ _. put_bar-InOrder b _ (new_bars-InOrder t bs))
        (λ _. new_bars-InOrder t bs)

  put_bar-All :
      (P : Bar F → Type 0) (b : Bar F) (bs : List (Bar F)) → P b → All P bs → All P (put_bar b bs)
  put_bar-All P b [] h a = (h, tt)
  put_bar-All P b (c ∷ cs) h (e, a) =
      if_split (All P) (leb (wall b) (wall c)) _ _ (λ _. (h, (e, a)))
        (λ _. (e, put_bar-All P b cs h a))

  new_bars-All :
      (P : Bar F → Type 0) (t : ℕ) (bs : List (Bar F))
      → ((b : Bar F) → Memᴰ b bs → t < wall b → P b)
      → All P (new_bars t bs)
  new_bars-All P t [] h = tt
  new_bars-All P t (b ∷ bs) h =
      if_split (All P) (ltb t (wall b)) _ _
        (λ e.
          put_bar-All P b _ (h b (Memᴰ.head refl) (ltb→lt t (wall b) e))
            (new_bars-All P t bs (λ c m. h c (Memᴰ.tail m))))
        (λ _. new_bars-All P t bs (λ c m. h c (Memᴰ.tail m)))

module _ {F : Type 0} (P : Bar F → Type 0) where
  All-put_bar : (b : Bar F) (bs : List (Bar F)) → All P (put_bar b bs) → P b × All P bs
  All-put_bar b [] (h, a) = (h, tt)
  All-put_bar b (c ∷ cs) h =
      if_split (λ (bs : List (Bar F)). All P bs → P b × All P (c ∷ cs)) (leb (wall b) (wall c)) _ _
        (λ _ k. k) (λ _ k. let (p, a) = All-put_bar b cs k.1 in (p, (k.0, a))) h

  -- what is so of the new bars is so of each bar that is later
  All-new_bars :
      (t : ℕ) (bs : List (Bar F)) → All P (new_bars t bs) → All (λ c. t < wall c → P c) bs
  All-new_bars t [] h = tt
  All-new_bars t (b ∷ bs) h =
      if_split (λ (cs : List (Bar F)). All P cs → All (λ c. t < wall c → P c) (b ∷ bs))
        (ltb t (wall b)) _ _
        (λ _ k. let (p, a) = All-put_bar b (new_bars t bs) k in (λ _. p, All-new_bars t bs a))
        (λ e k. (λ less. cc (lt→ltb t (wall b) less), All-new_bars t bs k)) h

module _ {A : Type 0} (P Q : A → Type 0) where
  All-both : (xs : List A) → All P xs → All Q xs → All (λ x. P x × Q x) xs
  All-both [] p q = tt
  All-both (x ∷ xs) (p, ps) (q, qs) = ((p, q), All-both xs ps qs)

  All-map : ((x : A) → P x → Q x) → (xs : List A) → All P xs → All Q xs
  All-map f [] h = tt
  All-map f (x ∷ xs) (p, h) = (f x p, All-map f xs h)

  All-first : (xs : List A) → All (λ x. P x × Q x) xs → All P xs
  All-first [] h = tt
  All-first (x ∷ xs) ((p, q), h) = (p, All-first xs h)

  All-second : (xs : List A) → All (λ x. P x × Q x) xs → All Q xs
  All-second [] h = tt
  All-second (x ∷ xs) ((p, q), h) = (q, All-second xs h)

module _ {F : Type 0} ⦃d : Double F⦄ (setup : Setup F) (provider : ℕ → Option (List (Bar F)))
    (state_store : Option (LiveStateStore F)) where
  -- A bar that may be given to the engine in the state at the start of the run: the symbol is not
  -- held back, the provider has the bar, and it is later than the baseline.
  abbrev pub MayBeFed : ℕ → Engine F → Bar F → Type 0
  MayBeFed symbol s b =
      (held_back setup provider state_store symbol s ≡ none)
      × ((bars : List (Bar F)) × (provider symbol ≡ some bars) × Memᴰ b bars)
      × ((t : ℕ) × (baseline_timestamp_for symbol s.store ≡ some t) × (t < wall b))

  -- Where no error and no reason is reported, the bars that were fed are as many as the result says,
  -- and every later bar that the provider has is one of them.
  abbrev pub IsComplete : ℕ → Engine F → AdvanceResult → List (Bar F) → Type 0
  IsComplete symbol s r fed =
      r.error ≡ none
      → r.skipped_reason ≡ none
      → (r.bars_processed ≡ length fed)
        × ((bars : List (Bar F)) × (t : ℕ) × (provider symbol ≡ some bars)
            × (baseline_timestamp_for symbol s.store ≡ some t)
            × All (λ c. t < wall c → Memᴰ c fed) bars)

  -- The engine gets from one state to the other by one run of bars for each symbol and its result.
  abbrev pub Runs : List ℕ → List AdvanceResult → Engine F → Engine F → Type 0
  Runs [] [] s s' = s' ≡ s
  Runs (x ∷ xs) (r ∷ rs) s s' =
      (fed : List (Bar F)) × InOrder fed
      × All (MayBeFed x s) fed
      × IsComplete x s r fed
      × Runs xs rs (perform_all setup (bar_calls x fed) s) s'
  Runs xs rs s s' = ⊥

  -- One run leads to the state, and its bars and the result are so related.
  abbrev Run :
      ℕ
      → (Bar F → Type 0)
      → (AdvanceResult → List (Bar F) → Type 0)
      → Engine F
      → AdvanceResult × Engine F
      → Type 0
  Run x P Q s (r, s') =
      (fed : List (Bar F)) × InOrder fed
      × All P fed
      × Q r fed
      × (s' ≡ perform_all setup (bar_calls x fed) s)

  -- the result of `feed` on the bars, after so many
  abbrev FedAll : ℕ → List (Bar F) → AdvanceResult → List (Bar F) → Type 0
  FedAll n bs r fed =
      r.error ≡ none → (r.bars_processed ≡ n + length fed) × All (λ c. Memᴰ c fed) bs

  feed-Run :
      (x : ℕ) (P : Bar F → Type 0) (bs : List (Bar F)) (bars : ℕ) (last : Option BarOutcome)
      (s : Engine F)
      → InOrder bs
      → All P bs
      → Run x P (FedAll bars bs) s (feed setup provider state_store x bs bars last s)
  unfolding feed perform_all perform
  feed-Run x P [] bars last s h a = ([], tt, tt, λ _. (omega arith, tt), refl)
  feed-Run x P (b ∷ bs) bars last s (first, h) (p, a) =
      caught_split (λ (r : AdvanceResult × Engine F). Run x P (FedAll bars (b ∷ bs)) s r) _ _
        (process_bar setup x b true true s)
        (λ outcome.
          let (fed, i, q, all_fed, e) =
            feed-Run x (λ c. P c × (wall b ≤ wall c)) bs (bars + 1) (some outcome)
              (process_bar setup x b true true s).1 h (All-both P _ bs a first) in
          (
            b ∷ fed,
            (All-second P _ fed q, i),
            (p, All-first P _ fed q),
            λ none. (
              omega (arith, (all_fed none).0),
              (Memᴰ.head refl, All-map _ _ (λ c. Memᴰ.tail) bs (all_fed none).1),
            ),
            e,
          ))
        (λ _. (b ∷ [], (tt, tt), (p, tt), λ h. cc h, refl))

  fetched-Run :
      (x t : ℕ) (o : Option (List (Bar F))) (s : Engine F)
      → baseline_timestamp_for x s.store ≡ some t
      → held_back setup provider state_store x s ≡ none
      → provider x ≡ o
      → Run x (MayBeFed x s) (IsComplete x s) s (fetched setup provider state_store x t o s)
  unfolding perform_all
  fetched-Run x t none s e held f = ([], tt, tt, λ h. cc h, refl)
  fetched-Run x t (some bs) s e held f =
      let (fed, i, q, all_fed, moved) =
        feed-Run x (MayBeFed x s) (new_bars t bs) 0 none s (new_bars-InOrder t bs)
          (new_bars-All (MayBeFed x s) t bs (λ b m later. (held, (bs, f, m), (t, e, later)))) in
      (
        fed,
        i,
        q,
        λ no_error _. (
          omega (arith, (all_fed no_error).0),
          (bs, t, f, e, All-new_bars (λ c. Memᴰ c fed) t bs (all_fed no_error).1),
        ),
        moved,
      )

  unless_held-Run :
      (x t : ℕ) (o : Option SkippedReason) (s : Engine F)
      → baseline_timestamp_for x s.store ≡ some t
      → held_back setup provider state_store x s ≡ o
      → Run x (MayBeFed x s) (IsComplete x s) s (unless_held setup provider state_store x t o s)
  unfolding perform_all
  unless_held-Run x t (some why) s e held = ([], tt, tt, λ _ h. cc h, refl)
  unless_held-Run x t none s e held = fetched-Run x t (provider x) s e held refl

  after_baseline-Run :
      (x : ℕ) (o : Option ℕ) (s : Engine F)
      → baseline_timestamp_for x s.store ≡ o
      → Run x (MayBeFed x s) (IsComplete x s) s (after_baseline setup provider state_store x o s)
  unfolding perform_all
  after_baseline-Run x none s e = ([], tt, tt, λ _ h. cc h, refl)
  after_baseline-Run x (some t) s e = unless_held-Run x t _ s e refl

  advance_each-Runs :
      (xs : List ℕ) (s : Engine F)
      → let (rs, s') = advance_each setup provider state_store xs s in Runs xs rs s s'
  unfolding advance_each advance_symbol
  advance_each-Runs [] s = refl
  advance_each-Runs (x ∷ xs) s =
      let s1 = (advance_symbol setup provider state_store x s).1 in
      let (rs, s2) = advance_each setup provider state_store xs s1 in
      let (bs, i, a, c, e) = after_baseline-Run x (baseline_timestamp_for x s.store) s refl in
      (bs, i, a, c, subst (λ y. Runs xs rs y s2) e (advance_each-Runs xs s1))

  -- Whatever the provider and the engine raise, the engine is moved by calls of `process_bar` only:
  -- one run for each symbol that had a pending order or an open position, each in the order of the
  -- bars' times, of bars that the provider gave and that are later than the baseline of the symbol, and
  -- none for a symbol that the guards hold back. Where the result of a symbol reports no error and no
  -- reason to skip it, no later bar of the provider is missing in its run.
  pub advance_pending_paper_orders-Runs :
      (s : Engine F)
      → let (rs, s') = advance_pending_paper_orders setup provider state_store s in
        Runs (due_symbols s.store) rs s s'
  unfolding advance_pending_paper_orders
  advance_pending_paper_orders-Runs s = advance_each-Runs (due_symbols s.store) s
