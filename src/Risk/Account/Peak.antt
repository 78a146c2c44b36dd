-- ===== src/Risk/Account/Peak.antt =====
-- risk/account.py: sequences of method calls, the peak, and the alternation of entries and exits.
use mathlib.Core.Path.{subst}
use mathlib.Core.Option.{some-injective}
use trading_workstation.Prelude.Options.{◌>>=◌, >>=-eq-some}
use trading_workstation.Prelude.{
  ℕ, ◌+◌, ◌<◌, ◌≤◌, ◌≡◌, inl, inr, false, Option, some, List, [], ◌∷◌, Double, fmax, arith,
  Bool-cases,
}
use trading_workstation.Risk.Account.{
  Account, open_positions, equity, roll_to_day, update_peak, mark_to_market, open_position,
  close_position, opened, closed, marked, new_account,
}

-- A call of a method of `Account`, with its arguments.
pub data Call (F : Type 0) : Type 0 where
  roll : ℕ → Call F
  mark : F → Call F
  enter : ℕ → F → F → Call F
  leave : F → F → F → Call F

module _ {F : Type 0} where
  abbrev pub entered : Call F → ℕ
  entered (enter _ _ _) = 1
  entered _ = 0

  abbrev pub left : Call F → ℕ
  left (leave _ _ _) = 1
  left _ = 0

  abbrev pub entries : List (Call F) → ℕ
  entries [] = 0
  entries (c ∷ cs) = entered c + entries cs

  abbrev pub exits : List (Call F) → ℕ
  exits [] = 0
  exits (c ∷ cs) = left c + exits cs

module _ {F : Type 0} ⦃d : Double F⦄ where
  open d use {lt}

  unfoldable pub apply : Call F → Account F → Option (Account F)
  apply (roll day) a = some (roll_to_day day a)
  apply (mark price) a = some (mark_to_market price a)
  apply (enter q p c) a = open_position q p c a
  apply (leave p c n) a = close_position p c n a

  -- The calls in order; the first ValueError ends the run.
  unfoldable pub run : List (Call F) → Account F → Option (Account F)
  run [] a = some a
  run (c ∷ cs) a = apply c a >>= run cs

  abbrev pub IsPeaked : Account F → Type 0
  IsPeaked a = lt a.peak_equity (equity a) ≡ false

  -- Inversion of the two methods that may raise.
  pub open_position_inv :
      (q : ℕ) (p cost : F) (a a' : Account F)
      → open_position q p cost a ≡ some a'
      → (0 < q) × (a.open_position_quantity ≡ 0) × (update_peak (opened q p cost a) ≡ a')
  unfolding open_position
  open_position_inv q p cost a a' e = ground arith

  pub close_position_inv :
      (p cost net : F) (a a' : Account F)
      → close_position p cost net a ≡ some a'
      → (0 < a.open_position_quantity) × (update_peak (closed p cost net a) ≡ a')
  unfolding close_position
  close_position_inv p cost net a a' e = ground arith

  roll_to_day-IsPeaked : (day : ℕ) (a : Account F) → IsPeaked a → IsPeaked (roll_to_day day a)
  unfolding roll_to_day equity
  roll_to_day-IsPeaked day a h = ground arith

  module _ (irrefl : (x : F) → lt x x ≡ false) where
    fmax-not-lt : (x y : F) → lt (fmax x y) y ≡ false
    fmax-not-lt x y = elim (Bool-cases (lt x y)) [
      | inl less ↦ rw (less, irrefl)
      | inr more ↦ rw (more, more)
    ]

    update_peak-IsPeaked : (a : Account F) → IsPeaked (update_peak a)
    unfolding update_peak equity
    update_peak-IsPeaked a = fmax-not-lt a.peak_equity (equity a)

    -- If the equity is not above the peak, no method that returns leaves it above the peak. `lt` is
    -- assumed irreflexive, as it is for floats.
    pub apply-IsPeaked :
        (c : Call F) (a a' : Account F) → IsPeaked a → apply c a ≡ some a' → IsPeaked a'
    unfolding apply
    apply-IsPeaked (roll day) a a' h e =
        subst IsPeaked (some-injective _ _ e) (roll_to_day-IsPeaked day a h)
    apply-IsPeaked (mark price) a a' h e =
        subst IsPeaked (some-injective _ _ e)
          (unfold mark_to_market in update_peak-IsPeaked (marked price a))
    apply-IsPeaked (enter q p cost) a a' h e =
        subst IsPeaked (open_position_inv q p cost a a' e).2
          (update_peak-IsPeaked (opened q p cost a))
    apply-IsPeaked (leave p cost net) a a' h e =
        subst IsPeaked (close_position_inv p cost net a a' e).1
          (update_peak-IsPeaked (closed p cost net a))

  -- What a run has left: one entry more than exits while a position is open and as many when flat,
  -- one trade for each exit, and never more losses in a row than trades.
  pub record IsAlternating (a : Account F) (ins outs : ℕ) : Type 0 where
    pub balanced : ins ≡ outs + open_positions a
    pub counted : a.total_trades ≡ outs
    pub losing : a.consecutive_losses ≤ a.total_trades

  apply-IsAlternating :
      (c : Call F) (a a' : Account F) (ins outs : ℕ)
      → IsAlternating a ins outs
      → apply c a ≡ some a'
      → IsAlternating a' (ins + entered c) (outs + left c)
  unfolding apply roll_to_day mark_to_market marked update_peak open_position close_position opened
      closed
  apply-IsAlternating (roll day) a a' ins outs h e = ground arith
  apply-IsAlternating (mark price) a a' ins outs h e = ground arith
  apply-IsAlternating (enter q p cost) a a' ins outs h e = ground arith
  apply-IsAlternating (leave p cost net) a a' ins outs h e = ground arith

  run-IsAlternating :
      (cs : List (Call F)) (a a' : Account F) (ins outs : ℕ)
      → IsAlternating a ins outs
      → run cs a ≡ some a'
      → IsAlternating a' (ins + entries cs) (outs + exits cs)
  unfolding run
  run-IsAlternating [] a a' ins outs h e =
      subst (λ b. IsAlternating b (ins + 0) (outs + 0)) (some-injective _ _ e)
        (record { balanced = omega arith; counted = omega arith; losing = h.losing })
  run-IsAlternating (c ∷ cs) a a' ins outs h e =
      let (b, hb, rest) = >>=-eq-some (apply c a) (run cs) e in
      let ih =
        run-IsAlternating cs b a' (ins + entered c) (outs + left c)
          (apply-IsAlternating c a b ins outs h hb) rest in
      record { balanced = omega arith; counted = omega arith; losing = ih.losing }

  -- Whatever methods are called on a new account, as long as none raises: there is one entry more
  -- than exits exactly while a position is open, each exit has counted one trade, and the losing
  -- streak is no longer than the trades.
  pub run_alternates :
      (capital : F) (cs : List (Call F)) (a a' : Account F)
      → new_account capital ≡ some a
      → run cs a ≡ some a'
      → IsAlternating a' (entries cs) (exits cs)
  unfolding new_account
  run_alternates capital cs a a' e r =
      let h = run-IsAlternating cs a a' 0 0 (ground arith) r in
      record { balanced = omega arith; counted = omega arith; losing = h.losing }
