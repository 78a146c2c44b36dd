-- ===== src/Paper/Replay/Rows.antt =====
-- paper/replay.py and paper/session.py: the rows of a series, and their numbers.
use trading_workstation.Prelude.{
  ℕ, zero, suc, ◌+◌, ◌≤◌, ◌≡◌, refl, ap, All, ◌<◌, if_split, leb, leb→le, true, false, List, [],
  ◌∷◌, ◌==◌, arith, length, pos, ◌-ℤ◌,
}
use mathlib.Core.Path.{subst}
use trading_workstation.Backtesting.Execution.{Bar}
use trading_workstation.Signal.{to_naive}
use trading_workstation.Paper.Advance.Runs.{InOrder}
use trading_workstation.Paper.Replay.{rows_from, first_rows, rows_until}

pub difference : (start m n : ℕ) → start + m ≡ n → pos n -ℤ pos start ≡ pos m
difference start m n e = ground arith

pub is_last : (i n : ℕ) → i + 1 ≡ n → (i + 1 == n) ≡ true
is_last i n e = ground arith

pub is_not_last : (i k n : ℕ) → i + suc (suc k) ≡ n → (i + 1 == n) ≡ false
is_not_last i k n e = ground arith

module _ {F : Type 0} where
  rows_from-suc :
      (i : ℕ) (rows : List (Bar F)) (b : Bar F) (bs : List (Bar F))
      → rows_from i rows ≡ b ∷ bs
      → rows_from (suc i) rows ≡ bs
  rows_from-suc zero [] b bs e = cc
  rows_from-suc zero (x ∷ rows) b bs e = cc
  rows_from-suc (suc i) [] b bs e = cc
  rows_from-suc (suc i) (x ∷ rows) b bs e = rows_from-suc i rows b bs e

  pub rows_from-next :
      (i : ℕ) (rows : List (Bar F)) (b : Bar F) (bs : List (Bar F))
      → rows_from i rows ≡ b ∷ bs
      → rows_from (i + 1) rows ≡ bs
  rows_from-next i rows b bs e =
      subst (λ k. rows_from k rows ≡ bs) {x = suc i} (omega arith) (rows_from-suc i rows b bs e)

  pub rows_from-length :
      (i : ℕ) (rows : List (Bar F)) → i ≤ length rows → i + length (rows_from i rows) ≡ length rows
  rows_from-length zero rows h = omega arith
  rows_from-length (suc i) [] h = omega (arith, h)
  rows_from-length (suc i) (x ∷ rows) h = omega (arith, rows_from-length i rows (omega (arith, h)))

  pub first_rows-all : (k : ℕ) (rows : List (Bar F)) → length rows ≤ k → first_rows k rows ≡ rows
  first_rows-all zero [] h = refl
  first_rows-all zero (x ∷ rows) h = let none : ⊥ = omega (arith, h) in elim none [ ]
  first_rows-all (suc k) [] h = refl
  first_rows-all (suc k) (x ∷ rows) h = ap (λ xs. x ∷ xs) (first_rows-all k rows (omega (arith, h)))

  pub rows_until-le : (cursor : ℕ) (rows : List (Bar F)) → rows_until cursor rows ≤ length rows
  rows_until-le cursor [] = omega arith
  rows_until-le cursor (x ∷ rows) = ground (arith, rows_until-le cursor rows)

  -- The rows up to the cursor end at `rows_until`.
  pub until_earlier :
      (cursor : ℕ) (rows : List (Bar F))
      → All (λ b. to_naive b.timestamp ≤ cursor) (first_rows (rows_until cursor rows) rows)
  until_earlier cursor [] = tt
  until_earlier cursor (x ∷ rows) =
      if_split (λ (k : ℕ). All (λ b. to_naive b.timestamp ≤ cursor) (first_rows k (x ∷ rows)))
        (leb (to_naive x.timestamp) cursor) _ _
        (λ e. (leb→le (to_naive x.timestamp) cursor e, until_earlier cursor rows)) (λ _. tt)

  later_than :
      (cursor t : ℕ) (rows : List (Bar F))
      → cursor < t
      → All (λ b. t ≤ to_naive b.timestamp) rows
      → All (λ b. cursor < to_naive b.timestamp) rows
  later_than cursor t [] h a = tt
  later_than cursor t (x ∷ rows) h (b, a) = (omega (arith, h, b), later_than cursor t rows h a)

  pub until_later :
      (cursor : ℕ) (rows : List (Bar F))
      → InOrder rows
      → All (λ b. cursor < to_naive b.timestamp) (rows_from (rows_until cursor rows) rows)
  until_later cursor [] o = tt
  until_later cursor (x ∷ rows) (first, o) =
      if_split (λ (k : ℕ). All (λ b. cursor < to_naive b.timestamp) (rows_from k (x ∷ rows)))
        (leb (to_naive x.timestamp) cursor) _ _ (λ _. until_later cursor rows o)
        (λ e.
          let h : cursor < to_naive x.timestamp = ground arith in
          (h, later_than cursor (to_naive x.timestamp) rows h first))
