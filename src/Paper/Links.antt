-- ===== src/Paper/Links.antt =====
-- paper/store.py: references from one table into another.
pub mod Calls
use trading_workstation.Prelude.{
  ℕ, ◌≡◌, refl, sym, Bool, true, false, not, ◌||◌, ◌&&◌, List, [], ◌∷◌, ◌++◌, any, All, All-append,
  ◌==◌, arith, if◌then◌else◌,
}
use trading_workstation.Paper.Models.{
  PaperOrder, PaperFill, Position, TradeRow, SignalRow, RiskDecisionRow,
}
use trading_workstation.Paper.Store.{
  Store, known_signal, without, replace, may_update_position, may_update_order,
}
use trading_workstation.Paper.Reconciliation.{has_order, has_position}

-- Every risk decision is of a signal that is stored, every fill of an order, every trade of a
-- position.
pub record IsLinked {F : Type 0} (st : Store F) : Type 0 where
  pub decisions : All (λ r. known_signal r.signal_id st ≡ true) st.risk_decisions
  pub fills : All (λ f. has_order st f.order_id ≡ true) st.fills
  pub trades : All (λ t. has_position st t.position_id ≡ true) st.trades

module _ {A : Type 0} where
  pub All_mono : (P Q : A → Type 0) (xs : List A) → ((x : A) → P x → Q x) → All P xs → All Q xs
  All_mono P Q [] f h = tt
  All_mono P Q (x ∷ xs) f h = (f x h.0, All_mono P Q xs f h.1)

  pub any-append :
      (test : A → Bool) (xs ys : List A) → any test xs ≡ true → any test (xs ++ ys) ≡ true
  any-append test [] ys h = cc
  any-append test (x ∷ xs) ys h = ground (arith, any-append test xs ys)

  pub any-snoc :
      (test : A → Bool) (xs : List A) (y : A) → test y ≡ true → any test (xs ++ (y ∷ [])) ≡ true
  any-snoc test [] y h = ground arith
  any-snoc test (x ∷ xs) y h = ground (arith, any-snoc test xs y h)

module _ {F : Type 0} where
  -- A position that is updated keeps its id, and so does every other.
  pub any-updated :
      (p : Position F) (id : ℕ) (ps : List (Position F))
      → any (λ q. q.position_id == id) ps ≡ true
      → any (λ q. q.position_id == id) (without (may_update_position p.position_id) ps ++ (p ∷ []))
        ≡ true
  any-updated p id [] h = cc
  any-updated p id (q ∷ ps) h = ground (
    arith,
    any-updated p id ps,
    any-snoc (λ q. q.position_id == id) (without (may_update_position p.position_id) ps) p,
  )

  pub any-replace :
      (order : PaperOrder F) (id : ℕ) (os : List (PaperOrder F))
      → any (λ o. o.order_id == id) os ≡ true
      → any (λ o. o.order_id == id) (replace (may_update_order order) order os) ≡ true
  any-replace order id [] h = cc
  any-replace order id (o ∷ os) h = ground (arith, any-replace order id os)
