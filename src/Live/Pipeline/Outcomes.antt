-- ===== src/Live/Pipeline/Outcomes.antt =====
-- live/pipeline.py: which result an orphaned claim is to get, and the rows of a table before and after.
use mathlib.Core.Path.{subst}
use trading_workstation.Prelude.{
  ℕ, ◌≡◌, refl, sym, ap, ◌∙◌, Bool, true, false, ◌||◌, Option, none, some, List, [], ◌∷◌, any, ◌==◌,
  ==_iff, if_split, if◌then◌else◌, arith, Bool-cases, inl, inr, All,
}
use trading_workstation.Signal.{DateTime}
use trading_workstation.Paper.Models.{
  JournalEntry, JournalOutcome, rejected, skipped_already_active, approved_pending,
  approved_filled_open, approved_filled_closed,
}
use trading_workstation.Paper.Store.{Store, find_journal_entry_by_signal_id}
use trading_workstation.Live.Approval.{SignalLifecycleState, risk_rejected, executed}
use trading_workstation.Live.StateStore.Models.{
  PendingApprovalRecord, ExecutionResult, journal_outcome, orphaned_claim_abandoned,
}
use trading_workstation.Live.StateStore.{update_where}
use trading_workstation.Live.Pipeline.Monad.{Live}
use trading_workstation.Live.Pipeline.Decisions.{final_state, approved_quantity_of}
use trading_workstation.Live.Pipeline.Startup.{orphan_result}

-- The state that tells of a submission with such an outcome.
abbrev pub state_told : JournalOutcome → SignalLifecycleState
state_told rejected = risk_rejected
state_told skipped_already_active = risk_rejected
state_told approved_pending = executed
state_told approved_filled_open = executed
state_told approved_filled_closed = executed

state_told_lem : (o : JournalOutcome) → final_state o ≡ state_told o
state_told_lem rejected = refl
state_told_lem skipped_already_active = refl
state_told_lem approved_pending = refl
state_told_lem approved_filled_open = refl
state_told_lem approved_filled_closed = refl

pub ==_flip : (m n : ℕ) (b : Bool) → (m == n) ≡ b → (n == m) ≡ b
==_flip m n true h = ground arith
==_flip m n false h = ground arith

-- The two lists are as long as each other, and related row by row.
abbrev pub Pairwise : {A : Type 0} → (A → A → Type 0) → List A → List A → Type 0
Pairwise R [] [] = Unit
Pairwise R (x ∷ xs) (y ∷ ys) = R x y × Pairwise R xs ys
Pairwise R xs ys = ⊥

pub Pairwise-map :
    {A : Type 0} (P : A → Type 0) (R Q : A → A → Type 0)
    → ((x y : A) → P x → R x y → Q x y)
    → (xs ys : List A) → All P xs
    → Pairwise R xs ys
    → Pairwise Q xs ys
Pairwise-map P R Q f [] [] a h = tt
Pairwise-map P R Q f [] (y ∷ ys) a h = h
Pairwise-map P R Q f (x ∷ xs) [] a h = h
Pairwise-map P R Q f (x ∷ xs) (y ∷ ys) (p, a) (r, h) = (f x y p r, Pairwise-map P R Q f xs ys a h)

module _ {F : Type 0} where
  -- What the row of an orphaned claim says, when the journal has that entry of its signal, or none.
  abbrev pub TellsOf : Option JournalEntry → Store F → PendingApprovalRecord F → Type 0
  TellsOf none st row =
      (row.state ≡ risk_rejected)
      × (row.final_execution_result ≡ some orphaned_claim_abandoned)
      × (row.approved_quantity ≡ none)
  TellsOf (some j) st row =
      (row.state ≡ state_told j.outcome)
      × (row.final_execution_result ≡ some (journal_outcome j.outcome))
      × (row.approved_quantity ≡ approved_quantity_of j st)

  abbrev pub TellsOfJournal : Store F → PendingApprovalRecord F → Type 0
  TellsOfJournal st row = TellsOf (find_journal_entry_by_signal_id row.signal_id st) st row

  pub orphan_result-TellsOf :
      (o : Option JournalEntry) (s : Live F) (row : PendingApprovalRecord F)
      → row.state ≡ (orphan_result o s).0
      → row.approved_quantity ≡ (orphan_result o s).1
      → row.final_execution_result ≡ some (orphan_result o s).2
      → TellsOf o s.engine.store row
  orphan_result-TellsOf none s row a b c = (a, c, b)
  orphan_result-TellsOf (some j) s row a b c = (a ∙ state_told_lem j.outcome, c, b)

  -- The row is the other but for its result.
  abbrev pub SameRequest : PendingApprovalRecord F → PendingApprovalRecord F → Type 0
  SameRequest x y = y ≡ record x {
    state = y.state;
    history = y.history;
    approved_quantity = y.approved_quantity;
    final_execution_result = y.final_execution_result;
  }

  abbrev pub named : ℕ → PendingApprovalRecord F → Bool
  named id r = r.signal_id == id

  -- What the claims of these rows make of a row.
  abbrev pub BecomesBy :
      List (PendingApprovalRecord F)
      → Store F
      → PendingApprovalRecord F
      → PendingApprovalRecord F
      → Type 0
  BecomesBy rs st x y =
      SameRequest x y
      × (any (named x.signal_id) rs ≡ false → y ≡ x)
      × (any (named x.signal_id) rs ≡ true → TellsOfJournal st y)

  pub nothing_claimed :
      (st : Store F) (xs : List (PendingApprovalRecord F)) → Pairwise (BecomesBy [] st) xs xs
  nothing_claimed st [] = tt
  nothing_claimed st (x ∷ xs) = ((refl, (λ _. refl), λ h. cc h), nothing_claimed st xs)

  module _ (st : Store F) (r : PendingApprovalRecord F) (rs : List (PendingApprovalRecord F))
      (state : SignalLifecycleState) (history : List (SignalLifecycleState × DateTime))
      (quantity : Option ℕ) (result : ExecutionResult) where
    abbrev finalized : PendingApprovalRecord F → PendingApprovalRecord F
    finalized x = record x {
      state = state;
      history = history;
      approved_quantity = quantity;
      final_execution_result = some result;
    }

    abbrev Tells : Type 0
    Tells =
        (x : PendingApprovalRecord F) → x.signal_id ≡ r.signal_id → TellsOfJournal st (finalized x)

    BecomesBy-cons :
        (x y : PendingApprovalRecord F)
        → Tells
        → BecomesBy rs st (if x.signal_id == r.signal_id then finalized x else x) y
        → BecomesBy (r ∷ rs) st x y
    BecomesBy-cons x y tells =
        if_split (λ (z : PendingApprovalRecord F). BecomesBy rs st z y → BecomesBy (r ∷ rs) st x y)
          (x.signal_id == r.signal_id) _ _
          (λ e (same, left, told).
            let flipped = ==_flip x.signal_id r.signal_id true e in
            (
              same,
              (λ none. cc (flipped, none)),
              λ _. elim (Bool-cases (any (named x.signal_id) rs)) [
                | inl claimed ↦ told claimed
                | inr apart ↦
                    subst (TellsOfJournal st) (sym (left apart))
                      (tells x ((==_iff x.signal_id r.signal_id).0 e))
              ],
            ))
          (λ e (same, left, told).
            let flipped =
              ap (λ b. b || any (named x.signal_id) rs)
                (sym (==_flip x.signal_id r.signal_id false e)) in
            (same, (λ none. left (flipped ∙ none)), λ claimed. told (flipped ∙ claimed)))

    pub finalized-Pairwise :
        (xs ys : List (PendingApprovalRecord F))
        → Tells
        → Pairwise
            (BecomesBy rs st)
            (update_where (λ x. x.signal_id == r.signal_id) finalized xs)
            ys
        → Pairwise (BecomesBy (r ∷ rs) st) xs ys
    finalized-Pairwise [] [] tells h = tt
    finalized-Pairwise [] (y ∷ ys) tells h = h
    finalized-Pairwise (x ∷ xs) [] tells h = h
    finalized-Pairwise (x ∷ xs) (y ∷ ys) tells (h, rest) =
        (BecomesBy-cons x y tells h, finalized-Pairwise xs ys tells rest)
