-- ===== src/Paper/Idempotent/Races.antt =====
-- paper/engine.py: callers that submit one signal at the same time, each on an engine of its own over
-- the shared store.
use mathlib.Core.Path.{subst}
use trading_workstation.Prelude.{
  if_split, ℕ, ◌≡◌, refl, sym, ap, ◌∙◌, Bool, Option, none, some, List, [], ◌∷◌, Double,
  if◌then◌else◌,
}
use trading_workstation.Signal.{DateTime, Signal, stable_id}
use trading_workstation.Risk.Account.{Account}
use trading_workstation.Paper.Models.{JournalEntry, Error}
use trading_workstation.Paper.Store.{Store, find_journal_entry_by_signal_id}
use trading_workstation.Paper.Monad.{Engine, Action, Result, ok, err, pure, gets, ◌>>=◌}
use trading_workstation.Paper.Outcome.{transaction_rolls_back}
use trading_workstation.Paper.Positions.{Setup}
use trading_workstation.Paper.Submit.{submit_unseen, submit_signal_transaction, submit_signal}
use trading_workstation.Paper.Idempotent.{seen_again}
use trading_workstation.Paper.Idempotent.Commits.{
  IsCommitted, submit-IsCommitted, submit_unseen-committed, catch-IsCommitted,
}

-- A caller, and whether it had already looked the signal up, before anyone else committed it.
pub record Caller (F : Type 0) : Type 0 where
  pub has_looked : Bool
  pub strategy_version : ℕ
  pub now : DateTime
  pub account : Account F
  pub next_id : ℕ

module _ {F : Type 0} where
  -- what a caller gets, and the shared store
  abbrev pub answer_of : Result JournalEntry × Engine F → Result JournalEntry × Store F
  answer_of (r, e) = (r, e.store)

  -- the same answer for each
  abbrev pub agreed : JournalEntry → List (Caller F) → List (Result JournalEntry)
  agreed j [] = []
  agreed j (c ∷ cs) = ok j ∷ agreed j cs

module _ {F : Type 0} ⦃d : Double F⦄ (setup : Setup F) (x : Signal F) where
  -- One caller's call, or what is left of it.
  abbrev pub call : Caller F → Store F → Result JournalEntry × Store F
  call c st =
      let e : Engine F = record { store = st; account = c.account; next_id = c.next_id } in
      answer_of (
        if c.has_looked
        then submit_unseen setup x (stable_id setup.digest x) c.strategy_version c.now e
        else submit_signal setup x c.strategy_version c.now e)

  unfoldable pub answers : List (Caller F) → Store F → List (Result JournalEntry) × Store F
  answers [] st = ([], st)
  answers (c ∷ cs) st = let (r, st1) = call c st in let (rs, st2) = answers cs st1 in (r ∷ rs, st2)

  call-committed :
      (c : Caller F) (st : Store F) (j : JournalEntry)
      → IsCommitted (stable_id setup.digest x) j st
      → call c st ≡ (ok j, st)
  call-committed c st j h =
      let e : Engine F = record { store = st; account = c.account; next_id = c.next_id } in
      if_split (λ (r : Result JournalEntry × Engine F). answer_of r ≡ (ok j, st)) c.has_looked _ _
        (λ _.
          let (a, b) = submit_unseen-committed setup x _ c.now c.strategy_version e j h in
          ap
            (λ k. (
              k,
              (submit_unseen setup x (stable_id setup.digest x) c.strategy_version c.now e).1.store,
            ))
            a
          ∙ ap (λ k. (ok j, k)) b)
        (λ _.
          ap (λ (r : Result JournalEntry × Engine F). answer_of r)
            (seen_again setup x c.strategy_version c.now e j h.entry))

  answers-committed :
      (cs : List (Caller F)) (st : Store F) (j : JournalEntry)
      → IsCommitted (stable_id setup.digest x) j st
      → answers cs st ≡ (agreed j cs, st)
  unfolding answers
  answers-committed [] st j h = refl
  answers-committed (c ∷ cs) st j h =
      ap (λ p. let (rs, st2) = answers cs p.1 in (p.0 ∷ rs, st2)) (call-committed c st j h)
      ∙ ap (λ q. (ok j ∷ q.0, q.1)) (answers-committed cs st j h)

  rolled_back :
      (version : ℕ) (now : DateTime) (s : Engine F) (e : Error)
      → (submit_signal_transaction setup x (stable_id setup.digest x) version now s).0 ≡ err e
      → (submit_signal_transaction setup x (stable_id setup.digest x) version now s).1.store
        ≡ s.store
  unfolding submit_signal_transaction
  rolled_back version now s e h = transaction_rolls_back _ s e h

  submit_signal-unseen :
      (version : ℕ) (now : DateTime) (s : Engine F)
      → find_journal_entry_by_signal_id (stable_id setup.digest x) s.store ≡ none
      → submit_signal setup x version now s
        ≡ submit_unseen setup x (stable_id setup.digest x) version now s
  unfolding submit_signal gets ◌>>=◌
  submit_signal-unseen version now s e =
      ap
        (λ (o : Option JournalEntry).
          (elim o as (λ y. Action F JournalEntry) [
            | none ↦ submit_unseen setup x (stable_id setup.digest x) version now
            | some j ↦ pure j
          ])
            s)
        e

  -- A signal is submitted once, whoever races for it: once a caller has submitted a signal that was
  -- not in the journal and has got an entry, any further callers, each with an engine of its own and
  -- in any order, get that entry, and none changes the tables. So do those that had looked the signal
  -- up before that and had not found it, whose own write then meets the unique key.
  pub submit_signal_raced :
      (version : ℕ) (now : DateTime) (s : Engine F) (j : JournalEntry) (cs : List (Caller F))
      → find_journal_entry_by_signal_id (stable_id setup.digest x) s.store ≡ none
      → (submit_signal setup x version now s).0 ≡ ok j
      → let st = (submit_signal setup x version now s).1.store in answers cs st ≡ (agreed j cs, st)
  submit_signal_raced version now s j cs unseen e =
      let key = stable_id setup.digest x in
      let same = submit_signal-unseen version now s unseen in
      answers-committed cs _ j (
        subst (λ (r : Result JournalEntry × Engine F). IsCommitted key j r.1.store) (sym same)
          (catch-IsCommitted setup x key now s.store
            (submit_signal_transaction setup x key version now s) j unseen
            (rolled_back version now s) (submit-IsCommitted setup x key now version s)
            (ap (λ (r : Result JournalEntry × Engine F). r.0) (sym same) ∙ e)))
