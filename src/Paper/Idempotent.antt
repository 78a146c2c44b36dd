-- ===== src/Paper/Idempotent.antt =====
-- paper/engine.py: `submit_signal` answers a signal that it has seen from the journal.
mod Commits
pub mod Races
use trading_workstation.Prelude.{
  ℕ, ◌≡◌, refl, ap, ◌∙◌, Bool, false, not, Option, none, some, List, [], ◌∷◌, ◌++◌, arith, Double,
  any, ◌==◌, if◌then◌else◌, ◌||◌,
}
use trading_workstation.Signal.{DateTime, Signal, stable_id}
use trading_workstation.Risk.{RiskDecision, PositionSize}
use trading_workstation.Paper.Models.{JournalEntry, integrity_error, skipped_already_active}
use trading_workstation.Paper.Store.{
  Store, wrote, find, save_journal_entry, find_journal_entry_by_signal_id,
}
use trading_workstation.Paper.Monad.{Engine, Action, Result, ok, err, pure, gets}
use trading_workstation.Paper.Outcome.{
  bind-ok, Ok, Ok-at, then_known, if-Ok, pure-Ok, raise-Ok, then_gets, then_or_raise,
  then_get_account, then_new_id, then_execute, transaction-Ok, or_raise-Ok,
}
use trading_workstation.Paper.Positions.{Setup}
use trading_workstation.Paper.Submit.{
  place_order, settle, catch, submit_signal_transaction, submit_signal,
}
use trading_workstation.Paper.Books.Bars.{then_refresh}

find-append_fresh :
    (id : ℕ) (js : List JournalEntry) (j : JournalEntry)
    → any (λ x. x.journal_entry_id == j.journal_entry_id || x.signal_id == j.signal_id) js ≡ false
    → j.signal_id ≡ id
    → find (λ x. x.signal_id == id) (js ++ (j ∷ [])) ≡ some j
find-append_fresh id [] j h e = ground arith
find-append_fresh id (x ∷ js) j h e = ground (arith, find-append_fresh id js j)

module _ {F : Type 0} where
  save_journal_entry_lem :
      (j : JournalEntry) (id : ℕ) (st st' : Store F)
      → save_journal_entry j st ≡ wrote st'
      → j.signal_id ≡ id
      → find_journal_entry_by_signal_id id st' ≡ some j
  unfolding save_journal_entry find_journal_entry_by_signal_id
  save_journal_entry_lem j id st st' e h = ground (arith, find-append_fresh id st.journal j)

module _ {F : Type 0} ⦃d : Double F⦄ (setup : Setup F) (signal : Signal F) (id : ℕ)
    (now : DateTime) where
  place_order-signal_id :
      (size : Option (PositionSize F)) (j : JournalEntry) (s : Engine F)
      → Ok (place_order setup signal id size now j s) λ x s'. x.signal_id ≡ j.signal_id
  place_order-signal_id none j s = raise-Ok _ _ _
  place_order-signal_id (some size) j s =
      then_new_id _ _ _ (then_execute _ _ _ _ λ st e. pure-Ok _ _ _ refl)

  settle-signal_id :
      (decision : RiskDecision F) (active : Bool) (j : JournalEntry) (s : Engine F)
      → Ok (settle setup signal id decision active now j s) λ x s'. x.signal_id ≡ j.signal_id
  unfolding settle
  settle-signal_id decision active j s =
      if-Ok _ s (not decision.approved) (pure j)
        (if active
          then pure (record j { outcome = skipped_already_active })
          else place_order setup signal id decision.position_size now j)
        (λ refused. pure-Ok _ _ _ refl)
        (λ approved.
          if-Ok _ s active (pure (record j { outcome = skipped_already_active }))
            (place_order setup signal id decision.position_size now j) (λ busy. pure-Ok _ _ _ refl)
            (λ free. place_order-signal_id decision.position_size j s))

  transaction-recorded :
      (version : ℕ) (s : Engine F)
      → Ok
          (submit_signal_transaction setup signal id version now s)
          λ j s'. find_journal_entry_by_signal_id id s'.store ≡ some j
  unfolding submit_signal_transaction
  transaction-recorded version s = transaction-Ok _ _ _ (
      then_refresh _ _ _ λ a e0. then_execute _ _ _ _ λ st1 e1. then_get_account _ _ _ (
        then_or_raise _ _ _ _ _ λ decision e2. then_new_id _ _ _ (
          then_execute _ _ _ _ λ st2 e3. then_new_id _ _ _ (
            then_gets _ _ _ _ (
              then_known (λ j s'. j.signal_id ≡ id) _ _ _ _ (settle-signal_id decision _ _ _)
                λ j s' same.
                  then_execute _ _ _ _
                    λ st3 e4. pure-Ok _ _ _ (save_journal_entry_lem j id s'.store st3 e4 same))))))

  catch-recorded :
      (r : Result JournalEntry × Engine F)
      → Ok r (λ j s'. find_journal_entry_by_signal_id id s'.store ≡ some j)
      → Ok (catch setup id r) λ j s'. find_journal_entry_by_signal_id id s'.store ≡ some j
  catch-recorded (ok j, s) h = h
  catch-recorded (err integrity_error, s) h = then_gets _ _ _ _ (or_raise-Ok _ _ _ _ λ j e. e)
  catch-recorded (err _, s) h = raise-Ok _ _ _

module _ {F : Type 0} ⦃d : Double F⦄ (setup : Setup F) (x : Signal F) where
  abbrev key : ℕ
  key = stable_id setup.digest x

  -- what `submit_signal` does with the entry that it has looked up
  abbrev looked_up : ℕ → DateTime → Option JournalEntry → Action F JournalEntry
  looked_up version now o s =
      elim o as (λ y. Action F JournalEntry) [
        | some j ↦ pure j
        | none ↦ λ s. catch setup key (submit_signal_transaction setup x key version now s)
      ]
        s

  looked_up-recorded :
      (version : ℕ) (now : DateTime) (o : Option JournalEntry) (s : Engine F)
      → find_journal_entry_by_signal_id key s.store ≡ o
      → Ok (looked_up version now o s) λ j s'. find_journal_entry_by_signal_id key s'.store ≡ some j
  looked_up-recorded version now none s e =
      catch-recorded setup x key now _ (transaction-recorded setup x key now version s)
  looked_up-recorded version now (some j) s e = pure-Ok _ _ _ e

  submit_signal-recorded :
      (version : ℕ) (now : DateTime) (s : Engine F)
      → Ok
          (submit_signal setup x version now s)
          λ j s'. find_journal_entry_by_signal_id key s'.store ≡ some j
  unfolding submit_signal
  submit_signal-recorded version now s = then_gets _ _ _ _ (looked_up-recorded version now _ s refl)

  pub seen_again :
      (version : ℕ) (now : DateTime) (s : Engine F) (j : JournalEntry)
      → find_journal_entry_by_signal_id key s.store ≡ some j
      → submit_signal setup x version now s ≡ (ok j, s)
  unfolding submit_signal gets pure
  seen_again version now s j e =
      bind-ok (gets (find_journal_entry_by_signal_id key)) (looked_up version now) s
        (find_journal_entry_by_signal_id key s.store) s refl
      ∙ ap (λ o. looked_up version now o s) e

  -- Submitting a signal again changes nothing: if a submission returns an entry, any later one of
  -- the same signal, under whatever version and at whatever time, returns that entry and leaves the
  -- state as it is. So it does after a race was lost, when the entry is another caller's.
  pub submit_signal_twice :
      (version again : ℕ) (now later : DateTime) (s : Engine F) (j : JournalEntry)
      → (submit_signal setup x version now s).0 ≡ ok j
      → let s' = (submit_signal setup x version now s).1 in
        submit_signal setup x again later s' ≡ (ok j, s')
  submit_signal_twice version again now later s j e =
      seen_again again later _ j (Ok-at _ _ j (submit_signal-recorded version now s) e)
