-- ===== src/Paper/Books/Submit.antt =====
-- paper/engine.py: `submit_signal` touches neither the account nor the trades and positions.
use trading_workstation.Prelude.{ℕ, Bool, not, Option, none, some, Double, if◌then◌else◌}
use trading_workstation.Signal.{DateTime, Signal}
use trading_workstation.Risk.{RiskDecision, PositionSize}
use trading_workstation.Paper.Models.{JournalEntry, skipped_already_active}
use trading_workstation.Paper.Monad.{Engine, pure}
use trading_workstation.Paper.Outcome.{
  Ok, then_known, if-Ok, pure-Ok, raise-Ok, then_gets, then_or_raise, then_get_account, then_new_id,
  then_execute, transaction-Ok,
}
use trading_workstation.Paper.Positions.{Setup}
use trading_workstation.Paper.Submit.{place_order, settle, submit_signal_transaction}
use trading_workstation.Paper.Books.Writes.{
  Same, Same-refl, Same-trans, save_order-Same, save_signal-Same, save_risk_decision-Same,
  save_journal_entry-Same,
}
use trading_workstation.Paper.Books.Bars.{then_refresh}

module _ {F : Type 0} ⦃d : Double F⦄ (setup : Setup F) (signal : Signal F) (signal_id : ℕ)
    (now : DateTime) where
  place_order-Same :
      (size : Option (PositionSize F)) (j : JournalEntry) (s : Engine F)
      → Ok (place_order setup signal signal_id size now j s) λ x s'. Same s.store s'.store
  place_order-Same none j s = raise-Ok _ _ _
  place_order-Same (some size) j s =
      then_new_id _ _ _
        (then_execute _ _ _ _ λ st e. pure-Ok _ _ _ (save_order-Same _ s.store st e))

  settle-Same :
      (decision : RiskDecision F) (active : Bool) (j : JournalEntry) (s : Engine F)
      → Ok (settle setup signal signal_id decision active now j s) λ x s'. Same s.store s'.store
  unfolding settle
  settle-Same decision active j s =
      if-Ok _ s (not decision.approved) (pure j)
        (if active
          then pure (record j { outcome = skipped_already_active })
          else place_order setup signal signal_id decision.position_size now j)
        (λ refused. pure-Ok _ _ _ (Same-refl s.store))
        (λ approved.
          if-Ok _ s active (pure (record j { outcome = skipped_already_active }))
            (place_order setup signal signal_id decision.position_size now j)
            (λ busy. pure-Ok _ _ _ (Same-refl s.store))
            (λ free. place_order-Same decision.position_size j s))

  pub submit-Same :
      (version : ℕ) (s : Engine F)
      → Ok
          (submit_signal_transaction setup signal signal_id version now s)
          λ j s'. Same s.store s'.store
  unfolding submit_signal_transaction
  submit-Same version s = transaction-Ok _ _ _ (
      then_refresh _ _ _ λ a e0. then_execute _ _ _ _ λ st1 e1. then_get_account _ _ _ (
        then_or_raise _ _ _ _ _ λ decision e2. then_new_id _ _ _ (
          then_execute _ _ _ _ λ st2 e3. then_new_id _ _ _ (
            then_gets _ _ _ _ (
              then_known (λ j s'. Same st2 s'.store) _ _ _ _ (settle-Same decision _ _ _)
                λ j s' same. then_execute _ _ _ _ λ st3 e4. pure-Ok _ _ _ (
                  Same-trans s.store st1 st3 (save_signal-Same _ _ _ e1) (
                    Same-trans st1 st2 st3 (save_risk_decision-Same _ _ _ e3)
                      (Same-trans st2 s'.store st3 same (save_journal_entry-Same _ _ _ e4)))))))))
