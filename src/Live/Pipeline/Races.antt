-- ===== src/Live/Pipeline/Races.antt =====
-- live/pipeline.py: several pipelines, in processes of their own, that share one store and one engine.
-- `approve_pending` is `check_actionable`, then `claim`, then `conclude`, and `reject_pending` is
-- `check_actionable`, then `claim`; the turns of different pipelines mix between these parts.
use mathlib.Core.Path.{subst}
use trading_workstation.Prelude.{
  ℕ, All, ap, refl, sym, Option, none, some, List, [], ◌∷◌, ◌++◌, any, if_split, if◌then◌else◌,
  Double,
}
use trading_workstation.Signal.{DateTime}
use trading_workstation.Paper.Monad.{Engine}
use trading_workstation.Paper.Positions.{Setup}
use trading_workstation.Live.Approval.{SignalLifecycleState, human_approved, human_rejected}
use trading_workstation.Live.StateStore.Models.{Decision, approve, reject, PendingApprovalRecord}
use trading_workstation.Live.StateStore.{
  LiveStateStore, save_pending_approval, activate_kill_switch, reset_kill_switch,
}
use trading_workstation.Live.StateStore.Closed.{Closed, has_id, save_pending_approval-Closed}
use trading_workstation.Live.Pipeline.Monad.{PendingApproval, Live, Caught}
use trading_workstation.Live.Pipeline.Decisions.{
  expire_pending_approvals, check_actionable, claim, conclude,
}
use trading_workstation.Live.Pipeline.Logs.{Unique, Fine, Fine-nothing, Fine-append, Ends, nothing}
use trading_workstation.Live.Pipeline.Moving.{IsSettled, no_decision, ids_of}
use trading_workstation.Live.Pipeline.Methods.{
  when_won, expire_pending_approvals-Logs, check_actionable-Logs, claim-Logs, conclude-Logs,
}

pub data Verdict : Type 0 where
  approving rejecting : Verdict

abbrev pub state_of : Verdict → SignalLifecycleState
state_of approving = human_approved
state_of rejecting = human_rejected

abbrev pub decision_of : Verdict → Decision
decision_of approving = approve
decision_of rejecting = reject

-- What a pipeline, or an operator, does in its turn. An approval is asked for once for a signal.
pub data Act (F : Type 0) : Type 0 where
  expiring : DateTime → Act F
  checking : ℕ → DateTime → Act F
  claiming : Verdict → ℕ → Option ℕ → DateTime → Act F
  concluding : PendingApproval F → DateTime → Act F
  asking : PendingApprovalRecord F → Act F
  switching_on : ℕ → DateTime → Act F
  switching_off : Act F

-- `who` is the pipeline's own memory, with nothing assumed of it.
pub record Turn (F : Type 0) : Type 0 where
  pub who : Live F
  pub act : Act F

-- What the pipelines share, and the signals decided so far.
pub record Shared (F : Type 0) : Type 0 where
  pub store : LiveStateStore F
  pub engine : Engine F

module _ {F : Type 0} where
  abbrev pub seat : Live F → Shared F → Live F
  seat who sh = record who { state_store = some sh.store; engine = sh.engine }

  abbrev store_after : Option (LiveStateStore F) → LiveStateStore F → LiveStateStore F
  store_after none before = before
  store_after (some st) before = st

  abbrev pub left_by :
      {A : Type 0} → (Caught A → List ℕ) → Shared F → Caught A × Live F → List ℕ × Shared F
  left_by log sh (r, s) =
      (log r, record { store = store_after s.state_store sh.store; engine = s.engine })

  abbrev pub ask_once : PendingApprovalRecord F → LiveStateStore F → LiveStateStore F
  ask_once row st =
      if any (has_id row.signal_id) st.pending_approvals then st else save_pending_approval row st

  left_by-Fine :
      {A : Type 0} (log : Caught A → List ℕ) (sh : Shared F) (p : Caught A × Live F)
      → Ends log sh.store p
      → Fine (left_by log sh p).0 sh.store (left_by log sh p).1.store
  left_by-Fine log sh (r, s) (left, e, f) =
      subst (Fine (log r) sh.store) (sym (ap (λ o. store_after o sh.store) e)) f

  ask_once-Fine :
      (row : PendingApprovalRecord F) (st : LiveStateStore F) → Fine [] st (ask_once row st)
  ask_once-Fine row st =
      if_split (Fine [] st) (any (has_id row.signal_id) st.pending_approvals) _ _
        (λ _. Fine-nothing st st (λ id c. c))
        (λ fresh.
          Fine-nothing st (save_pending_approval row st)
            (save_pending_approval-Closed row st fresh))

module _ {F : Type 0} ⦃d : Double F⦄ (setup : Setup F) where
  -- A turn: the signals that it decides, and what it leaves.
  abbrev pub take_turn : Live F → Act F → Shared F → List ℕ × Shared F
  take_turn who (expiring now) sh = left_by ids_of sh (expire_pending_approvals now (seat who sh))
  take_turn who (checking id now) sh = left_by nothing sh (check_actionable id now (seat who sh))
  take_turn who (claiming v id reason now) sh =
      left_by (when_won id) sh (claim id (state_of v) (decision_of v) reason now (seat who sh))
  take_turn who (concluding p now) sh = left_by no_decision sh (conclude setup p now (seat who sh))
  take_turn who (asking row) sh = ([], record sh { store = ask_once row sh.store })
  take_turn who (switching_on reason now) sh =
      ([], record sh { store = activate_kill_switch reason now sh.store })
  take_turn who switching_off sh = ([], record sh { store = reset_kill_switch sh.store })

  -- the signals that a sequence of turns decides, in order, and what it leaves
  unfoldable pub take_turns : List (Turn F) → Shared F → List ℕ × Shared F
  take_turns [] sh = ([], sh)
  take_turns (turn ∷ turns) sh =
      let (log, next) = take_turn turn.who turn.act sh in
      let (logs, last) = take_turns turns next in (log ++ logs, last)

  take_turn-Fine :
      (who : Live F) (act : Act F) (sh : Shared F)
      → Fine (take_turn who act sh).0 sh.store (take_turn who act sh).1.store
  unfolding activate_kill_switch reset_kill_switch
  take_turn-Fine who (expiring now) sh =
      left_by-Fine ids_of sh (expire_pending_approvals now (seat who sh))
        (expire_pending_approvals-Logs now (seat who sh) sh.store refl)
  take_turn-Fine who (checking id now) sh =
      left_by-Fine nothing sh (check_actionable id now (seat who sh))
        (check_actionable-Logs id now (seat who sh) sh.store refl)
  take_turn-Fine who (claiming v id reason now) sh =
      left_by-Fine (when_won id) sh (claim id (state_of v) (decision_of v) reason now (seat who sh))
        (claim-Logs id (state_of v) (decision_of v) reason now (settled v) (seat who sh) sh.store
          refl)
    where
      settled : (v : Verdict) → IsSettled (state_of v)
      settled approving = refl
      settled rejecting = refl
  take_turn-Fine who (concluding p now) sh =
      left_by-Fine no_decision sh (conclude setup p now (seat who sh))
        (conclude-Logs setup p now (seat who sh) sh.store refl)
  take_turn-Fine who (asking row) sh = ask_once-Fine row sh.store
  take_turn-Fine who (switching_on reason now) sh = Fine-nothing sh.store _ (λ id c. c)
  take_turn-Fine who switching_off sh = Fine-nothing sh.store _ (λ id c. c)

  take_turns-Fine :
      (turns : List (Turn F)) (sh : Shared F)
      → Fine (take_turns turns sh).0 sh.store (take_turns turns sh).1.store
  unfolding take_turns
  take_turns-Fine [] sh = Fine-nothing sh.store sh.store (λ id c. c)
  take_turns-Fine (turn ∷ turns) sh =
      let (log, next) = take_turn turn.who turn.act sh in
      Fine-append log (take_turns turns next).0 sh.store next.store (take_turns turns next).1.store
        (take_turn-Fine turn.who turn.act sh) (take_turns-Fine turns next)

  -- Of any number of pipelines that share one store, whatever each remembers, in any sequence of
  -- expiries, checks, claims by approval or rejection, conclusions of a claim, requests for the
  -- approval of a signal that has none, and turns of the kill switch: no signal is decided twice,
  -- by two claims, two expiries, or a claim and an expiry; and a signal that is decided when the
  -- sequence begins is not decided in it. A decision counts when it is reported as won.
  pub take_turns-Unique :
      (turns : List (Turn F)) (sh : Shared F)
      → Unique (take_turns turns sh).0 × All (λ id. ¬ Closed id sh.store) (take_turns turns sh).0
  take_turns-Unique turns sh = let fine = take_turns-Fine turns sh in (fine.unique, fine.were_open)
