-- ===== src/Live/Approval/Paths.antt =====
-- live/approval.py: sequences of `transition_to`.
use mathlib.Core.Path.{subst}
use mathlib.Core.Option.{some-injective}
use trading_workstation.Prelude.{
  ap, ℕ, ◌≡◌, refl, inl, inr, Bool, true, Option, some, List, [], ◌∷◌, arith, Bool-cases,
}
use trading_workstation.Prelude.Options.{◌>>=◌, >>=-eq-some}
use trading_workstation.Signal.{DateTime}
use trading_workstation.Live.Approval.{
  SignalLifecycleState, SignalLifecycle, signal_generated, critic_rejected, risk_approved,
  risk_rejected, ai_explained, pending_human_approval, human_approved, human_rejected,
  approval_expired, executed, legal_transitions, is_member, new_lifecycle, transition_to,
}

-- The calls in order; the first that raises ends the run.
unfoldable pub transitions :
    List (SignalLifecycleState × DateTime) → SignalLifecycle → Option SignalLifecycle
transitions [] l = some l
transitions ((state, now) ∷ calls) l = transition_to state now l >>= transitions calls

pub transition_to_inv :
    (state : SignalLifecycleState) (now : DateTime) (l l' : SignalLifecycle)
    → transition_to state now l ≡ some l'
    → (is_member state (legal_transitions l.require_human_approval l.state) ≡ true)
      × (record l { state = state; history = (state, now) ∷ l.history } ≡ l')
unfolding transition_to
transition_to_inv state now l l' e =
    elim (Bool-cases (is_member state (legal_transitions l.require_human_approval l.state))) [
      | inl legal ↦ (legal, cc)
      | inr illegal ↦ cc
    ]

into_executed :
    (a : SignalLifecycleState)
    → is_member executed (legal_transitions true a) ≡ true
    → a ≡ human_approved
into_executed a h = ground arith

into_human_approved :
    (a : SignalLifecycleState)
    → is_member human_approved (legal_transitions true a) ≡ true
    → a ≡ pending_human_approval
into_human_approved a h = ground arith

-- The latest entries of the history of a signal that needs a human: an execution stands directly on
-- an approval, and an approval on the entry that made the signal wait for one.
abbrev pub IsBacked : SignalLifecycleState → List (SignalLifecycleState × DateTime) → Type 0
IsBacked executed history =
    (e : DateTime) × (a : DateTime) × (p : DateTime) × (earlier : List
      (SignalLifecycleState × DateTime))
    × (history ≡ (executed, e) ∷ (human_approved, a) ∷ (pending_human_approval, p) ∷ earlier)
IsBacked human_approved history =
    (a : DateTime) × (p : DateTime) × (earlier : List (SignalLifecycleState × DateTime)) × (history
      ≡ (human_approved, a) ∷ (pending_human_approval, p) ∷ earlier)
IsBacked pending_human_approval history =
    (p : DateTime) × (earlier : List (SignalLifecycleState × DateTime)) × (history
      ≡ (pending_human_approval, p) ∷ earlier)
IsBacked _ history = Unit

IsBacked-step :
    (a b : SignalLifecycleState) (now : DateTime) (h : List (SignalLifecycleState × DateTime))
    → is_member b (legal_transitions true a) ≡ true
    → IsBacked a h
    → IsBacked b ((b, now) ∷ h)
IsBacked-step a executed now h legal held =
    let backed = subst (λ s. IsBacked s h) (into_executed a legal) held in
    (now, backed.0, backed.1, backed.2, ap (λ x. (executed, now) ∷ x) backed.3)
IsBacked-step a human_approved now h legal held =
    let backed = subst (λ s. IsBacked s h) (into_human_approved a legal) held in
    (now, backed.0, backed.1, ap (λ x. (human_approved, now) ∷ x) backed.2)
IsBacked-step a pending_human_approval now h legal held = (now, h, refl)
IsBacked-step a signal_generated now h legal held = tt
IsBacked-step a critic_rejected now h legal held = tt
IsBacked-step a risk_approved now h legal held = tt
IsBacked-step a risk_rejected now h legal held = tt
IsBacked-step a ai_explained now h legal held = tt
IsBacked-step a human_rejected now h legal held = tt
IsBacked-step a approval_expired now h legal held = tt

-- The entries of a history follow the graph, from the start to the state.
abbrev pub IsPath : Bool → SignalLifecycleState → List (SignalLifecycleState × DateTime) → Type 0
IsPath require state [] = ⊥
IsPath require state ((s, t) ∷ []) = (s ≡ signal_generated) × (state ≡ s)
IsPath require state ((s, t) ∷ (s', t') ∷ h) =
    (state ≡ s)
    × (is_member s (legal_transitions require s') ≡ true)
    × IsPath require s' ((s', t') ∷ h)

-- What every lifecycle satisfies.
abbrev pub IsSound : SignalLifecycle → Type 0
IsSound l =
    IsPath l.require_human_approval l.state l.history
    × (l.require_human_approval ≡ true → IsBacked l.state l.history)

IsPath-extend :
    (require : Bool) (a b : SignalLifecycleState) (now : DateTime)
    (h : List (SignalLifecycleState × DateTime))
    → is_member b (legal_transitions require a) ≡ true
    → IsPath require a h
    → IsPath require b ((b, now) ∷ h)
IsPath-extend require a b now [] legal path = absurd path
IsPath-extend require a b now ((s, t) ∷ []) legal path = (
  refl,
  subst (λ x. is_member b (legal_transitions require x) ≡ true) path.1 legal,
  (path.0, refl),
)
IsPath-extend require a b now ((s, t) ∷ (s', t') ∷ h) legal path = (
  refl,
  subst (λ x. is_member b (legal_transitions require x) ≡ true) path.0 legal,
  (refl, path.1, path.2),
)

transition_to-IsSound :
    (state : SignalLifecycleState) (now : DateTime) (l l' : SignalLifecycle)
    → transition_to state now l ≡ some l'
    → IsSound l
    → IsSound l'
transition_to-IsSound state now l l' e sound =
    let step = transition_to_inv state now l l' e in
    subst IsSound step.1 (
      IsPath-extend _ l.state state now l.history step.0 sound.0,
      λ needs.
          IsBacked-step l.state state now l.history
            (subst (λ r. is_member state (legal_transitions r l.state) ≡ true) needs step.0)
            (sound.1 needs),
    )

transitions-IsSound :
    (calls : List (SignalLifecycleState × DateTime)) (l l' : SignalLifecycle)
    → transitions calls l ≡ some l'
    → IsSound l
    → IsSound l'
unfolding transitions
transitions-IsSound [] l l' e sound = subst IsSound (some-injective _ _ e) sound
transitions-IsSound ((state, now) ∷ calls) l l' e sound =
    let (l1, first, rest) = >>=-eq-some (transition_to state now l) (transitions calls) e in
    transitions-IsSound calls l1 l' rest (transition_to-IsSound state now l l1 first sound)

-- Whatever calls were made, the history is a path of the graph from SIGNAL_GENERATED to the state;
-- and if a human has to approve, a signal is EXECUTED only directly after HUMAN_APPROVED, and that
-- directly after PENDING_HUMAN_APPROVAL.
pub lifecycle-IsSound :
    (signal_id : ℕ) (require : Bool) (created : DateTime)
    (calls : List (SignalLifecycleState × DateTime)) (l : SignalLifecycle)
    → transitions calls (new_lifecycle signal_id require created) ≡ some l
    → IsSound l
lifecycle-IsSound signal_id require created calls l e =
    transitions-IsSound calls _ l e ((refl, refl), λ needs. tt)
