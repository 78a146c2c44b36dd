-- ===== src/Live/StateStore/Closed.antt =====
-- live/state_store.py: an approval that is no longer pending stays so, whoever writes.
use mathlib.Core.Path.{subst}
use trading_workstation.Prelude.{
  ◌||◌, if_split, ℕ, ◌≡◌, refl, sym, ap, ◌∙◌, Bool, true, false, ◌&&◌, Option, List, [], ◌∷◌, ◌==◌,
  ==_iff, any, arith, Bool-cases, inl, inr,
}
use trading_workstation.Signal.{DateTime}
use trading_workstation.Live.Approval.{SignalLifecycleState, pending_human_approval}
use trading_workstation.Live.StateStore.Models.{Decision, ExecutionResult, PendingApprovalRecord}
use trading_workstation.Live.StateStore.{
  LiveStateStore, Decided, recorded, refused, update_decision, finalize_decision,
  save_pending_approval, is_state, is_pending_row, decide_row, update_where, insert_or_update,
}

abbrev pub IsPending : SignalLifecycleState → Type 0
IsPending state = is_state state pending_human_approval ≡ true

and_false : (b : Bool) → (b && false) ≡ false
and_false true = refl
and_false false = refl

module _ {A : Type 0} (f : A → Bool) (test : A → Bool) (update : A → A) where
  any_or : (x : A) (xs : List A) → any f (x ∷ xs) ≡ false → (f x ≡ false) × (any f xs ≡ false)
  any_or x xs h = ground arith

  or_any : (x : A) (xs : List A) → f x ≡ false → any f xs ≡ false → any f (x ∷ xs) ≡ false
  or_any x xs h k = ground arith

  -- Rows that the update takes out of the test stay out.
  any-update_where :
      (rows : List A)
      → ((x : A) → f (update x) ≡ false)
      → any f rows ≡ false
      → any f (update_where test update rows) ≡ false
  any-update_where [] h k = refl
  any-update_where (x ∷ xs) h k =
      let (fx, rest) = any_or x xs k in
      or_any _ (update_where test update xs)
        (if_split (λ y. f y ≡ false) (test x) _ _ (λ _. h x) (λ _. fx)) (any-update_where xs h rest)

  any-update_same :
      (rows : List A)
      → ((x : A) → f (update x) ≡ f x)
      → any f (update_where test update rows) ≡ any f rows
  any-update_same [] h = refl
  any-update_same (x ∷ xs) h =
      let same = if_split (λ y. f y ≡ f x) (test x) (update x) x (λ _. h x) (λ _. refl) in
      rw (same, any-update_same xs h) refl

-- All rows that pass a test are updated.
any-update_all :
    {A : Type 0} (f : A → Bool) (update : A → A) (rows : List A)
    → ((x : A) → f (update x) ≡ false)
    → any f (update_where f update rows) ≡ false
any-update_all f update [] h = refl
any-update_all f update (x ∷ xs) h =
    or_any f f update _ (update_where f update xs)
      (if_split (λ y. f y ≡ false) (f x) _ _ (λ _. h x) (λ e. e)) (any-update_all f update xs h)

any_and :
    {A : Type 0} (f g : A → Bool) (xs : List A) → any (λ x. f x && g x) xs ≡ true → any f xs ≡ true
any_and f g [] h = cc
any_and f g (x ∷ xs) h = elim (Bool-cases (any (λ y. f y && g y) xs)) [
  | inl e ↦ let rest = any_and f g xs e in ground arith
  | inr e ↦ ground arith
]

-- An insertion without a conflict goes to the end.
any-insert :
    {A : Type 0} (f test : A → Bool) (update : A → A) (new : A) (xs : List A)
    → any test xs ≡ false
    → any f (insert_or_update test update new xs) ≡ (any f xs || f new)
any-insert f test update new [] h = ground arith
any-insert f test update new (x ∷ xs) h =
    let (miss, rest) = any_or test test update x xs h in
    let ih = any-insert f test update new xs rest in rw miss (ground arith)

module _ {F : Type 0} where
  abbrev pub has_id : ℕ → PendingApprovalRecord F → Bool
  has_id id r = r.signal_id == id

  -- The approval has a row, and is not pending.
  abbrev pub Closed : ℕ → LiveStateStore F → Type 0
  Closed id st =
      (any (is_pending_row id) st.pending_approvals ≡ false)
      × (any (has_id id) st.pending_approvals ≡ true)

  -- An update that sets a settled state.
  abbrev Settles : (PendingApprovalRecord F → PendingApprovalRecord F) → Type 0
  Settles update =
      (r : PendingApprovalRecord F)
      → ((update r).signal_id ≡ r.signal_id)
        × (is_state (update r).state pending_human_approval ≡ false)

  settled_row :
      (update : PendingApprovalRecord F → PendingApprovalRecord F) (id : ℕ)
      → Settles update
      → (r : PendingApprovalRecord F) → is_pending_row id (update r) ≡ false
  settled_row update id h r =
      ap (λ b. ((update r).signal_id == id) && b) (h r).1 ∙ and_false ((update r).signal_id == id)

  module _ (test : PendingApprovalRecord F → Bool)
      (update : PendingApprovalRecord F → PendingApprovalRecord F) (h : Settles update) where
    rewritten : LiveStateStore F → LiveStateStore F
    rewritten st = record st { pending_approvals = update_where test update st.pending_approvals }

    rewritten-Closed : (id : ℕ) (st : LiveStateStore F) → Closed id st → Closed id (rewritten st)
    unfolding rewritten
    rewritten-Closed id st c = (
      any-update_where (is_pending_row id) test update st.pending_approvals
          (settled_row update id h) c.0,
      any-update_same (has_id id) test update st.pending_approvals (λ r. ap (λ n. n == id) (h r).0)
          ∙ c.1,
    )

  pub finalize_decision-Closed :
      (id : ℕ) (state : SignalLifecycleState) (history : List (SignalLifecycleState × DateTime))
      (quantity : Option ℕ) (result : ExecutionResult)
      → is_state state pending_human_approval ≡ false
      → (other : ℕ) (st : LiveStateStore F) → Closed other st
      → Closed other (finalize_decision id state history quantity result st)
  unfolding finalize_decision rewritten
  finalize_decision-Closed id state history quantity result settled other st c =
      rewritten-Closed (λ r. r.signal_id == id) _ (λ r. (refl, settled)) other st c

  same_id :
      (other : ℕ) (new : PendingApprovalRecord F) (rows : List (PendingApprovalRecord F))
      → any (has_id new.signal_id) rows ≡ false
      → any (has_id other) rows ≡ true
      → (new.signal_id == other) ≡ false
  same_id other new rows fresh known = elim (Bool-cases (new.signal_id == other)) [
    | inl e ↦
        let p = ap (λ n. any (has_id n) rows) ((==_iff new.signal_id other).0 e) in
        cc (sym fresh ∙ p ∙ known)
    | inr e ↦ e
  ]

  pub save_pending_approval-Closed :
      (new : PendingApprovalRecord F) (st : LiveStateStore F)
      → any (has_id new.signal_id) st.pending_approvals ≡ false
      → (other : ℕ) → Closed other st
      → Closed other (save_pending_approval new st)
  unfolding save_pending_approval
  save_pending_approval-Closed new st fresh other c =
      let apart = same_id other new st.pending_approvals fresh c.1 in
      let update =
        λ (r : PendingApprovalRecord F). record r { state = new.state; history = new.history } in
      (
        any-insert (is_pending_row other) (has_id new.signal_id) update new st.pending_approvals
              fresh
            ∙ ap (λ b. b || ((new.signal_id == other) && is_state new.state pending_human_approval))
                c.0
            ∙ ap (λ b. b && is_state new.state pending_human_approval) apart,
        any-insert (has_id other) (has_id new.signal_id) update new st.pending_approvals fresh
            ∙ ap (λ b. b || (new.signal_id == other)) c.1,
      )

  abbrev store_of : LiveStateStore F → Decided F → LiveStateStore F
  store_of st (recorded left) = left
  store_of st (refused e) = st

  -- What a decision that is recorded found, and what it leaves.
  abbrev pub Closes : ℕ → LiveStateStore F → LiveStateStore F → Type 0
  Closes id st left =
      (any (is_pending_row id) st.pending_approvals ≡ true)
      × Closed id left
      × ((other : ℕ) → Closed other st → Closed other left)

  pub update_decision-Closes :
      (id : ℕ) (state : SignalLifecycleState) (history : List (SignalLifecycleState × DateTime))
      (decision : Decision) (reason : Option ℕ) (decided_at : DateTime) (st left : LiveStateStore F)
      → is_state state pending_human_approval ≡ false
      → update_decision id state history decision reason decided_at st ≡ recorded left
      → Closes id st left
  unfolding update_decision rewritten
  update_decision-Closes id state history decision reason decided_at st left settled =
      let rows = st.pending_approvals in
      let update = decide_row state history decision reason decided_at in
      if_split (λ d. d ≡ recorded left → Closes id st left) (any (is_pending_row id) rows) _ _
        (λ found e.
          let h : Settles update = λ r. (refl, settled) in
          let all_ : Closed id (rewritten (is_pending_row id) update h st) = (
            any-update_all (is_pending_row id) update rows (settled_row update id h),
            any-update_same (has_id id) (is_pending_row id) update rows (λ r. refl)
                ∙ any_and (has_id id) (λ r. is_state r.state pending_human_approval) rows found,
          ) in
          subst (Closes id st) (ap (store_of st) e)
            (found, all_, λ other c. rewritten-Closed (is_pending_row id) update h other st c))
        (λ _.
          if_split (λ d. d ≡ recorded left → Closes id st left) (any (has_id id) rows) _ _
            (λ _ e. cc) (λ _ e. cc))
