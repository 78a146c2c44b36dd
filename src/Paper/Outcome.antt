-- ===== src/Paper/Outcome.antt =====
-- What holds of a call that returns: a rule for each way to compose calls.
use mathlib.Core.Path.{subst}
use trading_workstation.Prelude.{
  ℕ, ◌+◌, ◌≡◌, refl, sym, ap, Bool, true, false, Option, none, some, if◌then◌else◌,
}
use trading_workstation.Risk.Account.{Account}
use trading_workstation.Paper.Models.{Error}
use trading_workstation.Paper.Store.{Store, Written, wrote, raised}
use trading_workstation.Paper.Monad.{
  Engine, Result, ok, err, Action, pure, raise, or_raise, gets, finish, transaction, ◌>>=◌,
  committed, execute, modify_store, set_account, get_account, new_id,
}

ok_inj : {A : Type 0} (a b : A) → Result.ok a ≡ Result.ok b → a ≡ b
ok_inj a b e = cc

module _ {F : Type 0} where
  -- `Q` holds of the result and the state, unless the call raised.
  abbrev pub Ok : {A : Type 0} → Result A × Engine F → (A → Engine F → Type 0) → Type 0
  Ok (ok a, s) Q = Q a s
  Ok (err e, s) Q = Unit

  after-Ok :
      {A B : Type 0} (r : Result A × Engine F) (f : A → Action F B) (Q : B → Engine F → Type 0)
      → Ok r (λ a s. Ok (f a s) Q)
      → Ok (elim r.0 [ ok a ↦ f a r.1 | err e ↦ (err e, r.1) ]) Q
  after-Ok (ok a, s) f Q h = h
  after-Ok (err e, s) f Q h = tt

  pub bind-Ok :
      {A B : Type 0} (m : Action F A) (f : A → Action F B) (Q : B → Engine F → Type 0)
      (s : Engine F)
      → Ok (m s) (λ a s'. Ok (f a s') Q)
      → Ok ((m >>= f) s) Q
  unfolding ◌>>=◌
  bind-Ok m f Q s h = after-Ok (m s) f Q h

  module _ {A : Type 0} (Q : A → Engine F → Type 0) (s : Engine F) where
    pub pure-Ok : (a : A) → Q a s → Ok (pure a s) Q
    unfolding pure
    pure-Ok a h = h

    pub raise-Ok : (e : Error) → Ok (raise e s) Q
    unfolding raise
    raise-Ok e = tt

    pub or_raise-Ok :
        (o : Option A) (e : Error) → ((a : A) → o ≡ some a → Q a s) → Ok (or_raise o e s) Q
    unfolding or_raise
    or_raise-Ok none e h = tt
    or_raise-Ok (some a) e h = h a refl

    pub if-Ok :
        (b : Bool) (m k : Action F A)
        → (b ≡ true → Ok (m s) Q)
        → (b ≡ false → Ok (k s) Q)
        → Ok ((if b then m else k) s) Q
    if-Ok true m k h g = h refl
    if-Ok false m k h g = g refl

  committed-Ok :
      (w : Written F) (Q : Unit {0} → Engine F → Type 0) (s : Engine F)
      → ((st : Store F) → w ≡ wrote st → Q tt (record s { store = st }))
      → Ok (committed w s) Q
  committed-Ok (wrote st) Q s h = h st refl
  committed-Ok (raised e) Q s h = tt

  module _ (Q : Unit {0} → Engine F → Type 0) (s : Engine F) where
    pub execute-Ok :
        (f : Store F → Written F)
        → ((st : Store F) → f s.store ≡ wrote st → Q tt (record s { store = st }))
        → Ok (execute f s) Q
    unfolding execute
    execute-Ok f h = committed-Ok (f s.store) Q s h

    pub modify_store-Ok :
        (f : Store F → Store F) → Q tt (record s { store = f s.store }) → Ok (modify_store f s) Q
    unfolding modify_store
    modify_store-Ok f h = h

    pub set_account-Ok : (a : Account F) → Q tt (record s { account = a }) → Ok (set_account a s) Q
    unfolding set_account
    set_account-Ok a h = h

  -- A step, and then the rest of the block.
  module _ {B : Type 0} (Q : B → Engine F → Type 0) (s : Engine F) where
    pub then_pure :
        {A : Type 0} (a : A) (k : A → Action F B) → Ok (k a s) Q → Ok ((pure a >>= k) s) Q
    unfolding pure ◌>>=◌
    then_pure a k h = h

    pub then_gets :
        {A : Type 0} (f : Store F → A) (k : A → Action F B)
        → Ok (k (f s.store) s) Q
        → Ok ((gets f >>= k) s) Q
    unfolding gets ◌>>=◌
    then_gets f k h = h

    pub then_new_id :
        (k : ℕ → Action F B)
        → Ok (k s.next_id (record s { next_id = s.next_id + 1 })) Q
        → Ok ((new_id >>= k) s) Q
    unfolding new_id ◌>>=◌
    then_new_id k h = h

    pub then_get_account :
        (k : Account F → Action F B) → Ok (k s.account s) Q → Ok ((get_account >>= k) s) Q
    unfolding get_account ◌>>=◌
    then_get_account k h = h

    pub then_set_account :
        (a : Account F) (k : Unit {0} → Action F B)
        → Ok (k tt (record s { account = a })) Q
        → Ok ((set_account a >>= k) s) Q
    unfolding set_account ◌>>=◌
    then_set_account a k h = h

    pub then_modify_store :
        (f : Store F → Store F) (k : Unit {0} → Action F B)
        → Ok (k tt (record s { store = f s.store })) Q
        → Ok ((modify_store f >>= k) s) Q
    unfolding modify_store ◌>>=◌
    then_modify_store f k h = h

    pub then_execute :
        (f : Store F → Written F) (k : Unit {0} → Action F B)
        → ((st : Store F) → f s.store ≡ wrote st → Ok (k tt (record s { store = st })) Q)
        → Ok ((execute f >>= k) s) Q
    then_execute f k h = bind-Ok (execute f) k Q s (execute-Ok (λ a s'. Ok (k a s') Q) s f h)

    pub then_or_raise :
        {A : Type 0} (o : Option A) (e : Error) (k : A → Action F B)
        → ((a : A) → o ≡ some a → Ok (k a s) Q)
        → Ok ((or_raise o e >>= k) s) Q
    then_or_raise o e k h =
        bind-Ok (or_raise o e) k Q s (or_raise-Ok (λ a s'. Ok (k a s') Q) s o e h)

  pub Ok_mono :
      {A : Type 0} (P Q : A → Engine F → Type 0) (r : Result A × Engine F)
      → ((a : A) (s : Engine F) → P a s → Q a s)
      → Ok r P
      → Ok r Q
  Ok_mono P Q (ok a, s) f h = f a s h
  Ok_mono P Q (err e, s) f h = tt

  -- Equations of calls, under a bind.
  pub bind_cong :
      {A B : Type 0} (m m' : Action F A) (k : A → Action F B) (s : Engine F)
      → m s ≡ m' s
      → (m >>= k) s ≡ (m' >>= k) s
  unfolding ◌>>=◌
  bind_cong {A} {B} m m' k s e =
      ap
        (λ (r : Result A × Engine F).
          let x : Result B × Engine F = elim r.0 [ ok a ↦ k a r.1 | err e ↦ (err e, r.1) ] in x)
        e

  pub bind-ok :
      {A B : Type 0} (m : Action F A) (k : A → Action F B) (s : Engine F) (a : A) (s' : Engine F)
      → m s ≡ (ok a, s')
      → (m >>= k) s ≡ k a s'
  unfolding ◌>>=◌
  bind-ok {A} {B} m k s a s' e =
      ap
        (λ (r : Result A × Engine F).
          let x : Result B × Engine F = elim r.0 [ ok a ↦ k a r.1 | err e ↦ (err e, r.1) ] in x)
        e

  -- A call of which `P` is known, and then the rest of the block.
  pub then_known :
      {A B : Type 0} (P : A → Engine F → Type 0) (Q : B → Engine F → Type 0) (m : Action F A)
      (k : A → Action F B) (s : Engine F)
      → Ok (m s) P
      → ((a : A) (s' : Engine F) → P a s' → Ok (k a s') Q)
      → Ok ((m >>= k) s) Q
  then_known P Q m k s h f = bind-Ok m k Q s (Ok_mono P (λ a s'. Ok (k a s') Q) (m s) f h)

  finish-Ok :
      {A : Type 0} (before : Store F) (Q : A → Engine F → Type 0) (r : Result A × Engine F)
      → Ok r Q
      → Ok (finish before r) Q
  finish-Ok before Q (ok a, s) h = h
  finish-Ok before Q (err e, s) h = tt

  pub transaction-Ok :
      {A : Type 0} (m : Action F A) (Q : A → Engine F → Type 0) (s : Engine F)
      → Ok (m s) Q
      → Ok (transaction m s) Q
  unfolding transaction
  transaction-Ok m Q s h = finish-Ok s.store Q (m s) h

  finish_rolls_back :
      {A : Type 0} (before : Store F) (r : Result A × Engine F) (e : Error)
      → (finish before r).0 ≡ err e
      → (finish before r).1.store ≡ before
  finish_rolls_back before (ok a, s) e h = cc
  finish_rolls_back before (err e', s) e h = refl

  -- A transaction that raises leaves the store as it was.
  pub transaction_rolls_back :
      {A : Type 0} (m : Action F A) (s : Engine F) (e : Error)
      → (transaction m s).0 ≡ err e
      → (transaction m s).1.store ≡ s.store
  unfolding transaction
  transaction_rolls_back m s e h = finish_rolls_back s.store (m s) e h

  -- What `Ok` says of a call that is known to return.
  pub Ok-at :
      {A : Type 0} (Q : A → Engine F → Type 0) (r : Result A × Engine F) (a : A)
      → Ok r Q
      → r.0 ≡ ok a
      → Q a r.1
  Ok-at Q (ok b, s) a h e = subst (λ x. Q x s) (ok_inj b a e) h
  Ok-at Q (err e', s) a h e = absurd (cc)

  result_always :
      {A : Type 0} (P : Store F → Type 0) (before : Store F) (r : Result A × Engine F)
      → ((e : Error) → r.0 ≡ err e → r.1.store ≡ before)
      → P before
      → Ok r (λ a s'. P s'.store)
      → P r.1.store
  result_always P before (ok a, s') back p h = h
  result_always P before (err e, s') back p h = subst P (sym (back e refl)) p

  -- From what holds if a transaction returns to what holds whatever it does.
  pub transaction_always :
      {A : Type 0} (m : Action F A) (P : Store F → Type 0) (s : Engine F)
      → Ok (transaction m s) (λ a s'. P s'.store)
      → P s.store
      → P (transaction m s).1.store
  transaction_always m P s h p =
      result_always P s.store (transaction m s) (transaction_rolls_back m s) p h
