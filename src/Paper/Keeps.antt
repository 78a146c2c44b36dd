-- ===== src/Paper/Keeps.antt =====
-- What a call keeps true of the tables, unless it raises: a rule for each statement.
pub mod Laws
pub mod Methods
pub mod Bars
pub mod Submit
pub mod Calls
use trading_workstation.Prelude.{◌≡◌, Bool, true, false, Option, if◌then◌else◌}
use trading_workstation.Risk.Account.{Account}
use trading_workstation.Paper.Models.{Error}
use trading_workstation.Paper.Store.{Store, Written, wrote}
use trading_workstation.Paper.Monad.{
  Engine, Result, ok, err, Action, pure, raise, or_raise, gets, transaction, ◌>>=◌, execute,
  modify_store, set_account, get_account, new_id, refresh_account,
}
use trading_workstation.Paper.Outcome.{
  Ok, bind-Ok, pure-Ok, raise-Ok, or_raise-Ok, execute-Ok, modify_store-Ok, transaction-Ok,
}

module _ {F : Type 0} (P : Store F → Type 0) where
  abbrev pub Keeps : {A : Type 0} → Action F A → Type 0
  Keeps m = (s : Engine F) → P s.store → Ok (m s) λ a s'. P s'.store

  weaken :
      {A : Type 0} (r : Result A × Engine F) (Q R : A → Engine F → Type 0)
      → Ok r Q
      → ((a : A) (s : Engine F) → Q a s → R a s)
      → Ok r R
  weaken (ok a, s) Q R h f = f a s h
  weaken (err e, s) Q R h f = tt

  pub bind-Keeps :
      {A B : Type 0} (m : Action F A) (f : A → Action F B)
      → Keeps m
      → ((a : A) → Keeps (f a))
      → Keeps (m >>= f)
  bind-Keeps m f hm hf s p = bind-Ok m f _ s (weaken (m s) _ _ (hm s p) λ a s' q. hf a s' q)

  pub pure-Keeps : {A : Type 0} (a : A) → Keeps (pure a)
  pure-Keeps a s p = pure-Ok _ _ _ p

  pub raise-Keeps : (A : Type 0) (e : Error) → Keeps {A = A} (raise e)
  raise-Keeps A e s p = raise-Ok _ _ _

  pub or_raise-Keeps : {A : Type 0} (o : Option A) (e : Error) → Keeps (or_raise o e)
  or_raise-Keeps o e s p = or_raise-Ok _ _ _ _ λ a h. p

  pub gets-Keeps : {A : Type 0} (f : Store F → A) → Keeps (gets f)
  unfolding gets
  gets-Keeps f s p = p

  pub get_account-Keeps : Keeps get_account
  unfolding get_account
  get_account-Keeps s p = p

  pub set_account-Keeps : (a : Account F) → Keeps (set_account a)
  unfolding set_account
  set_account-Keeps a s p = p

  pub new_id-Keeps : Keeps new_id
  unfolding new_id
  new_id-Keeps s p = p

  pub execute-Keeps :
      (f : Store F → Written F)
      → ((st st' : Store F) → f st ≡ wrote st' → P st → P st')
      → Keeps (execute f)
  execute-Keeps f h s p = execute-Ok _ s f λ st e. h s.store st e p

  pub modify_store-Keeps :
      (f : Store F → Store F) → ((st : Store F) → P st → P (f st)) → Keeps (modify_store f)
  modify_store-Keeps f h s p = modify_store-Ok _ s f (h s.store p)

  pub if-Keeps :
      {A : Type 0} (b : Bool) (m k : Action F A) → Keeps m → Keeps k → Keeps (if b then m else k)
  if-Keeps true m k hm hk = hm
  if-Keeps false m k hm hk = hk

  pub transaction-Keeps : {A : Type 0} (m : Action F A) → Keeps m → Keeps (transaction m)
  transaction-Keeps m h s p = transaction-Ok _ _ _ (h s p)

  pub refresh_account-Keeps : Keeps refresh_account
  unfolding refresh_account
  refresh_account-Keeps =
      bind-Keeps _ _ (gets-Keeps _)
        λ stored. bind-Keeps _ _ (or_raise-Keeps stored _) λ a. set_account-Keeps a
