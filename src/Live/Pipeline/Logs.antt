-- ===== src/Live/Pipeline/Logs.antt =====
-- live/pipeline.py: what a method does to the shared table of approvals, with the list of the signals
-- that it decided.
use mathlib.Core.Path.{subst}
use trading_workstation.Prelude.{
  ℕ, ◌≡◌, ◌≢◌, refl, sym, ◌∙◌, some, List, [], ◌∷◌, ◌++◌, All, All-append,
}
use trading_workstation.Live.StateStore.Closed.{Closed, Closes}
use trading_workstation.Live.StateStore.{LiveStateStore}
use trading_workstation.Live.Pipeline.Monad.{
  Live, Caught, returned, failed, Failure, Step, proceed, ◌>>=◌,
}

-- No id twice.
abbrev pub Unique : List ℕ → Type 0
Unique [] = Unit
Unique (x ∷ xs) = All (λ y. x ≢ y) xs × Unique xs

Unique-append :
    (P : ℕ → Type 0) (xs ys : List ℕ)
    → All P xs
    → All (λ y. ¬ P y) ys
    → Unique xs
    → Unique ys
    → Unique (xs ++ ys)
Unique-append P [] ys p q u v = v
Unique-append P (x ∷ xs) ys p q u v =
    (All-append (λ y. x ≢ y) xs ys u.0 (apart ys q), Unique-append P xs ys p.1 q u.1 v)
  where
    apart : (zs : List ℕ) → All (λ y. ¬ P y) zs → All (λ y. x ≢ y) zs
    apart [] h = tt
    apart (z ∷ zs) h = (λ e. h.0 (subst P e p.0), apart zs h.1)

All-map :
    {A : Type 0} (P Q : A → Type 0) (xs : List A) → ((x : A) → P x → Q x) → All P xs → All Q xs
All-map P Q [] f h = tt
All-map P Q (x ∷ xs) f h = (f x h.0, All-map P Q xs f h.1)

abbrev pub nothing : {A : Type 0} → Caught A → List ℕ
nothing r = []

module _ {F : Type 0} where
  -- The signals of the log were open, each is decided once, and what is decided stays so.
  pub record Fine (log : List ℕ) (st left : LiveStateStore F) : Type 0 where
    pub keeps : (id : ℕ) → Closed id st → Closed id left
    pub closes : All (λ id. Closed id left) log
    pub were_open : All (λ id. ¬ Closed id st) log
    pub unique : Unique log

  pub Fine-nothing :
      (st left : LiveStateStore F) → ((id : ℕ) → Closed id st → Closed id left) → Fine [] st left
  Fine-nothing st left h = record { keeps = h; closes = tt; were_open = tt; unique = tt }

  pub Fine-append :
      (xs ys : List ℕ) (a b c : LiveStateStore F) → Fine xs a b → Fine ys b c → Fine (xs ++ ys) a c
  Fine-append xs ys a b c p q = record {
    keeps = λ id h. q.keeps id (p.keeps id h);
    closes =
        All-append (λ id. Closed id c) xs ys
          (All-map (λ id. Closed id b) (λ id. Closed id c) xs q.keeps p.closes) q.closes;
    were_open =
        All-append (λ id. ¬ Closed id a) xs ys p.were_open
          (All-map (λ id. ¬ Closed id b) (λ id. ¬ Closed id a) ys (λ id h k. h (p.keeps id k))
            q.were_open);
    unique = Unique-append (λ id. Closed id b) xs ys p.closes q.were_open p.unique q.unique;
  }

  pub Fine-none : (log : List ℕ) (st left : LiveStateStore F) → Fine log st left → Fine [] st left
  Fine-none log st left h = Fine-nothing st left h.keeps

  pub Fine-one : (id : ℕ) (st left : LiveStateStore F) → Closes id st left → Fine (id ∷ []) st left
  Fine-one id st left (found, closed, keeps) = record {
    keeps = keeps;
    closes = (closed, tt);
    were_open = (λ c. cc, tt);
    unique = (tt, tt);
  }

  module _ {A : Type 0} where
    -- The outcome of a step that began with the table `st`.
    abbrev pub Ends : (Caught A → List ℕ) → LiveStateStore F → Caught A × Live F → Type 0
    Ends log st (r, s) =
        (left : LiveStateStore F) × (s.state_store ≡ some left) × Fine (log r) st left

    -- The decisions of a step are those that `log` reads from its result.
    abbrev pub Logs : (Caught A → List ℕ) → Step F A → Type 0
    Logs log m = (s : Live F) (st : LiveStateStore F) → s.state_store ≡ some st → Ends log st (m s)

    -- A step that does not write to the store.
    abbrev pub Leaves : Step F A → Type 0
    Leaves m = (s : Live F) → (m s).1.state_store ≡ s.state_store

    pub Leaves-Logs : (m : Step F A) → Leaves m → Logs nothing m
    Leaves-Logs m h s st e = (st, h s ∙ e, Fine-nothing st st (λ id c. c))

    -- What a step returns has a property.
    abbrev pub Yields : (A → Type 0) → Step F A → Type 0
    Yields Q m = (s : Live F) (a : A) → (m s).0 ≡ returned a → Q a

  module _ {A B : Type 0} (m : Step F A) (f : A → Step F B) where
    -- A step that decides nothing, and then the rest.
    pub then-Logs :
        (Q : A → Type 0) (log : Caught B → List ℕ)
        → Logs nothing m
        → Yields Q m
        → ((a : A) → Q a → Logs log (f a))
        → ((e : Failure) → log (failed e) ≡ [])
        → Logs log (m >>= f)
    then-Logs Q log h y k none_ s st e = go (m s) (h s st e) (y s)
      where
        go :
            (p : Caught A × Live F)
            → Ends nothing st p
            → ((a : A) → p.0 ≡ returned a → Q a)
            → Ends log st (proceed f p)
        go (returned a, s1) (mid, e1, fine1) q =
            let (left, e2, fine2) = k a (q a refl) s1 mid e1 in
            (left, e2, Fine-append [] (log (f a s1).0) st mid left fine1 fine2)
        go (failed x, s1) (mid, e1, fine1) q =
            (mid, e1, subst (λ l. Fine l st mid) (sym (none_ x)) fine1)

    -- A step that decides, and then one that hands on its result.
    pub before-Logs :
        (log : Caught A → List ℕ) (log' : Caught B → List ℕ)
        → Logs log m
        → ((a : A) → Leaves (f a))
        → ((a : A) (s : Live F) → log' (f a s).0 ≡ log (returned a))
        → ((e : Failure) → log' (failed e) ≡ log (failed e))
        → Logs log' (m >>= f)
    before-Logs log log' h leaves same same_failed s st e = go (m s) (h s st e)
      where
        go : (p : Caught A × Live F) → Ends log st p → Ends log' st (proceed f p)
        go (returned a, s1) (left, e1, fine) =
            (left, leaves a s1 ∙ e1, subst (λ l. Fine l st left) (sym (same a s1)) fine)
        go (failed x, s1) (left, e1, fine) =
            (left, e1, subst (λ l. Fine l st left) (sym (same_failed x)) fine)
