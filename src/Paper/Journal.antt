-- ===== src/Paper/Journal.antt =====
-- paper/store.py: the keys of the journal, and the statements that write it.
pub mod Calls
use mathlib.Core.Path.{subst}
use mathlib.Core.Option.{some-injective}
use trading_workstation.Prelude.{
  ℕ, ◌≡◌, refl, ap, sym, ◌∙◌, Bool, true, false, not, Option, none, some, List, [], ◌∷◌, ◌++◌, any,
  ◌==◌, ◌||◌, if◌then◌else◌, arith, Bool-cases, inl, inr,
}
use trading_workstation.Paper.Models.{JournalEntry}
use trading_workstation.Paper.Store.{
  Store, wrote, find, replace, save_journal_entry, update_journal_entry,
  find_journal_entry_by_signal_id,
}
use trading_workstation.Paper.Reconciliation.{signal_ids}
use trading_workstation.Paper.Reconciliation.Consistent.{IsDistinct}

abbrev pub entry_ids : List JournalEntry → List ℕ
entry_ids [] = []
entry_ids (j ∷ js) = j.journal_entry_id ∷ entry_ids js

-- No two entries share their id or their signal.
pub record IsKeyed (js : List JournalEntry) : Type 0 where
  pub entries : IsDistinct (entry_ids js)
  pub signals : IsDistinct (signal_ids js)

any_snoc :
    (x : ℕ) (xs : List ℕ) (id : ℕ)
    → any (λ y. y == x) xs ≡ false
    → (id == x) ≡ false
    → any (λ y. y == x) (xs ++ (id ∷ [])) ≡ false
any_snoc x [] id h e = ground arith
any_snoc x (y ∷ ys) id h e = ground (arith, any_snoc x ys id)

IsDistinct-snoc :
    (xs : List ℕ) (id : ℕ)
    → any (λ y. y == id) xs ≡ false
    → IsDistinct xs
    → IsDistinct (xs ++ (id ∷ []))
IsDistinct-snoc [] id h d = (refl, tt)
IsDistinct-snoc (x ∷ xs) id h d =
    (any_snoc x xs id d.0 (ground arith), IsDistinct-snoc xs id (ground arith) d.1)

-- what the two UNIQUE tests of an insert mean for the lists of ids
fresh_keys :
    (js : List JournalEntry) (e : JournalEntry)
    → any (λ j. j.journal_entry_id == e.journal_entry_id || j.signal_id == e.signal_id) js ≡ false
    → (any (λ y. y == e.journal_entry_id) (entry_ids js) ≡ false)
      × (any (λ y. y == e.signal_id) (signal_ids js) ≡ false)
fresh_keys [] e h = (refl, refl)
fresh_keys (j ∷ js) e h =
    let (a, b) = fresh_keys js e (ground arith) in (ground arith, ground arith)

entry_ids-snoc :
    (js : List JournalEntry) (e : JournalEntry)
    → entry_ids (js ++ (e ∷ [])) ≡ entry_ids js ++ (e.journal_entry_id ∷ [])
entry_ids-snoc [] e = refl
entry_ids-snoc (j ∷ js) e = ap (λ x. j.journal_entry_id ∷ x) (entry_ids-snoc js e)

signal_ids-snoc :
    (js : List JournalEntry) (e : JournalEntry)
    → signal_ids (js ++ (e ∷ [])) ≡ signal_ids js ++ (e.signal_id ∷ [])
signal_ids-snoc [] e = refl
signal_ids-snoc (j ∷ js) e = ap (λ x. j.signal_id ∷ x) (signal_ids-snoc js e)

insert-IsKeyed :
    (js : List JournalEntry) (e : JournalEntry)
    → any (λ j. j.journal_entry_id == e.journal_entry_id || j.signal_id == e.signal_id) js ≡ false
    → IsKeyed js
    → IsKeyed (js ++ (e ∷ []))
insert-IsKeyed js e h k =
    let (a, b) = fresh_keys js e h in
    record {
      entries = subst IsDistinct (sym (entry_ids-snoc js e)) (IsDistinct-snoc _ _ a k.entries);
      signals = subst IsDistinct (sym (signal_ids-snoc js e)) (IsDistinct-snoc _ _ b k.signals);
    }

replace-absent :
    (js : List JournalEntry) (e : JournalEntry)
    → any (λ y. y == e.journal_entry_id) (entry_ids js) ≡ false
    → replace (λ j. j.journal_entry_id == e.journal_entry_id) e js ≡ js
replace-absent [] e h = refl
replace-absent (j ∷ js) e h = ground (arith, replace-absent js e)

found_entry :
    (test : JournalEntry → Bool) (js : List JournalEntry) (j : JournalEntry) (id : ℕ)
    → find test js ≡ some j
    → any (λ y. y == id) (entry_ids js) ≡ false
    → (j.journal_entry_id == id) ≡ false
found_entry test [] j id f h = cc
found_entry test (x ∷ js) j id f h = ground (arith, found_entry test js j id)

head_found :
    (test : JournalEntry → Bool) (x : JournalEntry) (js : List JournalEntry) (j : JournalEntry)
    → test x ≡ true
    → find test (x ∷ js) ≡ some j
    → x ≡ j
head_found test x js j h f = ground arith

tail_found :
    (test : JournalEntry → Bool) (x : JournalEntry) (js : List JournalEntry) (j : JournalEntry)
    → test x ≡ false
    → find test (x ∷ js) ≡ some j
    → find test js ≡ some j
tail_found test x js j h f = ground arith

replace-head :
    (x : JournalEntry) (js : List JournalEntry) (e : JournalEntry)
    → e.journal_entry_id ≡ x.journal_entry_id
    → e.signal_id ≡ x.signal_id
    → any (λ y. y == x.journal_entry_id) (entry_ids js) ≡ false
    → (entry_ids (replace (λ x. x.journal_entry_id == e.journal_entry_id) e (x ∷ js))
        ≡ entry_ids (x ∷ js))
      × (signal_ids (replace (λ x. x.journal_entry_id == e.journal_entry_id) e (x ∷ js))
          ≡ signal_ids (x ∷ js))
replace-head x js e a b absent =
    let tail =
      replace-absent js e (subst (λ i. any (λ y. y == i) (entry_ids js) ≡ false) (sym a) absent) in
    (ground (arith, ap entry_ids tail), ground (arith, ap signal_ids tail))

-- An update of an entry that was found, which keeps its two keys.
replace-keys :
    (test : JournalEntry → Bool) (js : List JournalEntry) (j e : JournalEntry)
    → find test js ≡ some j
    → e.journal_entry_id ≡ j.journal_entry_id
    → e.signal_id ≡ j.signal_id
    → IsDistinct (entry_ids js)
    → (entry_ids (replace (λ x. x.journal_entry_id == e.journal_entry_id) e js) ≡ entry_ids js)
      × (signal_ids (replace (λ x. x.journal_entry_id == e.journal_entry_id) e js) ≡ signal_ids js)
replace-keys test [] j e f a b d = cc
replace-keys test (x ∷ js) j e f a b d = elim (Bool-cases (test x)) [
  | inl here ↦
      let same = head_found test x js j here f in
      replace-head x js e (a ∙ ap (λ y. y.journal_entry_id) (sym same))
        (b ∙ ap (λ y. y.signal_id) (sym same)) d.0
  | inr later ↦
      let (entries, signals) = replace-keys test js j e (tail_found test x js j later f) a b d.1 in
      let other = found_entry test js j x.journal_entry_id (tail_found test x js j later f) d.0 in
      (ground (arith, entries), ground (arith, signals))
]

module _ {F : Type 0} where
  abbrev pub IsKeyedStore : Store F → Type 0
  IsKeyedStore st = IsKeyed st.journal

  pub save_journal_entry-IsKeyed :
      (e : JournalEntry) (st st' : Store F)
      → save_journal_entry e st ≡ wrote st'
      → IsKeyedStore st
      → IsKeyedStore st'
  unfolding save_journal_entry
  save_journal_entry-IsKeyed e st st' w k =
      elim (Bool-cases (
        any (λ j. j.journal_entry_id == e.journal_entry_id || j.signal_id == e.signal_id)
          st.journal)) [
            | inl taken ↦ absurd (ground arith)
            | inr free ↦ subst IsKeyed (ground arith) (insert-IsKeyed st.journal e free k)
          ]

  pub update_journal_entry-IsKeyed :
      (id : ℕ) (j e : JournalEntry) (st : Store F)
      → find_journal_entry_by_signal_id id st ≡ some j
      → e.journal_entry_id ≡ j.journal_entry_id
      → e.signal_id ≡ j.signal_id
      → IsKeyedStore st
      → IsKeyedStore (update_journal_entry e st)
  unfolding update_journal_entry find_journal_entry_by_signal_id
  update_journal_entry-IsKeyed id j e st f a b k =
      let (entries, signals) =
        replace-keys (λ x. x.signal_id == id) st.journal j e f a b k.entries in
      record {
        entries = subst IsDistinct (sym entries) k.entries;
        signals = subst IsDistinct (sym signals) k.signals;
      }
