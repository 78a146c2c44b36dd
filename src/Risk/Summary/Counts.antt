-- ===== src/Risk/Summary/Counts.antt =====
-- risk/engine.py: how the numbers of a summary fit together.
use mathlib.Core.Path.{subst}
use trading_workstation.Prelude.{
  ℕ, suc, ◌+◌, ◌≤◌, ◌≡◌, refl, ap, sym, ◌∙◌, true, false, some, List, [], ◌∷◌, Double, length,
  length-append, All, arith, Bool-cases, inl, inr,
}
use trading_workstation.Risk.Contracts.{VetoReason, RiskConfig, SignalRecord}
use trading_workstation.Risk.Account.{Account}
use trading_workstation.Risk.Engine.{evaluate}
use trading_workstation.Risk.Engine.Reasons.{evaluate_approved_iff}
use trading_workstation.Risk.Summary.{
  all_reasons, count, tallies, with_approval, reasons_of, count_reduced, summarize_risk,
}

-- The sum of the counts of a dictionary.
abbrev pub tallied : List (VetoReason × ℕ) → ℕ
tallied [] = 0
tallied ((r, n) ∷ ts) = n + tallied ts

counts : List VetoReason → List VetoReason → ℕ
counts [] found = 0
counts (r ∷ rs) found = count r found + counts rs found

tallied-tallies : (rs found : List VetoReason) → tallied (tallies rs found) ≡ counts rs found
unfolding counts
tallied-tallies [] found = refl
tallied-tallies (r ∷ rs) found = ground (arith, tallied-tallies rs found)

counts-nil : counts all_reasons [] ≡ 0
unfolding counts
counts-nil = refl

counts-cons :
    (x : VetoReason) (found : List VetoReason)
    → counts all_reasons (x ∷ found) ≡ suc (counts all_reasons found)
unfolding counts
counts-cons x found = ground arith

counts-length : (found : List VetoReason) → counts all_reasons found ≡ length found
counts-length [] = counts-nil
counts-length (x ∷ found) = counts-cons x found ∙ ap suc (counts-length found)

length_positive : (xs : List VetoReason) → ¬ (xs ≡ []) → 1 ≤ length xs
length_positive [] h = absurd (h refl)
length_positive (x ∷ xs) h = omega arith

module _ {F : Type 0} ⦃d : Double F⦄ where
  -- The counts of the tally add up to the number of veto reasons of all rejected signals.
  pub summarize_risk-tallied :
      (records : List (SignalRecord F))
      → tallied (summarize_risk records).rejections_by_reason
        ≡ length (reasons_of (with_approval false records))
  unfolding summarize_risk
  summarize_risk-tallied records =
      tallied-tallies all_reasons (reasons_of (with_approval false records))
      ∙ counts-length (reasons_of (with_approval false records))

  -- The record holds what `evaluate` returned for its signal.
  abbrev pub IsEvaluated : SignalRecord F → Type 0
  IsEvaluated r = (c : RiskConfig F) × (a : Account F) × (evaluate c r.signal a ≡ some r.decision)

  with_approval-length :
      (records : List (SignalRecord F))
      → length (with_approval true records) + length (with_approval false records) ≡ length records
  with_approval-length [] = omega arith
  with_approval-length (r ∷ rs) = ground (arith, with_approval-length rs)

  count_reduced_le : (rs : List (SignalRecord F)) → count_reduced rs ≤ length rs
  count_reduced_le [] = omega arith
  count_reduced_le (r ∷ rs) = ground (arith, count_reduced_le rs)

  names_reason :
      (r : SignalRecord F)
      → IsEvaluated r
      → r.decision.approved ≡ false
      → 1 ≤ length r.decision.veto_reasons
  names_reason r (c, a, e) refused = length_positive r.decision.veto_reasons λ none_given.
      let approved = (evaluate_approved_iff c r.signal a r.decision e).1 none_given in cc

  rejected_le :
      (rs : List (SignalRecord F))
      → All IsEvaluated rs
      → length (with_approval false rs) ≤ length (reasons_of (with_approval false rs))
  rejected_le [] h = omega arith
  rejected_le (r ∷ rs) h = elim (Bool-cases r.decision.approved) [
    | inl passed ↦ rw passed (rejected_le rs h.1)
    | inr refused ↦ rw refused (
        omega (
          arith,
          rejected_le rs h.1,
          names_reason r h.0 refused,
          length-append r.decision.veto_reasons (reasons_of (with_approval false rs)),
        ))
  ]

  -- In a summary of decisions of `evaluate`, every signal is either approved or rejected, no more are
  -- reduced than are approved, and the tally counts at least one reason for each rejection.
  pub summarize_risk_adds_up :
      (records : List (SignalRecord F))
      → All IsEvaluated records
      → let z = summarize_risk records in
        (z.signals_approved + z.signals_rejected ≡ z.signals_generated)
        × (z.signals_risk_reduced ≤ z.signals_approved)
        × (z.signals_rejected ≤ tallied z.rejections_by_reason)
  unfolding summarize_risk
  summarize_risk_adds_up records h = (
    with_approval-length records,
    count_reduced_le (with_approval true records),
    subst (λ n. length (with_approval false records) ≤ n)
        (sym (unfold summarize_risk in summarize_risk-tallied records)) (rejected_le records h),
  )
