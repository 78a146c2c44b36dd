-- ===== src/Live/GapMonitor/Reports.antt =====
-- live/gap_monitor.py: what the polls between two bars report.
use mathlib.Core.Path.{subst}
use trading_workstation.Prelude.{
  ℕ, ◌≡◌, refl, ap, sym, ◌∙◌, Bool, true, false, Option, none, some, List, [], ◌∷◌, pos, sub_ℕ,
  leb_ℤ, all, All, arith, Option-cases, ◌↔◌, Bool-cases, ◌⊎◌, inl, inr,
}
use trading_workstation.Live.GapMonitor.{
  GapStatus, BarGapMonitor, record_new_bar, report, check, gap_threshold,
}

abbrev told : Option GapStatus → List GapStatus → List GapStatus
told none later = later
told (some status) later = status ∷ later

-- the reports of the polls at these times, in order
unfoldable pub checks : List ℕ → BarGapMonitor → List GapStatus
checks [] m = []
checks (now ∷ times) m = told (check now m).0 (checks times (check now m).1)

-- The first report opens the gap, and the later ones repeat it.
abbrev pub IsOneGap : List GapStatus → Type 0
IsOneGap [] = Unit
IsOneGap (s ∷ later) = (s.is_new ≡ true) × All (λ r. r.is_new ≡ false) later

-- A poll of a gap that is already known.
check_active :
    (now last : ℕ) (m : BarGapMonitor)
    → m.last_new_bar_at ≡ some last
    → m.gap_active ≡ true
    → ((check now m).1.gap_active ≡ true)
      × ((check now m).1.last_new_bar_at ≡ some last)
      × ((s : GapStatus) → (check now m).0 ≡ some s → s.is_new ≡ false)
unfolding check report
check_active now last m started active = (ground arith, ground arith, ground arith)

-- A poll while no gap is known.
check_inactive :
    (now last : ℕ) (m : BarGapMonitor)
    → m.last_new_bar_at ≡ some last
    → m.gap_active ≡ false
    → ((check now m) ≡ (none, m))
      ⊎ ((s : GapStatus) × ((check now m).0 ≡ some s)
          × (s.is_new ≡ true)
          × ((check now m).1.gap_active ≡ true)
          × ((check now m).1.last_new_bar_at ≡ some last))
unfolding check report
check_inactive now last m started idle =
    elim (Bool-cases (leb_ℤ (sub_ℕ now last) (pos (gap_threshold m)))) [
      | inl within ↦ inl (rw (started, within) refl)
      | inr beyond ↦ inr (
        record { elapsed = sub_ℕ now last; threshold = gap_threshold m; is_new = true },
        rw (started, beyond, idle) refl,
        refl,
        rw (started, beyond, idle) refl,
        rw (started, beyond, idle) refl,
      )
    ]

checks-silent :
    (now : ℕ) (times : List ℕ) (m m' : BarGapMonitor)
    → check now m ≡ (none, m')
    → checks (now ∷ times) m ≡ checks times m'
unfolding checks
checks-silent now times m m' e = ap (λ r. told r.0 (checks times r.1)) e

checks-told :
    (now : ℕ) (times : List ℕ) (m : BarGapMonitor) (s : GapStatus)
    → (check now m).0 ≡ some s
    → checks (now ∷ times) m ≡ s ∷ checks times (check now m).1
unfolding checks
checks-told now times m s e = ap (λ o. told o (checks times (check now m).1)) e

checks_active :
    (times : List ℕ) (last : ℕ) (m : BarGapMonitor)
    → m.last_new_bar_at ≡ some last
    → m.gap_active ≡ true
    → All (λ r. r.is_new ≡ false) (checks times m)
unfolding checks
checks_active [] last m started active = tt
checks_active (now ∷ times) last m started active =
    let (still, same, repeated) = check_active now last m started active in
    let later = checks_active times last _ same still in
    elim (Option-cases (check now m).0) [
      | inl silent ↦
          subst (All (λ r. r.is_new ≡ false))
            (sym (checks-silent now times m _ (ap (λ o. (o, (check now m).1)) silent))) later
      | inr (s, e) ↦
          subst (All (λ r. r.is_new ≡ false)) (sym (checks-told now times m s e))
            (repeated s e, later)
    ]

checks_inactive :
    (times : List ℕ) (last : ℕ) (m : BarGapMonitor)
    → m.last_new_bar_at ≡ some last
    → m.gap_active ≡ false
    → IsOneGap (checks times m)
unfolding checks
checks_inactive [] last m started idle = tt
checks_inactive (now ∷ times) last m started idle = elim (check_inactive now last m started idle) [
  | inl silent ↦
      subst IsOneGap (sym (checks-silent now times m m silent))
        (checks_inactive times last m started idle)
  | inr (s, e, new, active, same) ↦
      subst IsOneGap (sym (checks-told now times m s e))
        (new, checks_active times last _ same active)
]

-- Between two bars a delivery gap is announced once: of the reports of any polls after a new bar,
-- the first and only the first has `is_new`.
pub checks-IsOneGap :
    (times : List ℕ) (now : ℕ) (m : BarGapMonitor) → IsOneGap (checks times (record_new_bar now m))
unfolding record_new_bar
checks-IsOneGap times now m = checks_inactive times now _ refl refl

unfoldable pub within : BarGapMonitor → ℕ → ℕ → Bool
within m last t = leb_ℤ (sub_ℕ t last) (pos (gap_threshold m))

pub check-within :
    (now last : ℕ) (m : BarGapMonitor)
    → m.last_new_bar_at ≡ some last
    → within m last now ≡ true
    → check now m ≡ (none, m)
unfolding check report within
check-within now last m started e = rw (started, e) refl

check_beyond :
    (now last : ℕ) (m : BarGapMonitor)
    → m.last_new_bar_at ≡ some last
    → m.gap_active ≡ false
    → within m last now ≡ false
    → (s : GapStatus) × ((check now m).0 ≡ some s)
unfolding check report within
check_beyond now last m started idle e = (
  record { elapsed = sub_ℕ now last; threshold = gap_threshold m; is_new = true },
  rw (started, e, idle) refl,
)

not_nil : (s : GapStatus) (later : List GapStatus) → ¬ (s ∷ later ≡ [])
not_nil s later h = cc

checks_silent_iff_inactive :
    (times : List ℕ) (last : ℕ) (m : BarGapMonitor)
    → m.last_new_bar_at ≡ some last
    → m.gap_active ≡ false
    → (checks times m ≡ []) ↔ (all (within m last) times ≡ true)
unfolding checks
checks_silent_iff_inactive [] last m started idle = (λ h. refl, λ h. refl)
checks_silent_iff_inactive (now ∷ times) last m started idle =
    let rest = checks_silent_iff_inactive times last m started idle in
    elim (Bool-cases (within m last now)) [
      | inl e ↦
          let step = checks-silent now times m m (check-within now last m started e) in
          (λ h. rw e (rest.0 (sym step ∙ h)), λ h. step ∙ rest.1 (ground arith))
      | inr e ↦
          let (s, report_e) = check_beyond now last m started idle e in
          (
            λ h. absurd (not_nil s _ (sym (checks-told now times m s report_e) ∙ h)),
            λ h. absurd (ground arith),
          )
    ]

-- The polls after a new bar report nothing exactly if none of them comes later than the threshold
-- after it.
pub checks_silent_iff :
    (times : List ℕ) (now : ℕ) (m : BarGapMonitor)
    → (checks times (record_new_bar now m) ≡ [])
      ↔ (all (λ t. leb_ℤ (sub_ℕ t now) (pos (gap_threshold m))) times ≡ true)
unfolding record_new_bar within
checks_silent_iff times now m = checks_silent_iff_inactive times now _ refl refl
