-- ===== src/Tests/LiveTests.antt =====
-- live/: runs of the approval flow, of the monitors and of the sessions, and the theorems there.
use trading_workstation.Prelude.{
  ℕ, ◌+◌, ◌<◌, ◌≤◌, ◌≡◌, ◌↔◌, refl, true, false, none, some, List, [], ◌∷◌, all, any, ◌==◌, leb_ℤ,
  sub_ℕ, pos, length, arith,
}
use trading_workstation.Signal.{DateTime, date}
use trading_workstation.Live.Approval.{
  SignalLifecycleState, SignalLifecycle, signal_generated, risk_approved, pending_human_approval,
  human_approved, executed, new_lifecycle, transition_to, is_terminal,
}
use trading_workstation.Live.Approval.Paths.{transitions, IsSound, lifecycle-IsSound}
use trading_workstation.Live.Approval.Ends.{lifecycle_ends, is_terminal_iff}
use trading_workstation.Live.Durations.{seconds}
use trading_workstation.Live.GapMonitor
use trading_workstation.Live.GapMonitor.{BarGapMonitor, new_monitor, record_new_bar, gap_threshold}
use trading_workstation.Live.GapMonitor.Reports.{
  checks, IsOneGap, checks-IsOneGap, checks_silent_iff,
}
use trading_workstation.Live.Freshness.{
  minutes, default_policy, check, threshold_for, FreshnessResult,
}
use trading_workstation.Live.Freshness.Gaps.{default_gap_multiplier, check_fresh-no_gap}
use trading_workstation.Live.Heartbeat.{
  RuntimeDir, written_at, Write, succeeds, fails_before, classify_previous_session,
  abnormal_termination, graceful_shutdown, write_graceful_shutdown_marker,
}
use trading_workstation.Live.Heartbeat.Sessions.{beats, classify_beats}
use trading_workstation.Live.Dhan.MarketSession.{
  open_session, localized, weekday, time_of_day, holidays_of, current_market_session,
  is_bar_within_expected_session,
}
use trading_workstation.Live.Dhan.MarketSession.Hours.{
  current_market_session_open_iff, is_bar_within_expected_session_iff,
}
use trading_workstation.Samples.{at}

abbrev approval : List (SignalLifecycleState × DateTime)
approval =
    (risk_approved, at 10)
    ∷ (pending_human_approval, at 11)
    ∷ (human_approved, at 20)
    ∷ (executed, at 21)
    ∷ []

abbrev bought : SignalLifecycle
bought = record {
  signal_id = 7;
  require_human_approval = true;
  state = executed;
  history =
      (executed, at 21)
      ∷ (human_approved, at 20)
      ∷ (pending_human_approval, at 11)
      ∷ (risk_approved, at 10)
      ∷ (signal_generated, at 9)
      ∷ [];
}

approval_runs : transitions approval (new_lifecycle 7 true (at 9)) ≡ some bought
unfolding transitions transition_to
approval_runs = refl

no_shortcut :
    transitions ((risk_approved, at 10) ∷ (executed, at 11) ∷ []) (new_lifecycle 7 true (at 9))
    ≡ none
unfolding transitions transition_to
no_shortcut = refl

lifecycle-IsSound_example : IsSound bought
lifecycle-IsSound_example = lifecycle-IsSound 7 true (at 9) approval bought approval_runs

lifecycle_ends_example : length approval ≤ 5
lifecycle_ends_example = lifecycle_ends 7 true (at 9) approval bought approval_runs

is_terminal_iff_example :
    (is_terminal bought ≡ true)
    ↔ ((state : SignalLifecycleState) (now : DateTime) → transition_to state now bought ≡ none)
is_terminal_iff_example = is_terminal_iff bought

abbrev monitor : BarGapMonitor
monitor = new_monitor (seconds 60) default_gap_multiplier (seconds 60)

abbrev polls : List ℕ
polls = seconds 100 ∷ seconds 300 ∷ seconds 310 ∷ seconds 365 ∷ []

-- The gap is reported at 300 seconds and once more at 365.
polls_report : length (checks polls (record_new_bar (seconds 60) monitor)) ≡ 2
unfolding checks record_new_bar GapMonitor.check GapMonitor.report
polls_report = refl

checks-IsOneGap_example : IsOneGap (checks polls (record_new_bar (seconds 60) monitor))
checks-IsOneGap_example = checks-IsOneGap polls (seconds 60) monitor

checks_silent_iff_example :
    (checks polls (record_new_bar (seconds 60) monitor) ≡ [])
    ↔ (all (λ t. leb_ℤ (sub_ℕ t (seconds 60)) (pos (gap_threshold monitor))) polls ≡ true)
checks_silent_iff_example = checks_silent_iff polls (seconds 60) monitor

abbrev fresh_result : FreshnessResult
fresh_result = record {
  is_fresh = true;
  age = pos (seconds 100);
  threshold = seconds 120;
  bar_timestamp = seconds 60;
  now = seconds 160;
}

is_fresh : check default_policy (seconds 60) 1 minutes (seconds 160) ≡ some fresh_result
unfolding check threshold_for
is_fresh = refl

abbrev started : BarGapMonitor
started = record monitor { last_new_bar_at = some (seconds 60) }

check_fresh-no_gap_example : GapMonitor.check (seconds 160) started ≡ (none, started)
check_fresh-no_gap_example =
    check_fresh-no_gap 1 minutes (seconds 60) (seconds 60) (seconds 160) fresh_result (omega arith)
      refl is_fresh refl started refl refl refl

-- the trail of an earlier session that was shut down
abbrev earlier : RuntimeDir
earlier = record { heartbeat = written_at 50; shutdown = written_at 55 }

abbrev later_beats : List (Write × ℕ)
later_beats = (succeeds, 130) ∷ (fails_before, 160) ∷ []

classify_beats_example :
    let left = beats ((succeeds, 100) ∷ later_beats) earlier in
    ((classify_previous_session left).classification ≡ abnormal_termination)
    × ((classify_previous_session (write_graceful_shutdown_marker succeeds 170 left)).classification
        ≡ graceful_shutdown)
classify_beats_example =
    classify_beats 100 170 later_beats earlier (omega arith) (omega arith)
      ((omega arith, omega arith), ((omega arith, omega arith), tt))

-- the clock in India against the one in London, in the zone numbered 0
abbrev from_london : ℕ → ℕ → ℕ
from_london zone wall = wall + 19_800

-- 1970-01-01, a Thursday, at 10:00
current_market_session_open_iff_example :
    let here = localized 91 from_london (at 36_000) in
    ((current_market_session 91 from_london (at 36_000) (some (5 ∷ []))).state ≡ open_session) ↔ (
      (any (λ day. date here == day) (holidays_of (some (5 ∷ []))) ≡ false)
      × (weekday here < 5)
      × (33_300 ≤ time_of_day here)
      × (time_of_day here < 55_800))
current_market_session_open_iff_example =
    current_market_session_open_iff 91 from_london (at 36_000) (some (5 ∷ []))

is_bar_within_expected_session_iff_example :
    let here = localized 91 from_london (at 36_000) in
    (is_bar_within_expected_session 91 from_london (at 36_000) ≡ true)
    ↔ ((weekday here < 5) × (32_400 ≤ time_of_day here) × (time_of_day here < 55_800))
is_bar_within_expected_session_iff_example =
    is_bar_within_expected_session_iff 91 from_london (at 36_000)
