-- ===== src/Live/Dhan/MarketSession/Hours.antt =====
-- live/dhan/market_session.py: when the session is open.
use trading_workstation.Prelude.{
  ℕ, ◌≤◌, ◌<◌, ◌≡◌, ◌↔◌, Bool, true, false, Option, List, not, any, ◌==◌, ltb, ltb→lt, lt→ltb,
  arith,
}
use trading_workstation.Signal.{DateTime, date}
use trading_workstation.Live.Dhan.MarketSession.{
  open_session, localized, weekday, time_of_day, holidays_of, state_at, is_closed,
  current_market_session, is_bar_within_expected_session,
}

state_at_open :
    (holiday weekday : Bool) (t : ℕ)
    → (state_at holiday weekday t ≡ open_session)
      ↔ ((holiday ≡ false) × (weekday ≡ true) × (33300 ≤ t) × (t < 55800))
state_at_open holiday weekday t =
    (λ h. (ground arith, ground arith, ground arith, ground arith), λ (a, b, c, d). ground arith)

state_at_expected :
    (weekday : Bool) (t : ℕ)
    → (not (is_closed (state_at false weekday t)) ≡ true)
      ↔ ((weekday ≡ true) × (32400 ≤ t) × (t < 55800))
state_at_expected weekday t =
    (λ h. (ground arith, ground arith, ground arith), λ (a, b, c). ground arith)

module _ (ist : ℕ) (in_ist : ℕ → ℕ → ℕ) where
  -- The market is OPEN exactly on the days that are not among the given holidays, from Monday to
  -- Friday, from 9:15:00 up to and without 15:30:00, on the clock in India.
  pub current_market_session_open_iff :
      (now : DateTime) (holidays : Option (List ℕ))
      → let here = localized ist in_ist now in
        ((current_market_session ist in_ist now holidays).state ≡ open_session) ↔ (
          (any (λ day. date here == day) (holidays_of holidays) ≡ false)
          × (weekday here < 5)
          × (33300 ≤ time_of_day here)
          × (time_of_day here < 55800))
  unfolding current_market_session
  current_market_session_open_iff now holidays =
      let here = localized ist in_ist now in
      let split =
        state_at_open (any (λ day. date here == day) (holidays_of holidays)) (ltb (weekday here) 5)
          (time_of_day here) in
      (
        λ h. let (work, week, from, to) = split.0 h in (work, ltb→lt _ _ week, from, to),
        λ (work, week, from, to). split.1 (work, lt→ltb _ _ week, from, to),
      )

  -- A bar is expected exactly if its time is on a day from Monday to Friday, whatever the holidays,
  -- from 9:00:00 up to and without 15:30:00, on the clock in India.
  pub is_bar_within_expected_session_iff :
      (bar : DateTime)
      → let here = localized ist in_ist bar in
        (is_bar_within_expected_session ist in_ist bar ≡ true)
        ↔ ((weekday here < 5) × (32400 ≤ time_of_day here) × (time_of_day here < 55800))
  unfolding current_market_session is_bar_within_expected_session
  is_bar_within_expected_session_iff bar =
      let here = localized ist in_ist bar in
      let split = state_at_expected (ltb (weekday here) 5) (time_of_day here) in
      (
        λ h. let (week, from, to) = split.0 h in (ltb→lt _ _ week, from, to),
        λ (week, from, to). split.1 (lt→ltb _ _ week, from, to),
      )
