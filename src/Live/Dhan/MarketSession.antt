-- ===== src/Live/Dhan/MarketSession.antt =====
-- live/dhan/market_session.py: the sessions of the Indian exchanges. Times are seconds since the
-- start of 1970, a Thursday, on the clock of the zone.
pub mod Hours
use trading_workstation.Prelude.{
  ℕ, ◌+◌, ◌/◌, ◌%◌, Bool, true, false, not, ◌&&◌, ◌||◌, Option, none, some, List, [], any, ltb, leb,
  ◌==◌, length, is_some, if◌then◌else◌,
}
use trading_workstation.Signal.{DateTime, date}

pub data MarketSessionState : Type 0 where
  pre_open open_session closed_session : MarketSessionState

pub record MarketSession : Type 0 where
  pub state : MarketSessionState
  pub as_of_ist : DateTime
  pub is_weekday : Bool
  pub is_confirmed_holiday : Bool
  pub holiday_calendar_consulted : Bool
  pub holiday_calendar_size : ℕ

-- `datetime.weekday()`: Monday is 0
abbrev pub weekday : DateTime → ℕ
weekday t = (date t + 3) % 7

-- `datetime.time()`, in seconds
abbrev pub time_of_day : DateTime → ℕ
time_of_day t = t.wall % 86400

abbrev pub pre_open_start : ℕ
pre_open_start = 32400

abbrev pub open_start : ℕ
open_start = 33300

abbrev pub open_end : ℕ
open_end = 55800

abbrev pub holidays_of : Option (List ℕ) → List ℕ
holidays_of none = []
holidays_of (some days) = days

abbrev pub state_at : Bool → Bool → ℕ → MarketSessionState
state_at is_confirmed_holiday is_weekday local_time =
    if is_confirmed_holiday || not is_weekday
    then closed_session
    else if leb pre_open_start local_time && ltb local_time open_start
    then pre_open
    else if leb open_start local_time && ltb local_time open_end
    then open_session
    else closed_session

abbrev pub is_closed : MarketSessionState → Bool
is_closed closed_session = true
is_closed _ = false

-- `ist` is the number of the zone Asia/Kolkata, and `in_ist` is `astimezone` from another zone.
module _ (ist : ℕ) (in_ist : ℕ → ℕ → ℕ) where
  abbrev pub localized : DateTime → DateTime
  localized now = elim now.tzinfo [
    | none ↦ record { wall = now.wall; tzinfo = some ist }
    | some zone ↦ record { wall = in_ist zone now.wall; tzinfo = some ist }
  ]

  -- `now` is the argument, or what the clock reads in its place; holidays are dates without repeats.
  unfoldable pub current_market_session : DateTime → Option (List ℕ) → MarketSession
  current_market_session now holidays =
      let here = localized now in
      let is_weekday = ltb (weekday here) 5 in
      let is_confirmed_holiday = any (λ day. date here == day) (holidays_of holidays) in
      record {
        state = state_at is_confirmed_holiday is_weekday (time_of_day here);
        as_of_ist = here;
        is_weekday = is_weekday;
        is_confirmed_holiday = is_confirmed_holiday;
        holiday_calendar_consulted = is_some holidays;
        holiday_calendar_size = length (holidays_of holidays);
      }

  unfoldable pub is_bar_within_expected_session : DateTime → Bool
  is_bar_within_expected_session bar_timestamp =
      not (is_closed (current_market_session bar_timestamp none).state)
