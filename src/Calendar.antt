-- ===== src/Calendar.antt =====
-- trading_calendar.py: the session window of the exchange. A date is a number of days since the epoch,
-- which was a Thursday; `wall` gives the time that a clock in New York shows, as an instant of its own.
use squeeze_hunter.Prelude.{
  ℕ, ◌+◌, ◌*◌, ◌/◌, ◌%◌, Bool, false, not, ◌&&◌, List, if◌then◌else◌, ltb, leb, contains,
}
use squeeze_hunter.Broker.{Time}
use squeeze_hunter.Data.{Date}
use squeeze_hunter.Risk.Killswitch.{day}
use squeeze_hunter.Execution.Entries.{minutes, session_open}

-- `date.weekday()`, with Monday for 0.
abbrev pub weekday : Date → ℕ
weekday d = (d + 3) % 7

abbrev pub session_close : Time
session_close = minutes 960

-- The zone of New York: the time on the wall at an instant, and the instant of a time on the wall.
pub record Zone : Type 0 where
  pub wall : Time → Time
  pub utc_of : Time → Time

-- `holidays` are the weekdays on which the exchange is closed.
unfoldable pub is_trading_day : List Date → Date → Bool
is_trading_day holidays d = ltb (weekday d) 5 && not (contains d holidays)

unfoldable pub is_regular_session : Zone → Time → Bool
is_regular_session zone now =
    let et = zone.wall now in
    if leb 5 (weekday (et / day))
    then false
    else leb session_open (et % day) && ltb (et % day) session_close

unfoldable pub session_open_utc : Zone → Time → Time
session_open_utc zone now = zone.utc_of (zone.wall now / day * day + session_open)
