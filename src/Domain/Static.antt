-- ===== src/Domain/Static.antt =====
-- internal/domain/domain.go: the rows of a static schedule, and the writer that takes them
-- (ScheduleWriter of interfaces.go). Latitudes and longitudes are the bit patterns of float64.
use ridewatch.Base.{ℕ, ℤ, Text, Bool, List, Outcome}

pub record Route : Type 0 where
  pub route_id : Text
  pub short_name : Text
  pub long_name : Text
  pub route_type : ℤ
  pub color : Text
  pub text_color : Text
  pub sort_order : ℤ

pub record Stop : Type 0 where
  pub stop_id : Text
  pub name : Text
  pub lat : ℕ
  pub lon : ℕ
  pub parent_station : Text
  pub location_type : ℤ
  pub platform_code : Text

pub record Trip : Type 0 where
  pub trip_id : Text
  pub route_id : Text
  pub service_id : Text
  pub headsign : Text
  pub direction_id : ℤ
  pub shape_id : Text

pub record StopTime : Type 0 where
  pub trip_id : Text
  pub stop_sequence : ℤ
  pub stop_id : Text
  pub arrival_secs : ℤ
  pub departure_secs : ℤ

pub record CalendarEntry : Type 0 where
  pub service_id : Text
  -- From Monday to Sunday.
  pub weekdays : List Bool
  pub start_date : Text
  pub end_date : Text

pub record CalendarDate : Type 0 where
  pub service_id : Text
  pub date : Text
  pub exception_type : ℤ

-- A call of a method of ScheduleWriter.
pub data Call : Type 0 where
  meta : Text → Text → Call
  route : Route → Call
  stop : Stop → Call
  trip : Trip → Call
  stop_time : StopTime → Call
  calendar : CalendarEntry → Call
  calendar_date : CalendarDate → Call

-- A writer over a state: what a call returns, and the state it leaves, errors included.
abbrev pub Writer : Type 0 → Type 0
Writer S = Call → S → Outcome (Unit {0}) × S
