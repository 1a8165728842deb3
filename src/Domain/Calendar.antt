-- ===== src/Domain/Calendar.antt =====
-- What the program uses of package time: the proleptic Gregorian calendar, time.Date in a
-- Location, weekdays and the date layouts. The zone rules of a Location come from the system's
-- zone files; they are a parameter, the offset from UTC in force at each second.
use ridewatch.Base.{
  ℕ, ◌+◌, ◌-◌, ◌*◌, ◌/◌, ◌%◌, ℤ, pos, pos_part, abs_ℤ, ltb_ℤ, ◌+ℤ◌, ◌-ℤ◌, ◌*ℤ◌, floor_ℤ, mod_ℤ,
  Text, pad, ◌++◌, ◌∷◌, ltb, if◌then◌else◌,
}
use ridewatch.Domain.Types.{Time}

pub record Location : Type 0 where
  -- Seconds east of UTC, at a second counted from the zero time.
  pub offset : ℤ → ℤ

abbrev pub utc : Location
utc = record { offset = λ t. pos 0 }

pub record CivilDay : Type 0 where
  pub year : ℤ
  pub month : ℕ
  pub day : ℕ

abbrev pub second_ns : ℕ
second_ns = 1_000_000_000

-- Days from 1 March of a year of the 400-year cycle to the first day of a month.
abbrev month_start : ℕ → ℕ
month_start m = (153 * ((m + 9) % 12) + 2) / 5

-- Days from the zero time's date, 1 January of year 1, to a day of a month; the day may lie
-- outside the month, as time.Date allows.
unfoldable pub day_number : ℤ → ℕ → ℤ → ℤ
day_number y m d =
    let y' = (if ltb m 3 then y -ℤ pos 1 else y) in
    let yoe = mod_ℤ y' 400 in
    floor_ℤ y' 400 *ℤ pos 146097
    +ℤ pos (yoe * 365 + yoe / 4 - yoe / 100 + month_start m)
    +ℤ d
    -ℤ pos 307

-- The year of the cycle that a day of the cycle lies in, years counted from 1 March.
abbrev year_of_cycle : ℕ → ℕ
year_of_cycle doe = (doe - doe / 1460 + doe / 36524 - doe / 146096) / 365

unfoldable pub civil_day : ℤ → CivilDay
civil_day n =
    let z = n +ℤ pos 306 in
    let doe = mod_ℤ z 146097 in
    let yoe = year_of_cycle doe in
    let doy = doe - (365 * yoe + yoe / 4 - yoe / 100) in
    let mp = (5 * doy + 2) / 153 in
    let m = (if ltb mp 10 then mp + 3 else mp - 9) in
    record {
      year = floor_ℤ z 146097 *ℤ pos 400 +ℤ pos (if ltb m 3 then yoe + 1 else yoe);
      month = m;
      day = doy + 1 - (153 * mp + 2) / 5;
    }

-- time.Date with a whole hour: the offset is looked up at the wall clock read as UTC, and again
-- at the instant which that offset gives.
unfoldable pub time_date : ℤ → ℕ → ℤ → ℕ → Location → Time
unfolding day_number
time_date y m d hour loc =
    let wall = day_number y m d *ℤ pos 86400 +ℤ pos (hour * 3600) in
    (wall -ℤ loc.offset (wall -ℤ loc.offset wall)) *ℤ pos second_ns

-- The seconds on the wall clock of a location, counted like those of an instant.
unfoldable pub wall_clock : Time → Location → ℤ
wall_clock t loc = let s = floor_ℤ t second_ns in s +ℤ loc.offset s

unfoldable pub wall_day : Time → Location → ℤ
unfolding wall_clock
wall_day t loc = floor_ℤ (wall_clock t loc) 86400

-- The hour on the wall clock.
unfoldable pub wall_hour : Time → Location → ℕ
unfolding wall_clock
wall_hour t loc = mod_ℤ (wall_clock t loc) 86400 / 3600

unfoldable pub wall_minute : Time → Location → ℕ
unfolding wall_clock
wall_minute t loc = mod_ℤ (wall_clock t loc) 3600 / 60

-- time.Weekday of a day: Sunday is 0. Day 0 is a Monday.
unfoldable pub weekday : ℤ → ℕ
weekday n = (mod_ℤ n 7 + 1) % 7

-- The layout "20060102".
unfoldable pub format_day : CivilDay → Text
format_day c =
    (if ltb_ℤ c.year (pos 0) then b'-' ∷ pad 4 (abs_ℤ c.year) else pad 4 (pos_part c.year))
    ++ pad 2 c.month
    ++ pad 2 c.day
