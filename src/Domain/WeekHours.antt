-- ===== src/Domain/WeekHours.antt =====
-- The hours of the week that HourOfWeek of internal/domain/gtfstime.go counts.
use ridewatch.Base.{◌+◌, ◌*◌, ◌<◌, ◌/◌, ◌%◌, ℤ, pos, negsuc, floor_ℤ, mod_ℤ, ◌≡◌, arith}
use ridewatch.Domain.Types.{Time}
use ridewatch.Domain.Calendar.{Location, wall_clock, wall_day, wall_hour, weekday}
use ridewatch.Domain.GtfsTime.{hour_of_week}

hours-mod :
    (w : ℤ)
    → (weekday (floor_ℤ w 86400) + 6) % 7 * 24 + mod_ℤ w 86400 / 3600 ≡ mod_ℤ (floor_ℤ w 3600) 168
unfolding weekday floor_ℤ mod_ℤ
hours-mod (pos n) = omega arith
hours-mod (negsuc n) = omega arith

mod_ℤ-lt_168 : (a : ℤ) → mod_ℤ a 168 < 168
unfolding mod_ℤ
mod_ℤ-lt_168 (pos n) = omega arith
mod_ℤ-lt_168 (negsuc n) = omega arith

-- HourOfWeek is the number of whole hours on the wall clock of the location since the zero time,
-- which is a Monday at midnight, modulo the 168 hours of a week; so it is below 168.
pub hour_of_week-mod :
    (t : Time) (loc : Location)
    → (hour_of_week t loc ≡ mod_ℤ (floor_ℤ (wall_clock t loc) 3600) 168)
      × (hour_of_week t loc < 168)
unfolding hour_of_week wall_day wall_hour
hour_of_week-mod t loc = (
  hours-mod (wall_clock t loc),
  omega (arith, hours-mod (wall_clock t loc), mod_ℤ-lt_168 (floor_ℤ (wall_clock t loc) 3600)),
)
