-- ===== src/Tests/Dates.antt =====
-- Service dates and GTFS times at fixed inputs.
use ridewatch.Base.{floor_ℤ, mod_ℤ, ◌<◌, pos, negsuc, codes, ◌≡◌, refl, ok, err, failed}
use ridewatch.Domain.Types.{Time}
use ridewatch.Domain.Calendar.{utc, wall_clock}
use ridewatch.Domain.WeekHours.{hour_of_week-mod}
use ridewatch.Tests.Opened.{opened}
use ridewatch.Domain.GtfsTime.{
  parse_gtfs_time, format_gtfs_time, add_days, day_class, scheduled_time, hour_of_week,
}

leap_day : add_days (codes "20240301") (negsuc 0) ≡ ok (codes "20240229")
unfolding opened
leap_day = refl

new_year : add_days (codes "20231231") (pos 1) ≡ ok (codes "20240101")
unfolding opened
new_year = refl

thursday : day_class (codes "20261126") ≡ ok (codes "weekday")
unfolding opened
thursday = refl

after_midnight : parse_gtfs_time (codes "25:30:07") ≡ ok (pos 91807)
unfolding opened
after_midnight = refl

no_such_minute : parse_gtfs_time (codes "08:60:00") ≡ err failed
unfolding opened
no_such_minute = refl

-- Sscanf leaves the rest of its input unread.
trailing_text : parse_gtfs_time (codes "08:12:00 late") ≡ ok (pos 29520)
unfolding opened
trailing_text = refl

printed : format_gtfs_time 29520 ≡ codes "08:12:00"
unfolding opened
printed = refl

hour_after_epoch : scheduled_time (codes "19700101") (pos 3600) utc ≡ ok (pos 62135600400000000000)
unfolding opened
hour_after_epoch = refl

-- 1970-01-01 at 01:00 was a Thursday.
abbrev thursday_at_one : Time
thursday_at_one = pos 62135600400000000000

hour_of_thursday : hour_of_week thursday_at_one utc ≡ 73
unfolding opened
hour_of_thursday = refl

hour_of_week-mod_example :
    (hour_of_week thursday_at_one utc ≡ mod_ℤ (floor_ℤ (wall_clock thursday_at_one utc) 3600) 168)
    × (hour_of_week thursday_at_one utc < 168)
hour_of_week-mod_example = hour_of_week-mod thursday_at_one utc
