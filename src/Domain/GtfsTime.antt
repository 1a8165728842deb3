-- ===== src/Domain/GtfsTime.antt =====
-- internal/domain/gtfstime.go: the GTFS rules for service dates and times.
use ridewatch.Base.{
  ℕ, ◌+◌, ◌*◌, ◌/◌, ◌%◌, ℤ, pos, negsuc, pos_part, ltb_ℤ, ◌+ℤ◌, ◌-ℤ◌, ◌*ℤ◌, wrap64, Text, codes,
  pad, ◌||◌, ◌++◌, [], ◌∷◌, ltb, ◌==◌, if◌then◌else◌, Outcome, ok, err, failed, ◌>>=◌, is_empty,
}
use ridewatch.Domain.Types.{Time}
use ridewatch.Domain.Scan.{scan_int, scan_literal, huge_width}
use ridewatch.Domain.Calendar.{
  Location, utc, CivilDay, second_ns, civil_day, time_date, wall_day, wall_hour, weekday,
  format_day,
}

-- The length of a string in bytes.
byte_length : Text → ℕ
byte_length [] = 0
byte_length (c ∷ s) =
    (if ltb c 0x80 then 1 else if ltb c 0x800 then 2 else if ltb c 0x10000 then 3 else 4)
    + byte_length s

check_date : ℤ → ℤ → ℤ → Outcome CivilDay
check_date y m d =
    if ltb_ℤ m (pos 1) || ltb_ℤ (pos 12) m || ltb_ℤ d (pos 1) || ltb_ℤ (pos 31) d
    then err failed
    else ok (record { year = y; month = pos_part m; day = pos_part d })

unfoldable pub parse_service_date : Text → Outcome CivilDay
unfolding byte_length check_date
parse_service_date d =
    if byte_length d == 8
    then (do
      (y, s) ← scan_int 4 d
      (m, s') ← scan_int 2 s
      (dd, _) ← scan_int 2 s'
      check_date y m dd)
    else err failed

unfoldable pub noon_minus_12 : Text → Location → Outcome Time
noon_minus_12 service_date loc = do
  c ← parse_service_date service_date
  ok (time_date c.year c.month (pos c.day) 12 loc -ℤ pos (43200 * second_ns))

-- time.Duration(n) * time.Second
unfoldable pub seconds : ℤ → ℤ
seconds n = wrap64 (n *ℤ pos second_ns)

unfoldable pub scheduled_time : Text → ℤ → Location → Outcome Time
scheduled_time service_date secs loc = do
  base ← noon_minus_12 service_date loc
  ok (base +ℤ seconds secs)

check_time : ℤ → ℤ → ℤ → Outcome ℤ
check_time h m sec =
    if ltb_ℤ h (pos 0)
      || ltb_ℤ m (pos 0)
      || ltb_ℤ (pos 59) m
      || ltb_ℤ sec (pos 0)
      || ltb_ℤ (pos 59) sec
    then err failed
    else ok (wrap64 (h *ℤ pos 3600 +ℤ m *ℤ pos 60 +ℤ sec))

unfoldable pub parse_gtfs_time : Text → Outcome ℤ
unfolding check_time
parse_gtfs_time s = if is_empty s then ok (negsuc 0) else do
  (h, s1) ← scan_int huge_width s
  s2 ← scan_literal b':' s1
  (m, s3) ← scan_int 2 s2
  s4 ← scan_literal b':' s3
  (sec, _) ← scan_int 2 s4
  check_time h m sec

-- For the seconds that are not negative, as the callers pass them.
unfoldable pub format_gtfs_time : ℕ → Text
format_gtfs_time secs =
    pad 2 (secs / 3600) ++ b':' ∷ pad 2 (secs % 3600 / 60) ++ b':' ∷ pad 2 (secs % 60)

unfoldable pub civil_date : Time → Location → Text
civil_date t loc = format_day (civil_day (wall_day t loc))

unfoldable pub add_days : Text → ℤ → Outcome Text
add_days service_date n = do
  c ← parse_service_date service_date
  ok (civil_date (time_date c.year c.month (pos c.day +ℤ n) 12 utc) utc)

unfoldable pub hour_of_week : Time → Location → ℕ
hour_of_week t loc = (weekday (wall_day t loc) + 6) % 7 * 24 + wall_hour t loc

unfoldable pub day_class : Text → Outcome Text
day_class service_date = do
  c ← parse_service_date service_date
  let w = weekday (wall_day (time_date c.year c.month (pos c.day) 12 utc) utc)
  ok (if w == 6 then codes "saturday" else if w == 0 then codes "sunday" else codes "weekday")
