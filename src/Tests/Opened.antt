-- ===== src/Tests/Opened.antt =====
-- `opened` on an `unfolding` line opens what a run of the program computes with.
use ridewatch.Base.{
  ℕ, ◌+ℤ◌, ◌-ℤ◌, ◌*ℤ◌, quot_ℤ, floor_ℤ, mod_ℤ, wrap64, saturate64, text_eq, text_ltb, decimal, pad,
}
use ridewatch.Base.Sorting.{sort_by}
use ridewatch.GoMap.{get, put, delete, nat_beq}
use ridewatch.Domain.Types.{key, key_eq, best_secs}
use ridewatch.Domain.Scan.{scan_int, scan_literal}
use ridewatch.Domain.Calendar.{
  day_number, civil_day, time_date, wall_clock, wall_day, wall_hour, wall_minute, weekday,
  format_day,
}
use ridewatch.Domain.GtfsTime.{
  parse_service_date, noon_minus_12, seconds, scheduled_time, parse_gtfs_time, format_gtfs_time,
  civil_date, add_days, hour_of_week, day_class,
}
use ridewatch.Reconcile.Cache.{trip_schedule, set_version}
use ridewatch.Reconcile.ServiceDate.{resolve_service_date}
use ridewatch.Reconcile.Trip.{
  reconcile_found, round, prediction_from_update, event_at, scheduled_or_zero,
}
use ridewatch.Reconcile.Engine.{new_engine, location, reconcile_trips}
use ridewatch.Reconcile.Process.{process}
use ridewatch.Store.Rows.{upsert_stop_events, finalize_due}

unfoldable pub opened : ℕ
unfolding ◌+ℤ◌ ◌-ℤ◌ ◌*ℤ◌ quot_ℤ floor_ℤ mod_ℤ wrap64 saturate64 text_eq text_ltb decimal pad sort_by
    get put delete nat_beq key key_eq best_secs scan_int scan_literal day_number civil_day time_date
    wall_clock wall_day wall_hour wall_minute weekday format_day parse_service_date noon_minus_12
    seconds scheduled_time parse_gtfs_time format_gtfs_time civil_date add_days hour_of_week
    day_class trip_schedule set_version resolve_service_date reconcile_found round
    prediction_from_update event_at scheduled_or_zero new_engine location reconcile_trips process
    upsert_stop_events finalize_due
opened = 0
