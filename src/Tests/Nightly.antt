-- ===== src/Tests/Nightly.antt =====
-- The theorems on the nightly work of cmd/ridewatch/main.go at concrete inputs.
use ridewatch.Base.{pos, ◌*◌, refl, none, List, [], ◌∷◌, err, not_found}
use ridewatch.Domain.Calendar.{second_ns}
use ridewatch.Cmd.Nightly.{Plan, ticks}
use ridewatch.Cmd.OnceADay.{OnceOn}
use ridewatch.Cmd.Nights.{
  Tick, rollup_hours, retention_hours, rollup_days, retention_days, ticks-OnceOn,
}
use ridewatch.Tests.Opened.{opened}

abbrev plan : Plan
plan = record {
  rollup_hour_utc = pos 7;
  rollup_window_weeks = pos 6;
  raw_retention_days = pos 30;
  vehicle_pos_retention_weeks = pos 8;
  stop_event_retention_weeks = pos 26;
}

-- Two ticks in the hour of the rollup, without an active version, and one in the hour after.
abbrev clock : List Tick
clock =
    (pos (25200 * second_ns), err not_found)
    ∷ (pos (25260 * second_ns), err not_found)
    ∷ (pos (28800 * second_ns), err not_found)
    ∷ []

ticks-OnceOn_example :
    OnceOn
      (rollup_hours plan clock)
      (rollup_days (ticks plan clock (record { rollup_day = none; retention_day = none })))
    × OnceOn
        (retention_hours plan clock)
        (retention_days (ticks plan clock (record { rollup_day = none; retention_day = none })))
unfolding opened
ticks-OnceOn_example =
    ticks-OnceOn plan clock ((refl, (refl, tt)), ((refl, tt), (tt, tt)))
      ((refl, (refl, tt)), ((refl, tt), (tt, tt)))
