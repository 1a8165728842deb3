-- ===== src/Reconcile/Trip.antt =====
-- internal/reconcile/process.go: one trip update against its schedule.
use ridewatch.Base.{
  ℕ, suc, ℤ, pos, ◌+ℤ◌, ltb_ℤ, quot_ℤ, Text, text_eq, codes, is_empty, true, false, Option, none,
  some, List, [], ◌∷◌, map, ltb, if◌then◌else◌, length, drop, Outcome, ok, err,
}
use ridewatch.GoMap.{GoMap, nat_equality, get, put}
use ridewatch.Domain.Types.{
  Time, zero_time, is_zero, StopTimeUpdate, TripUpdate, Snapshot, StopEvent, ScheduledStop,
  TripSchedule, best_secs,
}
use ridewatch.Domain.Calendar.{Location, second_ns}
use ridewatch.Domain.GtfsTime.{scheduled_time, seconds}
use ridewatch.Reconcile.ServiceDate.{
  resolve_stop_index, first_positive, unix_time, sub_time, resolve_service_date,
}

abbrev or_zero : Outcome Time → Time
or_zero (ok t) = t
or_zero (err e) = zero_time

unfoldable pub scheduled_or_zero : Text → ℤ → Location → Time
scheduled_or_zero service_date secs loc =
    if ltb_ℤ secs (pos 0) then zero_time else or_zero (scheduled_time service_date secs loc)

-- int(pred.Sub(sched) / time.Second)
unfoldable pub delay_between : Time → Time → ℤ
unfolding sub_time
delay_between pred sched = quot_ℤ (sub_time pred sched) second_ns

-- The delay that an update states, else the trip's.
unfoldable pub stated_delay : StopTimeUpdate → TripUpdate → Option ℤ
stated_delay stu tu =
    if stu.arrival_delay_set
    then some stu.arrival_delay
    else if stu.departure_delay_set
    then some stu.departure_delay
    else if tu.delay_set
    then some tu.delay_secs
    else none

-- A delay applied to a scheduled time.
abbrev delayed : Time → Option ℤ → Option (Time × Option ℤ)
delayed sched none = none
delayed sched (some d) = if is_zero sched then none else some (sched +ℤ seconds d, some d)

-- predictionFromUpdate, given the scheduled time of the stop. `none` is `ok = false`.
unfoldable pub prediction_from_update :
    StopTimeUpdate → TripUpdate → Time → Option (Time × Option ℤ)
unfolding first_positive stated_delay
prediction_from_update stu tu sched =
    let t = first_positive stu.arrival_time stu.departure_time in
    if ltb_ℤ (pos 0) t
    then some
        (unix_time t, if is_zero sched then none else some (delay_between (unix_time t) sched))
    else delayed sched (stated_delay stu tu)

-- The event of the trip before its stop is filled in.
unfoldable pub base_event : TripUpdate → Snapshot → ℤ → TripSchedule → Text → StopEvent
base_event tu snap version_id ts service_date = record {
  service_date = service_date;
  trip_id = tu.trip_id;
  start_time = tu.start_time;
  stop_sequence = pos 0;
  stop_id = [];
  route_id = if is_empty ts.route_id then tu.route_id else ts.route_id;
  direction_id = if ltb_ℤ ts.direction_id (pos 0) then tu.direction_id else ts.direction_id;
  schedule_version_id = version_id;
  vehicle_id = tu.vehicle_id;
  headsign = ts.headsign;
  scheduled_arrival = zero_time;
  predicted_arrival = zero_time;
  actual_arrival = zero_time;
  delay_secs = none;
  final = false;
  skipped = false;
  feed_timestamp = if ltb 0 tu.timestamp then tu.timestamp else snap.feed_timestamp;
  observed_at = snap.polled_at;
}

-- The event at one stop, with no prediction yet.
unfoldable pub event_at : StopEvent → Location → ScheduledStop → StopEvent
event_at base loc stop = record base {
  stop_sequence = stop.stop_sequence;
  stop_id = stop.stop_id;
  scheduled_arrival = scheduled_or_zero base.service_date (best_secs stop) loc;
}

abbrev pub mark_skipped : StopEvent → StopEvent
mark_skipped ev = record ev { skipped = true }

-- Every stop of a canceled trip.
unfoldable pub canceled_events : StopEvent → Location → List ScheduledStop → List StopEvent
canceled_events base loc = map (λ stop. mark_skipped (event_at base loc stop))

abbrev pub Matches : Type 0
Matches = GoMap ℕ StopTimeUpdate

unfoldable pub add_match : Option ℕ → StopTimeUpdate → Matches → Matches
add_match none stu m = m
add_match (some idx) stu m = put idx stu m

-- The updates by the stop that they refer to, a later one in place of an earlier.
unfoldable pub match_updates : List ScheduledStop → List StopTimeUpdate → Matches → Matches
unfolding add_match
match_updates stops [] m = m
match_updates stops (stu ∷ stus) m =
    match_updates stops stus (add_match (resolve_stop_index stops stu) stu m)

-- The least index that is matched.
unfoldable pub start_index : ℕ → Matches → ℕ
start_index n [] = n
start_index n ((idx, _) ∷ m) = start_index (if ltb idx n then idx else n) m

-- What one round of the loop emits, and the running delay after it (`none`: propSet is false).
abbrev pub Round : Type 0
Round = Option StopEvent × Option ℤ

unfoldable pub predict : StopEvent → Option (Time × Option ℤ) → Option ℤ → Round
predict ev none running = (none, running)
predict ev (some (pred, none)) running =
    (some (record ev { predicted_arrival = pred; delay_secs = none }), running)
predict ev (some (pred, some d)) running =
    (some (record ev { predicted_arrival = pred; delay_secs = some d }), some d)

unfoldable pub propagate : StopEvent → Option ℤ → Round
propagate ev none = (none, none)
propagate ev (some d) = if is_zero ev.scheduled_arrival then (none, some d) else (
  some (record ev { predicted_arrival = ev.scheduled_arrival +ℤ seconds d; delay_secs = some d }),
  some d,
)

-- The `switch` of the loop.
unfoldable pub round : TripUpdate → StopEvent → Option StopTimeUpdate → Option ℤ → Round
unfolding predict propagate
round tu ev none running = propagate ev running
round tu ev (some stu) running =
    if text_eq stu.relationship (codes "SKIPPED")
    then (some (mark_skipped ev), running)
    else if text_eq stu.relationship (codes "NO_DATA")
    then (none, none)
    else predict ev (prediction_from_update stu tu ev.scheduled_arrival) running

abbrev pub emit : Option StopEvent → List StopEvent → List StopEvent
emit none evs = evs
emit (some ev) evs = ev ∷ evs

-- The loop over the stops from index `i`.
unfoldable pub expand :
    TripUpdate → StopEvent → Location → Matches → ℕ → List ScheduledStop → Option ℤ → List StopEvent
expand tu base loc m i [] running = []
expand tu base loc m i (stop ∷ stops) running =
    let (ev, running') = round tu (event_at base loc stop) (get i m) running in
    emit ev (expand tu base loc m (suc i) stops running')

-- The running delay and the first stop before the loop.
unfoldable pub initial_delay : TripUpdate → Option ℤ
initial_delay tu = if tu.delay_set then some tu.delay_secs else none

unfoldable pub first_index : TripUpdate → List ScheduledStop → Matches → ℕ
first_index tu stops [] = if tu.delay_set then 0 else length stops
first_index tu stops (entry ∷ m) = start_index (length stops) (entry ∷ m)

unfoldable pub scheduled_events :
    TripUpdate → StopEvent → Location → List ScheduledStop → List StopEvent
unfolding match_updates start_index expand initial_delay first_index
scheduled_events tu base loc stops =
    let m = match_updates stops tu.stop_time_updates [] in
    let i = first_index tu stops m in expand tu base loc m i (drop i stops) (initial_delay tu)

abbrev pub trip_events : TripUpdate → StopEvent → Location → List ScheduledStop → List StopEvent
trip_events tu base loc stops =
    if text_eq tu.schedule_relationship (codes "CANCELED")
    then canceled_events base loc stops
    else scheduled_events tu base loc stops

abbrev pub with_date :
    TripUpdate → Snapshot → ℤ → TripSchedule → Location → Outcome Text → List StopEvent
with_date tu snap version_id ts loc (err e) = []
with_date tu snap version_id ts loc (ok date) =
    trip_events tu (base_event tu snap version_id ts date) loc ts.stops

-- reconcileTrip once the trip's schedule is found.
unfoldable pub reconcile_found :
    TripUpdate → Snapshot → ℤ → TripSchedule → Location → List StopEvent
unfolding base_event canceled_events scheduled_events
reconcile_found tu snap version_id ts loc =
    with_date tu snap version_id ts loc (resolve_service_date tu ts.stops loc snap.polled_at)
