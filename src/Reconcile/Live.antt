-- ===== src/Reconcile/Live.antt =====
-- The in-memory live state of internal/reconcile/engine.go and how
-- internal/reconcile/process.go mirrors events and vehicles into it. A goroutine that holds
-- `e.mu` runs one of these functions as a whole.
use ridewatch.Base.{
  ◌*◌, ℤ, pos, ◌+ℤ◌, ltb_ℤ, eqb_ℤ, Text, text_eq, text_ltb, is_empty, Bool, true, false, not, ◌&&◌,
  ◌||◌, Option, none, some, List, [], ◌∷◌, map, keep, ltb, if◌then◌else◌,
}
use ridewatch.GoMap.{GoMap, text_equality, get, put}
use ridewatch.Domain.Types.{
  Time, Duration, is_zero, VehiclePosition, EventKey, StopEvent, LiveVehicle, key, key_equality,
}
use ridewatch.Base.Sorting.{sort_by}
use ridewatch.Domain.Calendar.{second_ns}
use ridewatch.Reconcile.ServiceDate.{sub_time}

pub record LiveEntry : Type 0 where
  pub vp : VehiclePosition
  pub headsign : Text
  pub updated_at : Time

pub record Live : Type 0 where
  pub vehicles : GoMap Text LiveEntry
  pub live_events : GoMap EventKey StopEvent
  pub feed_header : GoMap Text Time

unfoldable pub no_live : Live
no_live = record { vehicles = []; live_events = []; feed_header = [] }

-- An older observation never replaces a newer one.
abbrev newer_is_there : StopEvent → Option StopEvent → Bool
newer_is_there ev none = false
newer_is_there ev (some cur) = ltb ev.feed_timestamp cur.feed_timestamp

unfoldable pub mirror_event : GoMap EventKey StopEvent → StopEvent → GoMap EventKey StopEvent
unfolding key
mirror_event m ev = if newer_is_there ev (get (key ev) m) then m else put (key ev) ev m

unfoldable pub mirror : GoMap EventKey StopEvent → List StopEvent → GoMap EventKey StopEvent
unfolding mirror_event
mirror m [] = m
mirror m (ev ∷ evs) = mirror (mirror_event m ev) evs

abbrev later_is_there : LiveEntry → Option LiveEntry → Bool
later_is_there le none = false
later_is_there le (some cur) = ltb_ℤ le.updated_at cur.updated_at

unfoldable pub mirror_vehicle : GoMap Text LiveEntry → LiveEntry → GoMap Text LiveEntry
mirror_vehicle m le =
    if later_is_there le (get le.vp.vehicle_id m) then m else put le.vp.vehicle_id le m

unfoldable pub mirror_vehicles : GoMap Text LiveEntry → List LiveEntry → GoMap Text LiveEntry
unfolding mirror_vehicle
mirror_vehicles m [] = m
mirror_vehicles m (le ∷ les) = mirror_vehicles (mirror_vehicle m le) les

abbrev header_after : Time → Option Time → Bool
header_after header none = true
header_after header (some cur) = ltb_ℤ cur header

-- The end of Process: the newest header of a feed.
unfoldable pub note_header : Text → Time → GoMap Text Time → GoMap Text Time
note_header feed header m = if header_after header (get feed m) then put feed header m else m

-- Sweep, the part under the lock.
abbrev pub vehicle_ttl : Duration
vehicle_ttl = pos (180 * second_ns)

unfoldable pub vehicle_expired : Time → LiveEntry → Bool
unfolding sub_time
vehicle_expired now le = ltb_ℤ vehicle_ttl (sub_time now le.updated_at)

-- The time that an event is aged by.
unfoldable pub reference_time : StopEvent → Time
reference_time ev =
    if is_zero ev.predicted_arrival
    then if is_zero ev.scheduled_arrival then ev.observed_at else ev.scheduled_arrival
    else ev.predicted_arrival

unfoldable pub event_expired : Time → Duration → StopEvent → Bool
unfolding sub_time reference_time
event_expired now grace ev = ltb_ℤ grace (sub_time now (reference_time ev))

unfoldable pub sweep_live : Time → Duration → Live → Live
unfolding vehicle_expired event_expired
sweep_live now grace l = record l {
  vehicles = keep (λ (_, le). not (vehicle_expired now le)) l.vehicles;
  live_events = keep (λ (_, ev). not (event_expired now grace ev)) l.live_events;
}

-- LiveVehicles: the soonest upcoming event of each trip.
pub record Upcoming : Type 0 where
  pub at : Time
  pub delay : Option ℤ

unfoldable pub is_upcoming : Time → StopEvent → Bool
is_upcoming now ev =
    not (ev.final || ev.skipped || is_zero ev.predicted_arrival || ltb_ℤ ev.predicted_arrival now)

abbrev sooner : StopEvent → Option Upcoming → Bool
sooner ev none = true
sooner ev (some cur) = ltb_ℤ ev.predicted_arrival cur.at

unfoldable pub by_trip :
    Time → List (EventKey × StopEvent) → GoMap Text Upcoming → GoMap Text Upcoming
unfolding is_upcoming
by_trip now [] m = m
by_trip now ((_, ev) ∷ evs) m = by_trip now evs (
    if is_upcoming now ev && sooner ev (get ev.trip_id m)
    then put ev.trip_id (record { at = ev.predicted_arrival; delay = ev.delay_secs }) m
    else m)

abbrev upcoming_delay : Option Upcoming → Option ℤ
upcoming_delay none = none
upcoming_delay (some up) = up.delay

unfoldable pub live_vehicle : GoMap Text Upcoming → LiveEntry → LiveVehicle
live_vehicle trips le = record {
  position = le.vp;
  route_short_name = [];
  headsign = le.headsign;
  delay_secs = if is_empty le.vp.trip_id then none else upcoming_delay (get le.vp.trip_id trips);
  updated_at = le.updated_at;
}

unfoldable pub live_vehicles : Time → Live → List LiveVehicle
unfolding sort_by by_trip live_vehicle
live_vehicles now l =
    let trips = by_trip now l.live_events [] in
    sort_by (λ v w. text_ltb v.position.vehicle_id w.position.vehicle_id)
      (map (λ (_, le). live_vehicle trips le) l.vehicles)

-- UpcomingAtStop.
unfoldable pub due_at_stop : Text → Time → Time → StopEvent → Bool
due_at_stop stop_id now end ev = not (
    not (text_eq ev.stop_id stop_id)
    || ev.final
    || ev.skipped
    || is_zero ev.predicted_arrival
    || ltb_ℤ ev.predicted_arrival now
    || ltb_ℤ end ev.predicted_arrival)

unfoldable pub arrives_before : StopEvent → StopEvent → Bool
arrives_before v w =
    if eqb_ℤ v.predicted_arrival w.predicted_arrival
    then text_ltb v.trip_id w.trip_id
    else ltb_ℤ v.predicted_arrival w.predicted_arrival

unfoldable pub upcoming_at_stop : Text → Duration → Time → Live → List StopEvent
unfolding sort_by due_at_stop arrives_before
upcoming_at_stop stop_id horizon now l =
    sort_by arrives_before
      (keep (due_at_stop stop_id now (now +ℤ horizon)) (map (λ (_, ev). ev) l.live_events))

abbrev age_of : Time → Option Time → Option Duration
age_of now none = none
age_of now (some h) = some (sub_time now h)

unfoldable pub feed_age : Text → Time → Live → Option Duration
unfolding sub_time
feed_age feed now l = age_of now (get feed l.feed_header)
