-- ===== src/Reconcile/Engine.antt =====
-- internal/reconcile/engine.go and process.go: Process and Sweep as steps of the engine and of
-- the store behind domain.ScheduleRepo and domain.EventStore. The counters of the metrics are not
-- modelled.
use ridewatch.Base.{
  ℕ, ℤ, to_int64, ltb, Text, is_empty, Option, none, some, List, [], ◌∷◌, ◌++◌, if◌then◌else◌,
  Outcome, ok, err, not_found, canceled, failed,
}
use ridewatch.GoMap.{GoMap, text_equality, get, put}
use ridewatch.Domain.Types.{
  Time, Duration, Snapshot, TripUpdate, VehiclePosition, StopEvent, ScheduleVersion, TripSchedule,
}
use ridewatch.Domain.Calendar.{Location}
use ridewatch.Reconcile.Cache.{TripCache, Visit, trip_cache_max, new_trip_cache, trip_schedule}
use ridewatch.Reconcile.ServiceDate.{unix_time}
use ridewatch.Reconcile.Trip.{reconcile_found}
use ridewatch.Reconcile.Live.{Live, LiveEntry, no_live}

-- domain.EventStore and domain.ScheduleRepo over the state of the store.
pub record Backend (S : Type 0) : Type 0 where
  pub active_version : S → Outcome ScheduleVersion
  pub trip_lookup : S → ℤ → Text → Outcome TripSchedule
  pub upsert_stop_events : List StopEvent → S → Outcome ℕ × S
  pub insert_vehicle_positions : List VehiclePosition → S → Outcome ℕ × S
  pub finalize_due : Time → Duration → S → Outcome ℕ × S

pub record Engine : Type 0 where
  pub finalize_grace : Duration
  pub cache : TripCache
  pub tz : GoMap Text Location
  pub live : Live

unfoldable pub new_engine : Duration → Engine
unfolding new_trip_cache no_live
new_engine grace = record {
  finalize_grace = grace;
  cache = new_trip_cache trip_cache_max;
  tz = [];
  live = no_live;
}

abbrev pub remember_location : Text → Outcome Location → Engine → Outcome Location × Engine
remember_location name (ok loc) e = (ok loc, record e { tz = put name loc e.tz })
remember_location name (err x) e = (err failed, e)

-- Engine.location over time.LoadLocation.
unfoldable pub location : (Text → Outcome Location) → Text → Engine → Outcome Location × Engine
location load_location name e = elim (get name e.tz) [
  | some loc ↦ (ok loc, e)
  | none ↦ remember_location name (load_location name) e
]

abbrev found_events :
    TripUpdate → Snapshot → ℤ → Location → Outcome TripSchedule → Outcome (List StopEvent)
found_events tu snap version_id loc (ok ts) = ok (reconcile_found tu snap version_id ts loc)
found_events tu snap version_id loc (err not_found) = ok []
found_events tu snap version_id loc (err canceled) = err canceled
found_events tu snap version_id loc (err failed) = err failed

-- reconcileTrip
unfoldable pub reconcile_trip :
    Visit
    → (ℤ → Text → Outcome TripSchedule)
    → TripUpdate
    → Snapshot
    → ℤ
    → Location
    → TripCache
    → Outcome (List StopEvent) × TripCache
unfolding trip_schedule reconcile_found
reconcile_trip first repo tu snap version_id loc c =
    let (ts, c') = trip_schedule first repo version_id tu.trip_id c in
    (found_events tu snap version_id loc ts, c')

abbrev append_events :
    List StopEvent → Outcome (List StopEvent) × TripCache → Outcome (List StopEvent) × TripCache
append_events evs (ok rest, c) = (ok (evs ++ rest), c)
append_events evs (err x, c) = (err x, c)

-- The loop of processTripUpdates, which stops at the first error.
unfoldable pub reconcile_trips :
    Visit
    → (ℤ → Text → Outcome TripSchedule)
    → Snapshot
    → ℤ
    → Location
    → List TripUpdate
    → TripCache
    → Outcome (List StopEvent) × TripCache
unfolding reconcile_trip
reconcile_trips first repo snap version_id loc [] c = (ok [], c)
reconcile_trips first repo snap version_id loc (tu ∷ tus) c =
    let (evs, c') = reconcile_trip first repo tu snap version_id loc c in
    elim evs [
      | err x ↦ (err x, c')
      | ok l ↦ append_events l (reconcile_trips first repo snap version_id loc tus c')
    ]

-- The version and the location of a pass, if a schedule is loaded.
abbrev pub Schedule : Type 0
Schedule = Option (ScheduleVersion × Location)

abbrev pub gathered :
    Visit
    → (ℤ → Text → Outcome TripSchedule)
    → Snapshot
    → Schedule
    → TripCache
    → Outcome (List StopEvent) × TripCache
gathered first repo snap none c = (ok [], c)
gathered first repo snap (some (ver, loc)) c =
    reconcile_trips first repo snap ver.id loc snap.trip_updates c

abbrev headsign_and_route : VehiclePosition → Outcome TripSchedule → VehiclePosition × Text
headsign_and_route vp (ok ts) = (
  record vp { route_id = if is_empty vp.route_id then ts.route_id else vp.route_id },
  ts.headsign,
)
headsign_and_route vp (err x) = (vp, [])

-- A vehicle with what its trip's schedule adds.
unfoldable pub enrich :
    Visit
    → (ℤ → Text → Outcome TripSchedule)
    → Schedule
    → VehiclePosition
    → TripCache
    → (VehiclePosition × Text) × TripCache
unfolding trip_schedule
enrich first repo none vp c = ((vp, []), c)
enrich first repo (some (ver, loc)) vp c =
    if is_empty vp.trip_id
    then ((vp, []), c)
    else (let (ts, c') = trip_schedule first repo ver.id vp.trip_id c in
        (headsign_and_route vp ts, c'))

abbrev pub seen_at : Snapshot → VehiclePosition → Time
seen_at snap vp = if ltb 0 vp.timestamp then unix_time (to_int64 vp.timestamp) else snap.polled_at

-- The loop of processVehiclePositions that builds the entries.
unfoldable pub vehicle_entries :
    Visit
    → (ℤ → Text → Outcome TripSchedule)
    → Snapshot
    → Schedule
    → List VehiclePosition
    → TripCache
    → List LiveEntry × TripCache
unfolding enrich unix_time
vehicle_entries first repo snap sched [] c = ([], c)
vehicle_entries first repo snap sched (vp ∷ vps) c =
    let ((vp', headsign), c') =
      (if is_empty vp.vehicle_id then ((vp, []), c) else enrich first repo sched vp c) in
    let (les, c'') = vehicle_entries first repo snap sched vps c' in
    if is_empty vp.vehicle_id
    then (les, c'')
    else (record { vp = vp'; headsign = headsign; updated_at = seen_at snap vp } ∷ les, c'')
