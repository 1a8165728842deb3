-- ===== src/Store/Reads.antt =====
-- internal/store/schedulerepo.go and the reads of stops and routes in queries.go, over the tables
-- of the static schedules. The failure of a query, the order of texts in the database and its
-- lower() with that of Go are parameters.
use ridewatch.Base.{
  ℤ, eqb_ℤ, ltb_ℤ, Text, text_eq, Bool, ◌&&◌, ◌||◌, Option, none, some, List, [], ◌∷◌, map, keep,
  Outcome, ok, err, Err, not_found, failed, canceled, ◌>>=◌,
}
use ridewatch.Base.Sorting.{sort_by}
use ridewatch.GoMap.{text_equality}
use ridewatch.Domain.Types.{Time, zero_time, ScheduleVersion, TripSchedule, ScheduledStop}
use ridewatch.Domain.Static.{Route, Stop, Trip, StopTime}
use ridewatch.Store.Versions.{Version, TableName, Row, Stored, Db, of_version}
use ridewatch.Store.Versions

abbrev pub time_or_zero : Option Time → Time
time_or_zero none = zero_time
time_or_zero (some t) = t

abbrev pub schedule_version : Version → ScheduleVersion
schedule_version v = record {
  id = v.id;
  sha256 = v.sha256;
  feed_version = v.feed_version;
  agency_tz = v.agency_tz;
  fetched_at = v.fetched_at;
  loaded_at = time_or_zero v.loaded_at;
  active = v.active;
}

abbrev pub one_row {ℓ} : {A : Type ℓ} → List A → Outcome A
one_row [] = err not_found
one_row (a ∷ as_) = ok a

-- A query that may fail.
abbrev pub queried {ℓ} : {A : Type ℓ} → Option Err → Outcome A → Outcome A
queried (some e) o = err e
queried none o = o

-- ActiveVersion
unfoldable pub active_version : Option Err → Db → Outcome ScheduleVersion
active_version fault db =
    queried fault
      (do v ← one_row (keep (λ (v : Version). v.active) db.versions); ok (schedule_version v))

unfoldable pub active_version_id : Option Err → Db → Outcome ℤ
active_version_id fault db =
    queried fault (do v ← one_row (keep (λ (v : Version). v.active) db.versions); ok v.id)

-- The rows of a version in a table.
unfoldable pub rows_of : ℤ → List Stored → List Row
unfolding of_version
rows_of id rs = map (λ (i, r). r) (keep (of_version id) rs)

abbrev pub stops_of : List Row → List Stop
stops_of [] = []
stops_of (Versions.stop_row s ∷ rs) = s ∷ stops_of rs
stops_of (_ ∷ rs) = stops_of rs

abbrev pub routes_of : List Row → List Route
routes_of [] = []
routes_of (Versions.route_row r ∷ rs) = r ∷ routes_of rs
routes_of (_ ∷ rs) = routes_of rs

abbrev pub trips_of : List Row → List Trip
trips_of [] = []
trips_of (Versions.trip_row t ∷ rs) = t ∷ trips_of rs
trips_of (_ ∷ rs) = trips_of rs

abbrev pub stop_times_of : List Row → List StopTime
stop_times_of [] = []
stop_times_of (Versions.stop_time_row s ∷ rs) = s ∷ stop_times_of rs
stop_times_of (_ ∷ rs) = stop_times_of rs

unfoldable pub version_stops : ℤ → Db → List Stop
version_stops id db = stops_of (rows_of id (db.rows Versions.stops))

unfoldable pub version_routes : ℤ → Db → List Route
version_routes id db = routes_of (rows_of id (db.rows Versions.routes))

abbrev pub scheduled_stop : StopTime → ScheduledStop
scheduled_stop s = record {
  stop_sequence = s.stop_sequence;
  stop_id = s.stop_id;
  arrival_secs = s.arrival_secs;
  departure_secs = s.departure_secs;
}

abbrev pub earlier : StopTime → StopTime → Bool
earlier s t = ltb_ℤ s.stop_sequence t.stop_sequence

-- loadTripSchedule
unfoldable pub load_trip_schedule : Option Err → Option Err → ℤ → Text → Db → Outcome TripSchedule
load_trip_schedule trip_fault stops_fault id trip_id db = do
  t ← queried trip_fault (
      one_row (
        keep (λ (t : Trip). text_eq t.trip_id trip_id)
          (trips_of (rows_of id (db.rows Versions.trips)))))
  stops ← queried stops_fault (
      ok (
        map scheduled_stop (
          sort_by earlier (
            keep (λ (s : StopTime). text_eq s.trip_id trip_id)
              (stop_times_of (rows_of id (db.rows Versions.stop_times)))))))
  ok (record {
    trip_id = trip_id;
    route_id = t.route_id;
    service_id = t.service_id;
    direction_id = t.direction_id;
    headsign = t.headsign;
    stops = stops;
  })

-- Store.Stop and Store.Route.
unfoldable pub find_stop : Option Err → Option Err → Text → Db → Outcome Stop
find_stop version_fault fault stop_id db = do
  id ← active_version_id version_fault db
  queried fault (one_row (keep (λ (s : Stop). text_eq s.stop_id stop_id) (version_stops id db)))

unfoldable pub find_route : Option Err → Option Err → Text → Db → Outcome Route
find_route version_fault fault route_id db = do
  id ← active_version_id version_fault db
  queried fault (one_row (keep (λ (r : Route). text_eq r.route_id route_id) (version_routes id db)))

-- A list of the active version: empty where no version is active.
abbrev pub of_active {ℓ} : {A : Type ℓ} → Outcome ℤ → (ℤ → Outcome (List A)) → Outcome (List A)
of_active (ok id) k = k id
of_active (err not_found) k = ok []
of_active (err canceled) k = err canceled
of_active (err failed) k = err failed

-- Store.Routes: by sort order, then by id.
unfoldable pub list_routes :
    (Text → Text → Bool) → Option Err → Option Err → Db → Outcome (List Route)
list_routes text_less version_fault fault db = of_active (active_version_id version_fault db) (λ id.
    queried fault (
      ok (
        sort_by
          (λ (r : Route) (r' : Route).
            ltb_ℤ r.sort_order r'.sort_order
            || eqb_ℤ r.sort_order r'.sort_order && text_less r.route_id r'.route_id)
          (version_routes id db))))
