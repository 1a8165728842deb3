-- ===== src/Tests/Samples.antt =====
-- The data that the tests share: a trip with three stops, an update of it, and its events.
use ridewatch.Base.{
  ℕ, ◌*◌, ℤ, pos, negsuc, Text, codes, refl, true, false, none, some, [], ◌∷◌, Outcome, ok, err,
  not_found, text_eq_refl, arith,
}
use ridewatch.GoMap.{text_equality, get}
use ridewatch.Domain.Types.{
  zero_time, StopTimeUpdate, TripUpdate, Snapshot, StopEvent, ScheduledStop, TripSchedule,
}
use ridewatch.Domain.Calendar.{second_ns}
use ridewatch.Reconcile.Cache.{Visit, TripCache}
use ridewatch.Reconcile.Coherence.{VisitsSome}

abbrev stop_at : ℕ → ℤ → ScheduledStop
stop_at n secs = record {
  stop_sequence = pos n;
  stop_id = codes "s";
  arrival_secs = secs;
  departure_secs = secs;
}

abbrev pub schedule : TripSchedule
schedule = record {
  trip_id = codes "t1";
  route_id = codes "r1";
  service_id = codes "wk";
  direction_id = pos 0;
  headsign = codes "North";
  stops = stop_at 1 (pos 28800) ∷ stop_at 2 (pos 29100) ∷ stop_at 3 (pos 29400) ∷ [];
}

-- Stop 2 is five minutes late by its arrival delay.
abbrev late_stop : StopTimeUpdate
late_stop = record {
  stop_sequence = pos 2;
  stop_id = [];
  arrival_time = pos 0;
  arrival_delay = pos 300;
  arrival_delay_set = true;
  departure_time = pos 0;
  departure_delay = pos 0;
  departure_delay_set = false;
  relationship = codes "SCHEDULED";
}

abbrev pub update : TripUpdate
update = record {
  trip_id = codes "t1";
  route_id = [];
  direction_id = negsuc 0;
  start_date = codes "20260803";
  start_time = [];
  schedule_relationship = codes "SCHEDULED";
  vehicle_id = codes "v1";
  timestamp = 0;
  delay_secs = pos 0;
  delay_set = false;
  stop_time_updates = late_stop ∷ [];
}

abbrev pub snapshot : Snapshot
snapshot = record {
  feed = codes "trip_updates";
  polled_at = pos (63921342600 * second_ns);
  feed_timestamp = 1785745800;
  raw_sha256 = [];
  raw_path = [];
  trip_updates = update ∷ [];
  vehicles = [];
}

abbrev pub event : ℕ → ℕ → StopEvent
event seq feed_timestamp = record {
  service_date = codes "20260803";
  trip_id = codes "t1";
  start_time = [];
  stop_sequence = pos seq;
  stop_id = codes "s";
  route_id = codes "r1";
  direction_id = pos 0;
  schedule_version_id = pos 1;
  vehicle_id = codes "v1";
  headsign = codes "North";
  scheduled_arrival = pos 1000;
  predicted_arrival = pos 1300;
  actual_arrival = zero_time;
  delay_secs = some (pos 300);
  final = false;
  skipped = false;
  feed_timestamp = feed_timestamp;
  observed_at = pos 900;
}

-- The repository that knows the sample trip.
abbrev pub repository : ℤ → Text → Outcome TripSchedule
repository version trip_id = elim trip_id [ [] ↦ err not_found | c ∷ s ↦ ok schedule ]

unfoldable pub first_key : Visit
first_key [] = none
first_key ((k, o) ∷ m) = some k

pub first_key-VisitsSome : VisitsSome first_key
unfolding first_key get
first_key-VisitsSome [] full = absurd (full refl)
first_key-VisitsSome ((k, o) ∷ m) full = (k, o, refl, ground (arith, text_eq_refl k))

-- A full cache of one entry.
abbrev pub full_cache : TripCache
full_cache = record { max = 1; version = pos 1; entries = (codes "t1", some schedule) ∷ [] }
