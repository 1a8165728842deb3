-- ===== src/Domain/Types.antt =====
-- internal/domain/domain.go: the types. Instants are nanoseconds since the zero time.Time, so
-- that `IsZero` is a comparison with 0, and Durations are nanoseconds. Floats are only passed
-- on by the code modelled here: they are kept as their bit patterns.
use ridewatch.Base.{
  ℕ, ℤ, pos, eqb_ℤ, ltb_ℤ, Text, text_eq, text_eq_iff, codes, ◌≡◌, ◌↔◌, Bool, true, ◌&&◌, Option,
  List, if◌then◌else◌, arith, eqb_ℤ_iff,
}
use ridewatch.GoMap.{Eq}

abbrev pub Time : Type 0
Time = ℤ

abbrev pub Duration : Type 0
Duration = ℤ

abbrev pub zero_time : Time
zero_time = pos 0

abbrev pub is_zero : Time → Bool
is_zero t = eqb_ℤ t zero_time

abbrev pub feed_vehicle_positions : Text
feed_vehicle_positions = codes "vehicle_positions"

abbrev pub feed_trip_updates : Text
feed_trip_updates = codes "trip_updates"

pub record StopTimeUpdate : Type 0 where
  pub stop_sequence : ℤ
  pub stop_id : Text
  pub arrival_time : ℤ
  pub arrival_delay : ℤ
  pub arrival_delay_set : Bool
  pub departure_time : ℤ
  pub departure_delay : ℤ
  pub departure_delay_set : Bool
  pub relationship : Text

pub record TripUpdate : Type 0 where
  pub trip_id : Text
  pub route_id : Text
  pub direction_id : ℤ
  pub start_date : Text
  pub start_time : Text
  pub schedule_relationship : Text
  pub vehicle_id : Text
  pub timestamp : ℕ
  pub delay_secs : ℤ
  pub delay_set : Bool
  pub stop_time_updates : List StopTimeUpdate

pub record VehiclePosition : Type 0 where
  pub vehicle_id : Text
  pub label : Text
  pub trip_id : Text
  pub route_id : Text
  pub start_date : Text
  pub lat : ℕ
  pub lon : ℕ
  pub bearing : ℕ
  pub speed_mps : ℕ
  pub stop_sequence : ℤ
  pub stop_id : Text
  pub status : Text
  pub timestamp : ℕ

pub record Snapshot : Type 0 where
  pub feed : Text
  pub polled_at : Time
  pub feed_timestamp : ℕ
  pub raw_sha256 : Text
  pub raw_path : Text
  pub trip_updates : List TripUpdate
  pub vehicles : List VehiclePosition

-- The natural key of an event.
pub record EventKey : Type 0 where
  pub service_date : Text
  pub trip_id : Text
  pub start_time : Text
  pub stop_sequence : ℤ

pub record StopEvent : Type 0 where
  pub service_date : Text
  pub trip_id : Text
  pub start_time : Text
  pub stop_sequence : ℤ
  pub stop_id : Text
  pub route_id : Text
  pub direction_id : ℤ
  pub schedule_version_id : ℤ
  pub vehicle_id : Text
  pub headsign : Text
  pub scheduled_arrival : Time
  pub predicted_arrival : Time
  pub actual_arrival : Time
  pub delay_secs : Option ℤ
  pub final : Bool
  pub skipped : Bool
  pub feed_timestamp : ℕ
  pub observed_at : Time

unfoldable pub key : StopEvent → EventKey
key e = record {
  service_date = e.service_date;
  trip_id = e.trip_id;
  start_time = e.start_time;
  stop_sequence = e.stop_sequence;
}

unfoldable pub key_eq : EventKey → EventKey → Bool
key_eq a b =
    text_eq a.service_date b.service_date
    && text_eq a.trip_id b.trip_id
    && text_eq a.start_time b.start_time
    && eqb_ℤ a.stop_sequence b.stop_sequence

pub key_eq_iff : (a b : EventKey) → (key_eq a b ≡ true) ↔ (a ≡ b)
unfolding key_eq
key_eq_iff a b = ground (
  arith,
  text_eq_iff a.service_date b.service_date,
  text_eq_iff a.trip_id b.trip_id,
  text_eq_iff a.start_time b.start_time,
  eqb_ℤ_iff a.stop_sequence b.stop_sequence,
)

instance abbrev pub key_equality : Eq EventKey
key_equality = record { beq = key_eq; beq_iff = key_eq_iff }

pub record ScheduleVersion : Type 0 where
  pub id : ℤ
  pub sha256 : Text
  pub feed_version : Text
  pub agency_tz : Text
  pub fetched_at : Time
  pub loaded_at : Time
  pub active : Bool

pub record ScheduledStop : Type 0 where
  pub stop_sequence : ℤ
  pub stop_id : Text
  pub arrival_secs : ℤ
  pub departure_secs : ℤ

unfoldable pub best_secs : ScheduledStop → ℤ
best_secs s = if ltb_ℤ s.arrival_secs (pos 0) then s.departure_secs else s.arrival_secs

pub record TripSchedule : Type 0 where
  pub trip_id : Text
  pub route_id : Text
  pub service_id : Text
  pub direction_id : ℤ
  pub headsign : Text
  pub stops : List ScheduledStop

pub record LiveVehicle : Type 0 where
  pub position : VehiclePosition
  pub route_short_name : Text
  pub headsign : Text
  pub delay_secs : Option ℤ
  pub updated_at : Time

pub record Subscription : Type 0 where
  pub id : ℤ
  pub endpoint : Text
  pub p256dh : Text
  pub auth : Text
  pub stop_id : Text
  pub route_id : Text
  pub direction_id : ℤ
  pub threshold_secs : ℤ
  pub created_at : Time
  pub failure_count : ℤ
