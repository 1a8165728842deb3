-- ===== src/Ingest/Decode.antt =====
-- internal/ingest/decode.go: from protobuf messages to domain snapshots. The messages are those of
-- the gtfs-realtime bindings: an absent field is `none`. Unmarshalling and the names of the enums,
-- the default value's for an absent field, are the bindings' and so parameters. A float32 becomes
-- a float64 by its bits.
use ridewatch.Base.{
  ℕ, zero, suc, ◌+◌, ◌-◌, ◌*◌, ◌/◌, ◌%◌, ◌^◌, ℤ, pos, negsuc, Text, text_eq, Option, none, some,
  List, [], ◌∷◌, map, ltb, ◌==◌, if◌then◌else◌, Outcome, ok, err, failed, Bool, true, false, ◌>>=◌,
}
use ridewatch.Domain.Types.{
  Time, Snapshot, TripUpdate, StopTimeUpdate, VehiclePosition, feed_trip_updates,
  feed_vehicle_positions,
}

pub record TripDescriptor : Type 0 where
  pub trip_id : Option Text
  pub route_id : Option Text
  pub direction_id : Option ℕ
  pub start_date : Option Text
  pub start_time : Option Text
  pub schedule_relationship : Option ℕ

pub record VehicleDescriptor : Type 0 where
  pub id : Option Text
  pub label : Option Text

pub record StopTimeEvent : Type 0 where
  pub time : Option ℤ
  pub delay : Option ℤ

pub record StopTimeMessage : Type 0 where
  pub stop_sequence : Option ℕ
  pub stop_id : Option Text
  pub arrival : Option StopTimeEvent
  pub departure : Option StopTimeEvent
  pub schedule_relationship : Option ℕ

pub record TripMessage : Type 0 where
  pub trip : Option TripDescriptor
  pub vehicle : Option VehicleDescriptor
  pub stop_time_update : List StopTimeMessage
  pub timestamp : Option ℕ
  pub delay : Option ℤ

pub record Position : Type 0 where
  pub latitude : Option ℕ
  pub longitude : Option ℕ
  pub bearing : Option ℕ
  pub speed : Option ℕ

pub record VehicleMessage : Type 0 where
  pub trip : Option TripDescriptor
  pub vehicle : Option VehicleDescriptor
  pub position : Option Position
  pub current_stop_sequence : Option ℕ
  pub stop_id : Option Text
  pub current_status : Option ℕ
  pub timestamp : Option ℕ

pub record Entity : Type 0 where
  pub trip_update : Option TripMessage
  pub vehicle : Option VehicleMessage

pub record FeedMessage : Type 0 where
  -- The timestamp of the header.
  pub timestamp : Option ℕ
  pub entity : List Entity

-- The bytes of a response.
abbrev pub Bytes : Type 0
Bytes = List ℕ

pub record Bindings : Type 0 where
  pub unmarshal : Bytes → Outcome FeedMessage
  pub trip_relationship_name : Option ℕ → Text
  pub stop_relationship_name : Option ℕ → Text
  pub status_name : ℕ → Text

abbrev pub or_else {ℓ} : {A : Type ℓ} → A → Option A → A
or_else d none = d
or_else d (some a) = a

-- A field of a message that may be absent itself.
abbrev pub field {ℓ κ} : {A : Type ℓ} {B : Type κ} → (A → Option B) → Option A → Option B
field f none = none
field f (some a) = f a

abbrev pub is_set {ℓ} : {A : Type ℓ} → Option A → Bool
is_set none = false
is_set (some a) = true

-- int16(x) of a uint32.
unfoldable pub int16_of : ℕ → ℤ
int16_of x = let w = x % 2 ^ 16 in if ltb w 0x8000 then pos w else negsuc (0xffff - w)

-- The place of the highest binary digit of a fraction of 23 digits.
unfoldable pub top_digit : ℕ → ℕ → ℕ
top_digit zero m = 0
top_digit (suc fuel) m = let rest = top_digit fuel (m / 2) in if ltb m 2 then 0 else suc rest

-- float64(x) of a float32: a subnormal becomes normal, a NaN quiet.
unfoldable pub widen : ℕ → ℕ
unfolding top_digit
widen b =
    let sign = b / 2 ^ 31 * 2 ^ 63 in
    let e = b / 2 ^ 23 % 256 in
    let m = b % 2 ^ 23 in
    let k = top_digit 23 m in
    if e == 255
    then sign
      + 2047 * 2 ^ 52
      + (if m == 0 then 0 else if ltb m (2 ^ 22) then m + 2 ^ 22 else m) * 2 ^ 29
    else if e == 0
    then if m == 0 then sign else sign + (k + 874) * 2 ^ 52 + (m - 2 ^ k) * 2 ^ (52 - k)
    else sign + (e + 896) * 2 ^ 52 + m * 2 ^ 29

-- The float32 -1.
abbrev pub minus_one32 : ℕ
minus_one32 = 0xbf800000

unfoldable pub decode_stop_time_update : Bindings → StopTimeMessage → StopTimeUpdate
decode_stop_time_update b u = record {
  stop_sequence = or_else (negsuc 0) (field (λ n. some (pos n)) u.stop_sequence);
  stop_id = or_else [] u.stop_id;
  arrival_time = or_else (pos 0) (field (λ (a : StopTimeEvent). a.time) u.arrival);
  arrival_delay = or_else (pos 0) (field (λ (a : StopTimeEvent). a.delay) u.arrival);
  arrival_delay_set = is_set (field (λ (a : StopTimeEvent). a.delay) u.arrival);
  departure_time = or_else (pos 0) (field (λ (d : StopTimeEvent). d.time) u.departure);
  departure_delay = or_else (pos 0) (field (λ (d : StopTimeEvent). d.delay) u.departure);
  departure_delay_set = is_set (field (λ (d : StopTimeEvent). d.delay) u.departure);
  relationship = b.stop_relationship_name u.schedule_relationship;
}

unfoldable pub decode_trip_update : Bindings → TripMessage → TripUpdate
unfolding int16_of decode_stop_time_update
decode_trip_update b tu = record {
  trip_id = or_else [] (field (λ (t : TripDescriptor). t.trip_id) tu.trip);
  route_id = or_else [] (field (λ (t : TripDescriptor). t.route_id) tu.trip);
  direction_id =
      or_else (negsuc 0)
        (field (λ n. some (int16_of n)) (field (λ (t : TripDescriptor). t.direction_id) tu.trip));
  start_date = or_else [] (field (λ (t : TripDescriptor). t.start_date) tu.trip);
  start_time = or_else [] (field (λ (t : TripDescriptor). t.start_time) tu.trip);
  schedule_relationship =
      b.trip_relationship_name (field (λ (t : TripDescriptor). t.schedule_relationship) tu.trip);
  vehicle_id = or_else [] (field (λ (v : VehicleDescriptor). v.id) tu.vehicle);
  timestamp = or_else 0 tu.timestamp;
  delay_secs = or_else (pos 0) tu.delay;
  delay_set = is_set tu.delay;
  stop_time_updates = map (decode_stop_time_update b) tu.stop_time_update;
}

unfoldable pub decode_vehicle : Bindings → VehicleMessage → VehiclePosition
unfolding widen
decode_vehicle b vp = record {
  vehicle_id = or_else [] (field (λ (v : VehicleDescriptor). v.id) vp.vehicle);
  label = or_else [] (field (λ (v : VehicleDescriptor). v.label) vp.vehicle);
  trip_id = or_else [] (field (λ (t : TripDescriptor). t.trip_id) vp.trip);
  route_id = or_else [] (field (λ (t : TripDescriptor). t.route_id) vp.trip);
  start_date = or_else [] (field (λ (t : TripDescriptor). t.start_date) vp.trip);
  lat = widen (or_else 0 (field (λ (p : Position). p.latitude) vp.position));
  lon = widen (or_else 0 (field (λ (p : Position). p.longitude) vp.position));
  bearing = or_else minus_one32 (field (λ (p : Position). p.bearing) vp.position);
  speed_mps = or_else minus_one32 (field (λ (p : Position). p.speed) vp.position);
  stop_sequence = or_else (negsuc 0) (field (λ n. some (pos n)) vp.current_stop_sequence);
  stop_id = or_else [] vp.stop_id;
  status = or_else [] (field (λ n. some (b.status_name n)) vp.current_status);
  timestamp = or_else 0 vp.timestamp;
}

abbrev pub prepend {ℓ} : {A : Type ℓ} → Option A → List A → List A
prepend none xs = xs
prepend (some x) xs = x ∷ xs

-- The entries that a function finds something in.
abbrev pub gather {ℓ κ} : {A : Type ℓ} {B : Type κ} → (A → Option B) → List A → List B
gather f [] = []
gather f (x ∷ xs) = prepend (f x) (gather f xs)

unfoldable pub snapshot_of : Bindings → Text → Time → FeedMessage → Outcome Snapshot
unfolding decode_trip_update decode_vehicle
snapshot_of b feed polled_at msg =
    let snap : Snapshot = record {
      feed = feed;
      polled_at = polled_at;
      feed_timestamp = or_else 0 msg.timestamp;
      raw_sha256 = [];
      raw_path = [];
      trip_updates = [];
      vehicles = [];
    } in
    if text_eq feed feed_trip_updates
    then ok (record snap {
      trip_updates = map (decode_trip_update b) (gather (λ (e : Entity). e.trip_update) msg.entity);
    })
    else if text_eq feed feed_vehicle_positions
    then ok (record snap {
      vehicles = map (decode_vehicle b) (gather (λ (e : Entity). e.vehicle) msg.entity);
    })
    else err failed

unfoldable pub decode_feed : Bindings → Text → Bytes → Time → Outcome Snapshot
unfolding snapshot_of
decode_feed b feed raw polled_at = do msg ← b.unmarshal raw; snapshot_of b feed polled_at msg
