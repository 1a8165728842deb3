-- ===== src/Store/Rows.antt =====
-- internal/store/convert.go and the statements of internal/store/events.go on stop_events: a table
-- is a map from its primary key to its rows, and a statement is what its SQL text says of each
-- row. A batch runs in one implicit transaction, as pgx.SendBatch does.
use ridewatch.Base.{
  ℕ, ◌+◌, ℤ, pos, ◌-ℤ◌, ltb_ℤ, eqb_ℤ, eqb_ℤ_iff, to_int64, Text, text_eq, text_eq_iff, ◌≡◌, ◌↔◌,
  Bool, true, false, not, ◌&&◌, Option, none, some, List, [], ◌∷◌, arith, if◌then◌else◌, Outcome,
  ok, err, ◌>>=◌,
}
use ridewatch.GoMap.{Eq, GoMap, get, put}
use ridewatch.Domain.Types.{Time, Duration, is_zero, StopEvent}
use ridewatch.Domain.Calendar.{day_number}
use ridewatch.Domain.GtfsTime.{parse_service_date}

-- dateFromServiceDate: the DATE, as its day number.
unfoldable pub date_from_service_date : Text → Outcome ℤ
date_from_service_date d = parse_service_date d >>= λ c. ok (day_number c.year c.month (pos c.day))

-- nullTime
unfoldable pub null_time : Time → Option Time
null_time t = if is_zero t then none else some t

pub record RowKey : Type 0 where
  pub service_date : ℤ
  pub trip_id : Text
  pub start_time : Text
  pub stop_sequence : ℤ

unfoldable pub row_key_eq : RowKey → RowKey → Bool
row_key_eq a b =
    eqb_ℤ a.service_date b.service_date
    && text_eq a.trip_id b.trip_id
    && text_eq a.start_time b.start_time
    && eqb_ℤ a.stop_sequence b.stop_sequence

pub row_key_eq_iff : (a b : RowKey) → (row_key_eq a b ≡ true) ↔ (a ≡ b)
unfolding row_key_eq
row_key_eq_iff a b = ground (
  arith,
  eqb_ℤ_iff a.service_date b.service_date,
  text_eq_iff a.trip_id b.trip_id,
  text_eq_iff a.start_time b.start_time,
  eqb_ℤ_iff a.stop_sequence b.stop_sequence,
)

instance abbrev pub row_key_equality : Eq RowKey
row_key_equality = record { beq = row_key_eq; beq_iff = row_key_eq_iff }

-- The columns of stop_events that the key does not hold.
pub record Row : Type 0 where
  pub stop_id : Text
  pub route_id : Text
  pub direction_id : ℤ
  pub schedule_version_id : ℤ
  pub vehicle_id : Text
  pub scheduled_arrival : Option Time
  pub predicted_arrival : Option Time
  pub actual_arrival : Option Time
  pub delay_secs : Option ℤ
  pub final : Bool
  pub skipped : Bool
  pub feed_timestamp : ℤ
  pub first_seen : Time
  pub last_updated : Time
  pub update_count : ℕ

abbrev pub Table : Type 0
Table = GoMap RowKey Row

-- The row that the VALUES of the upsert make, with the defaults of the table.
unfoldable pub inserted : StopEvent → Row
unfolding null_time
inserted e = record {
  stop_id = e.stop_id;
  route_id = e.route_id;
  direction_id = e.direction_id;
  schedule_version_id = e.schedule_version_id;
  vehicle_id = e.vehicle_id;
  scheduled_arrival = null_time e.scheduled_arrival;
  predicted_arrival = null_time e.predicted_arrival;
  actual_arrival = none;
  delay_secs = e.delay_secs;
  final = false;
  skipped = e.skipped;
  feed_timestamp = to_int64 e.feed_timestamp;
  first_seen = e.observed_at;
  last_updated = e.observed_at;
  update_count = 1;
}

-- DO UPDATE SET …, from the row that was to be inserted (EXCLUDED).
unfoldable pub advanced : Row → Row → Row
advanced old new = record old {
  vehicle_id = new.vehicle_id;
  predicted_arrival = new.predicted_arrival;
  delay_secs = new.delay_secs;
  skipped = new.skipped;
  feed_timestamp = new.feed_timestamp;
  last_updated = new.last_updated;
  update_count = old.update_count + 1;
}

-- The WHERE of the upsert.
unfoldable pub may_advance : Row → Row → Bool
may_advance old new = ltb_ℤ old.feed_timestamp new.feed_timestamp && not old.final

-- What the statement makes of the row under its key, and the rows affected.
unfoldable pub upsert_row : Option Row → Row → Row × ℕ
unfolding advanced may_advance
upsert_row none new = (new, 1)
upsert_row (some old) new = if may_advance old new then (advanced old new, 1) else (old, 0)

-- A statement of the batch: its key and the row that it inserts.
abbrev pub Queued : Type 0
Queued = RowKey × Row

unfoldable pub queue_event : StopEvent → Outcome Queued
unfolding date_from_service_date inserted
queue_event e = date_from_service_date e.service_date >>= λ d. ok (
  record {
    service_date = d;
    trip_id = e.trip_id;
    start_time = e.start_time;
    stop_sequence = e.stop_sequence;
  },
  inserted e,
)

unfoldable pub queue_events : List StopEvent → Outcome (List Queued)
unfolding queue_event
queue_events [] = ok []
queue_events (e ∷ es) = queue_event e >>= λ q. (queue_events es >>= λ qs. ok (q ∷ qs))

unfoldable pub exec_upsert : Queued → Table → ℕ × Table
unfolding upsert_row
exec_upsert (k, new) t = let (row, n) = upsert_row (get k t) new in (n, put k row t)

-- execBatch: the sum of the rows affected.
unfoldable pub exec_batch : List Queued → Table → ℕ × Table
unfolding exec_upsert
exec_batch [] t = (0, t)
exec_batch (q ∷ qs) t =
    let (n, t') = exec_upsert q t in let (m, t'') = exec_batch qs t' in (n + m, t'')

abbrev pub executed : Table → Outcome (List Queued) → Outcome ℕ × Table
executed t (err x) = (err x, t)
executed t (ok qs) = let (n, t') = exec_batch qs t in (ok n, t')

-- UpsertStopEvents: a bad service date queues nothing at all.
unfoldable pub upsert_stop_events : List StopEvent → Table → Outcome ℕ × Table
unfolding queue_events exec_batch
upsert_stop_events events t = executed t (queue_events events)

-- COALESCE(predicted_arrival, scheduled_arrival) < cutoff
unfoldable pub is_due : Time → Row → Bool
is_due cutoff r = elim r.predicted_arrival [
  | some p ↦ ltb_ℤ p cutoff
  | none ↦ elim r.scheduled_arrival [ some s ↦ ltb_ℤ s cutoff | none ↦ false ]
]

-- One row of the UPDATE of FinalizeDue.
unfoldable pub finalize_row : Time → Time → Row → Row
unfolding is_due
finalize_row now cutoff r =
    if not r.final && is_due cutoff r
    then record r { final = true; actual_arrival = r.predicted_arrival; last_updated = now }
    else r

unfoldable pub finalize_rows : Time → Time → Table → Table
unfolding finalize_row
finalize_rows now cutoff [] = []
finalize_rows now cutoff ((k, r) ∷ t) = (k, finalize_row now cutoff r) ∷ finalize_rows now cutoff t

unfoldable pub count_due : Time → Table → ℕ
unfolding is_due
count_due cutoff [] = 0
count_due cutoff ((k, r) ∷ t) =
    (if not r.final && is_due cutoff r then 1 else 0) + count_due cutoff t

-- FinalizeDue
unfoldable pub finalize_due : Time → Duration → Table → Outcome ℕ × Table
unfolding finalize_rows count_due
finalize_due now grace t = (ok (count_due (now -ℤ grace) t), finalize_rows now (now -ℤ grace) t)
