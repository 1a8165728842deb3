-- ===== src/Store/ScheduleLoad.antt =====
-- internal/store/scheduleload.go: the load of a static schedule. The transaction is the working
-- copy of the tables that it will commit; no other load runs beside it. Which statements the
-- database refuses, and why, is a parameter: the keys of the tables are among its reasons.
use ridewatch.Base.{
  ℕ, ℤ, Text, Bool, true, false, Option, none, some, List, [], ◌∷◌, ◌++◌, keep, length, ltb,
  if◌then◌else◌, Outcome, ok, err, Err, failed, ◌>>=◌,
}
use ridewatch.Domain.Types.{Time}
use ridewatch.Domain.Static.{
  meta, route, stop, trip, stop_time, calendar, calendar_date, CalendarEntry, CalendarDate, Writer,
}
use ridewatch.Store.Rows.{date_from_service_date}
use ridewatch.Store.Versions.{
  Version, TableName, Row, Stored, Db, set_at, has_id, has_sha, delete_version, insert_version,
  update_versions, set_meta, set_loaded, deactivate, activate,
}
use ridewatch.Store.Versions

-- The statements that fail, each with its error.
pub record Faults : Type 0 where
  pub lookup : Option Err
  pub delete_crashed : Option Err
  pub insert : Option Err
  pub begin : Option Err
  pub meta : Option Err
  pub copy : TableName → List Stored → Option Err
  pub set_loaded : Option Err
  pub deactivate : Option Err
  pub activate : Option Err
  pub commit : Option Err
  pub rollback : Option Err
  pub delete_aborted : Option Err

pub record Load : Type 0 where
  pub id : ℤ
  pub finished : Bool
  pub tx : Db
  pub buffers : TableName → List Stored

-- What NewScheduleLoad returns; `exists` is ErrVersionExists.
pub data Opened : Type 0 where
  opened : Load → Opened
  exists : Opened
  refused : Err → Opened

abbrev pub copy_batch_size : ℕ
copy_batch_size = 5000

-- A statement that may fail, and what follows it.
abbrev pub unless : Option Err → Db → Opened × Db → Opened × Db
unless (some e) db k = (refused e, db)
unless none db k = k

unfoldable pub begin_load : Option Err → ℤ → Db → Opened × Db
begin_load fault id db =
    unless fault db (opened (record { id = id; finished = false; tx = db; buffers = λ t. [] }), db)

abbrev pub inserted : Faults → Outcome ℤ × Db → Opened × Db
inserted f (err e, db) = (refused e, db)
inserted f (ok id, db) = begin_load f.begin id db

unfoldable pub fresh_version : Faults → Text → Time → Db → Opened × Db
unfolding begin_load
fresh_version f sha fetched_at db =
    unless f.insert db (inserted f (insert_version sha fetched_at db))

-- A row of the hash: a load that is done, or one that crashed.
abbrev pub old_version : Faults → Text → Time → Option Time → ℤ → Db → Opened × Db
old_version f sha fetched_at (some at) id db = (exists, db)
old_version f sha fetched_at none id db =
    unless f.delete_crashed db (fresh_version f sha fetched_at (delete_version id db))

unfoldable pub found_version : Faults → Text → Time → List Version → Db → Opened × Db
unfolding fresh_version
found_version f sha fetched_at [] db = fresh_version f sha fetched_at db
found_version f sha fetched_at (v ∷ vs) db = old_version f sha fetched_at v.loaded_at v.id db

unfoldable pub new_schedule_load : Faults → Text → Time → Db → Opened × Db
unfolding found_version
new_schedule_load f sha fetched_at db =
    unless f.lookup db (found_version f sha fetched_at (keep (has_sha sha) db.versions) db)

abbrev pub copied : Option Err → TableName → List Stored → Load → Outcome (Unit {0}) × Load
copied (some e) t buf l = (err e, l)
copied none t buf l = (
  ok tt,
  record l {
    tx = record l.tx { rows = set_at t (l.tx.rows t ++ buf) l.tx.rows };
    buffers = set_at t [] l.buffers;
  },
)

abbrev pub flush_rows : Faults → TableName → List Stored → Load → Outcome (Unit {0}) × Load
flush_rows f t [] l = (ok tt, l)
flush_rows f t (r ∷ rs) l = copied (f.copy t (r ∷ rs)) t (r ∷ rs) l

unfoldable pub flush : Faults → TableName → Load → Outcome (Unit {0}) × Load
flush f t l = flush_rows f t (l.buffers t) l

unfoldable pub maybe_flush : Faults → TableName → Load → Outcome (Unit {0}) × Load
unfolding flush
maybe_flush f t l = if ltb (length (l.buffers t)) copy_batch_size then (ok tt, l) else flush f t l

-- A row is buffered, and the buffer flushed when it is full.
unfoldable pub add_row : Faults → TableName → Row → Load → Outcome (Unit {0}) × Load
unfolding maybe_flush
add_row f t r l =
    maybe_flush f t (record l { buffers = set_at t (l.buffers t ++ ((l.id, r) ∷ [])) l.buffers })

abbrev pub add_dated : Faults → TableName → Outcome Row → Load → Outcome (Unit {0}) × Load
add_dated f t (err e) l = (err e, l)
add_dated f t (ok r) l = add_row f t r l

unfoldable pub calendar_of : CalendarEntry → Outcome Row
calendar_of c = do
  start ← date_from_service_date c.start_date
  end ← date_from_service_date c.end_date
  ok (Versions.calendar_row c.service_id c.weekdays start end)

unfoldable pub calendar_date_of : CalendarDate → Outcome Row
calendar_date_of c = do
  d ← date_from_service_date c.date
  ok (Versions.calendar_date_row c.service_id d c.exception_type)

abbrev pub meta_set : Option Err → Text → Text → Load → Outcome (Unit {0}) × Load
meta_set (some e) version tz l = (err e, l)
meta_set none version tz l =
    (ok tt, record l { tx = update_versions (has_id l.id) (set_meta version tz) l.tx })

-- The methods of ScheduleWriter.
unfoldable pub write : Faults → Writer Load
unfolding add_row calendar_of calendar_date_of
write f (meta version tz) l = meta_set f.meta version tz l
write f (route r) l = add_row f Versions.routes (Versions.route_row r) l
write f (stop s) l = add_row f Versions.stops (Versions.stop_row s) l
write f (trip t) l = add_row f Versions.trips (Versions.trip_row t) l
write f (stop_time s) l = add_row f Versions.stop_times (Versions.stop_time_row s) l
write f (calendar c) l = add_dated f Versions.calendar (calendar_of c) l
write f (calendar_date c) l = add_dated f Versions.calendar_dates (calendar_date_of c) l

abbrev pub copy_tables : List TableName
copy_tables =
    Versions.routes ∷ Versions.stops ∷ Versions.trips ∷ Versions.stop_times ∷ Versions.calendar
    ∷ Versions.calendar_dates ∷ []

abbrev pub next_flush :
    Outcome (Unit {0}) × Load → (Load → Outcome (Unit {0}) × Load) → Outcome (Unit {0}) × Load
next_flush (ok u, l) k = k l
next_flush (err e, l) k = (err e, l)

unfoldable pub flush_all : Faults → List TableName → Load → Outcome (Unit {0}) × Load
flush_all f [] l = (ok tt, l)
flush_all f (t ∷ ts) l = next_flush (flush f t l) (flush_all f ts)

abbrev pub refusal : Option Err → Option Err → Option Err
refusal (some e) o = some e
refusal none o = o

abbrev pub committed : Option Err → Time → Load → Db → Outcome ℤ × Load × Db
committed (some e) now l db = (err e, l, db)
committed none now l db =
    (ok l.id, record l { finished = true }, activate l.id (deactivate (set_loaded now l.id l.tx)))

-- The three updates and the commit: the first that fails ends it.
unfoldable pub finish_commit : Faults → Time → Load → Db → Outcome ℤ × Load × Db
finish_commit f now l db =
    committed (refusal f.set_loaded (refusal f.deactivate (refusal f.activate f.commit))) now l db

abbrev pub after_flush : Faults → Time → Outcome (Unit {0}) × Load → Db → Outcome ℤ × Load × Db
after_flush f now (err e, l) db = (err e, l, db)
after_flush f now (ok u, l) db = finish_commit f now l db

-- Commit: the tables that are committed are those of the transaction.
unfoldable pub commit : Faults → Time → Load → Db → Outcome ℤ × Load × Db
unfolding flush_all finish_commit
commit f now l db =
    if l.finished then (err failed, l, db) else after_flush f now (flush_all f copy_tables l) db

unfoldable pub delete_aborted : Option Err → ℤ → Db → Db
delete_aborted (some e) id db = db
delete_aborted none id db = delete_version id db

-- Abort: the transaction is rolled back, and the row of the version deleted.
unfoldable pub abort : Faults → Load → Db → Option Err × Load × Db
unfolding delete_aborted
abort f l db = if l.finished then (none, l, db) else (
  refusal f.rollback f.delete_aborted,
  record l { finished = true },
  delete_aborted f.delete_aborted l.id db,
)
