-- ===== src/Store/SameVersion.antt =====
-- The writes of a load of internal/store/scheduleload.go are of one version.
use ridewatch.Base.{
  ◌≡◌, refl, ◌∙◌, Option, none, some, List, [], ◌∷◌, ◌++◌, length, ltb, Outcome, ok, err, Err,
  if-elim,
}
use ridewatch.Domain.Static.{Call, meta, route, stop, trip, stop_time, calendar, calendar_date}
use ridewatch.Static.Rows.{after_call}
use ridewatch.Static.Script.{perform_calls}
use ridewatch.Store.Versions.{Version, TableName, Row, Stored, Db, delete_version}
use ridewatch.Store.Versions
use ridewatch.Store.ScheduleLoad.{
  Faults, Load, write, copied, flush_rows, flush, maybe_flush, add_row, add_dated, calendar_of,
  calendar_date_of, meta_set, next_flush, flush_all, copy_batch_size,
}

module _ (f : Faults) where
  flush_rows-id : (t : TableName) (rs : List Stored) (l : Load) → (flush_rows f t rs l).1.id ≡ l.id
  flush_rows-id t [] l = refl
  flush_rows-id t (r ∷ rs) l = copied-id (f.copy t (r ∷ rs))
    where
      copied-id : (o : Option Err) → (copied o t (r ∷ rs) l).1.id ≡ l.id
      copied-id (some e) = refl
      copied-id none = refl

  pub flush-id : (t : TableName) (l : Load) → (flush f t l).1.id ≡ l.id
  unfolding flush
  flush-id t l = flush_rows-id t (l.buffers t) l

  maybe_flush-id : (t : TableName) (l : Load) → (maybe_flush f t l).1.id ≡ l.id
  unfolding maybe_flush
  maybe_flush-id t l =
      if-elim (λ (s : Outcome (Unit {0}) × Load). s.1.id ≡ l.id)
        (ltb (length (l.buffers t)) copy_batch_size) (ok tt, l) (flush f t l) refl (flush-id t l)

  add_row-id : (t : TableName) (r : Row) (l : Load) → (add_row f t r l).1.id ≡ l.id
  unfolding add_row
  add_row-id t r l =
      maybe_flush-id t
        (record l { buffers = Versions.set_at t (l.buffers t ++ ((l.id, r) ∷ [])) l.buffers })

  add_dated-id : (t : TableName) (o : Outcome Row) (l : Load) → (add_dated f t o l).1.id ≡ l.id
  add_dated-id t (err e) l = refl
  add_dated-id t (ok r) l = add_row-id t r l

  -- A load keeps its version.
  pub write-id : (c : Call) (l : Load) → (write f c l).1.id ≡ l.id
  unfolding write
  write-id (meta version tz) l = set f.meta
    where
      set : (o : Option Err) → (meta_set o version tz l).1.id ≡ l.id
      set (some e) = refl
      set none = refl
  write-id (route r) l = add_row-id Versions.routes (Versions.route_row r) l
  write-id (stop s) l = add_row-id Versions.stops (Versions.stop_row s) l
  write-id (trip t) l = add_row-id Versions.trips (Versions.trip_row t) l
  write-id (stop_time s) l = add_row-id Versions.stop_times (Versions.stop_time_row s) l
  write-id (calendar c) l = add_dated-id Versions.calendar (calendar_of c) l
  write-id (calendar_date c) l = add_dated-id Versions.calendar_dates (calendar_date_of c) l

  pub perform_calls-id :
      (cs : List Call) (o : Outcome (Unit {0})) (l : Load)
      → (perform_calls (write f) cs o l).1.id ≡ l.id
  perform_calls-id [] o l = refl
  perform_calls-id (c ∷ cs) o l = next (write f c l) (perform_calls-id cs o) (write-id c l)
    where
      next :
          (r : Outcome (Unit {0}) × Load)
          → ((k : Load) → (perform_calls (write f) cs o k).1.id ≡ k.id)
          → r.1.id ≡ l.id
          → (after_call (write f) r (perform_calls (write f) cs o)).1.id ≡ l.id
      next (ok u, k) ih h = ih k ∙ h
      next (err e, k) ih h = h

  pub flush_all-id : (ts : List TableName) (l : Load) → (flush_all f ts l).1.id ≡ l.id
  unfolding flush_all
  flush_all-id [] l = refl
  flush_all-id (t ∷ ts) l = next (flush f t l) (flush_all-id ts) (flush-id t l)
    where
      next :
          (r : Outcome (Unit {0}) × Load)
          → ((k : Load) → (flush_all f ts k).1.id ≡ k.id)
          → r.1.id ≡ l.id
          → (next_flush r (flush_all f ts)).1.id ≡ l.id
      next (ok u, k) ih h = ih k ∙ h
      next (err e, k) ih h = h
