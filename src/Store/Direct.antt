-- ===== src/Store/Direct.antt =====
-- The load of internal/store/scheduleload.go without its buffers: each call of the writer is one
-- statement on the tables. What a load has written is what stands in its transaction and, behind
-- it, in its buffers.
use ridewatch.Base.{
  ℤ, ◌≡◌, refl, sym, ap, ◌∙◌, fun_ext, append_assoc, append-nil, true, Bool-cases, inl, inr, Option,
  none, some, List, [], ◌∷◌, ◌++◌, length, ltb, ◌==◌, arith, Outcome, ok, err, Err, if-elim,
}
use ridewatch.Domain.Types.{Time}
use ridewatch.Domain.Static.{Call, meta, route, stop, trip, stop_time, calendar, calendar_date}
use ridewatch.Static.Rows.{after_call}
use ridewatch.Static.Script.{perform_calls}
use ridewatch.Store.Versions.{
  Version, TableName, Row, Stored, Db, tag, set_at, has_id, update_versions, set_meta, set_loaded,
  deactivate, activate,
}
use ridewatch.Store.Versions
use ridewatch.Store.SameVersion.{write-id}
use ridewatch.Store.ScheduleLoad.{
  Faults, Load, write, copied, flush_rows, flush, maybe_flush, add_row, add_dated, calendar_of,
  calendar_date_of, meta_set, copy_batch_size,
}

abbrev pub append_row : TableName → Stored → Db → Db
append_row t r db = record db { rows = set_at t (db.rows t ++ (r ∷ [])) db.rows }

abbrev pub append_dated : TableName → ℤ → Outcome Row → Db → Db
append_dated t id (err e) db = db
append_dated t id (ok r) db = append_row t (id, r) db

-- One call, as a statement on the tables.
unfoldable pub put_call : ℤ → Call → Db → Db
put_call id (meta version tz) = update_versions (has_id id) (set_meta version tz)
put_call id (route r) = append_row Versions.routes (id, Versions.route_row r)
put_call id (stop s) = append_row Versions.stops (id, Versions.stop_row s)
put_call id (trip t) = append_row Versions.trips (id, Versions.trip_row t)
put_call id (stop_time s) = append_row Versions.stop_times (id, Versions.stop_time_row s)
put_call id (calendar c) = append_dated Versions.calendar id (calendar_of c)
put_call id (calendar_date c) = append_dated Versions.calendar_dates id (calendar_date_of c)

unfoldable pub put_calls : ℤ → List Call → Db → Db
put_calls id [] db = db
put_calls id (c ∷ cs) db = put_calls id cs (put_call id c db)

-- The version is loaded, and the only active one.
unfoldable pub publish_version : Time → ℤ → Db → Db
publish_version now id db = activate id (deactivate (set_loaded now id db))

-- What a load has written.
abbrev pub whole : Load → Db
whole l = record l.tx { rows = λ t. l.tx.rows t ++ l.buffers t }

pub tag-≡ : (t u : TableName) → (tag t == tag u) ≡ true → t ≡ u
tag-≡ t u h = ground arith

set_at-append :
    (t u : TableName) (f g : TableName → List Stored)
    → set_at t (f t ++ g t) f u ++ set_at t [] g u ≡ f u ++ g u
set_at-append t u f g = elim (Bool-cases (tag t == tag u)) [
  | inl e ↦ rw e (append-nil _ ∙ ap (λ v. f v ++ g v) (tag-≡ t u e))
  | inr e ↦ rw e refl
]

append-set_at :
    (t u : TableName) (r : List Stored) (f g : TableName → List Stored)
    → f u ++ set_at t (g t ++ r) g u ≡ set_at t ((f t ++ g t) ++ r) (λ v. f v ++ g v) u
append-set_at t u r f g = elim (Bool-cases (tag t == tag u)) [
  | inl e ↦
      rw e (ap (λ v. f v ++ (g t ++ r)) (sym (tag-≡ t u e)) ∙ sym (append_assoc (f t) (g t) r))
  | inr e ↦ rw e refl
]

-- The load has written what is given, where it goes on.
abbrev pub IsWritten : Db → Outcome (Unit {0}) × Load → Type 0
IsWritten db (ok u, l) = whole l ≡ db
IsWritten db (err e, l) = Unit

module _ (f : Faults) where
  flush_rows-IsWritten :
      (t : TableName) (rs : List Stored) (l : Load)
      → l.buffers t ≡ rs
      → IsWritten (whole l) (flush_rows f t rs l)
  flush_rows-IsWritten t [] l h = refl
  flush_rows-IsWritten t (r ∷ rs) l h = copied-IsWritten (f.copy t (r ∷ rs))
    where
      copied-IsWritten : (o : Option Err) → IsWritten (whole l) (copied o t (r ∷ rs) l)
      copied-IsWritten (some e) = tt
      copied-IsWritten none = λ i. record l.tx {
        rows =
            fun_ext
              (λ u.
                ap (λ b. set_at t (l.tx.rows t ++ b) l.tx.rows u ++ set_at t [] l.buffers u) (sym h)
                ∙ set_at-append t u l.tx.rows l.buffers)
              i;
      }

  -- A flush moves rows, and writes none.
  pub flush-IsWritten : (t : TableName) (l : Load) → IsWritten (whole l) (flush f t l)
  unfolding flush
  flush-IsWritten t l = flush_rows-IsWritten t (l.buffers t) l refl

  maybe_flush-IsWritten : (t : TableName) (l : Load) → IsWritten (whole l) (maybe_flush f t l)
  unfolding maybe_flush
  maybe_flush-IsWritten t l =
      if-elim (IsWritten (whole l)) (ltb (length (l.buffers t)) copy_batch_size) (ok tt, l)
        (flush f t l) refl (flush-IsWritten t l)

  pub IsWritten-≡ :
      (r : Outcome (Unit {0}) × Load) (db db' : Db) → IsWritten db r → db ≡ db' → IsWritten db' r
  IsWritten-≡ (ok u, l) db db' h e = h ∙ e
  IsWritten-≡ (err x, l) db db' h e = tt

  add_row-IsWritten :
      (t : TableName) (r : Row) (l : Load)
      → IsWritten (append_row t (l.id, r) (whole l)) (add_row f t r l)
  unfolding add_row
  add_row-IsWritten t r l =
      let l' = record l { buffers = set_at t (l.buffers t ++ ((l.id, r) ∷ [])) l.buffers } in
      IsWritten-≡ (maybe_flush f t l') (whole l') _ (maybe_flush-IsWritten t l') (λ i. record l.tx {
        rows = fun_ext (λ u. append-set_at t u ((l.id, r) ∷ []) l.tx.rows l.buffers) i;
      })

  add_dated-IsWritten :
      (t : TableName) (o : Outcome Row) (l : Load)
      → IsWritten (append_dated t l.id o (whole l)) (add_dated f t o l)
  add_dated-IsWritten t (err e) l = tt
  add_dated-IsWritten t (ok r) l = add_row-IsWritten t r l

  pub write-IsWritten : (c : Call) (l : Load) → IsWritten (put_call l.id c (whole l)) (write f c l)
  unfolding write put_call
  write-IsWritten (meta version tz) l = set f.meta
    where
      set :
          (o : Option Err)
          → IsWritten
              (update_versions (has_id l.id) (set_meta version tz) (whole l))
              (meta_set o version tz l)
      set (some e) = tt
      set none = refl
  write-IsWritten (route r) l = add_row-IsWritten Versions.routes (Versions.route_row r) l
  write-IsWritten (stop s) l = add_row-IsWritten Versions.stops (Versions.stop_row s) l
  write-IsWritten (trip t) l = add_row-IsWritten Versions.trips (Versions.trip_row t) l
  write-IsWritten (stop_time s) l =
      add_row-IsWritten Versions.stop_times (Versions.stop_time_row s) l
  write-IsWritten (calendar c) l = add_dated-IsWritten Versions.calendar (calendar_of c) l
  write-IsWritten (calendar_date c) l =
      add_dated-IsWritten Versions.calendar_dates (calendar_date_of c) l

  pub perform_calls-IsWritten :
      (cs : List Call) (o : Outcome (Unit {0})) (l : Load)
      → IsWritten (put_calls l.id cs (whole l)) (perform_calls (write f) cs o l)
  unfolding put_calls
  perform_calls-IsWritten [] (ok u) l = refl
  perform_calls-IsWritten [] (err e) l = tt
  perform_calls-IsWritten (c ∷ cs) o l =
      next (write f c l) (perform_calls-IsWritten cs o) (write-IsWritten c l) (write-id f c l)
    where
      next :
          (r : Outcome (Unit {0}) × Load)
          → ((k : Load) → IsWritten (put_calls k.id cs (whole k)) (perform_calls (write f) cs o k))
          → IsWritten (put_call l.id c (whole l)) r
          → r.1.id ≡ l.id
          → IsWritten
              (put_calls l.id cs (put_call l.id c (whole l)))
              (after_call (write f) r (perform_calls (write f) cs o))
      next (err e, k) ih h i = tt
      next (ok u, k) ih h i =
          IsWritten-≡ (perform_calls (write f) cs o k) _ _ (ih k) (λ j. put_calls (i j) cs (h j))
