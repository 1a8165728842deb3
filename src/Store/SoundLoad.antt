-- ===== src/Store/SoundLoad.antt =====
-- The updates of a load of internal/store/scheduleload.go, its rows, and what Commit does keep the
-- versions sound.
use ridewatch.Base.{
  ℤ, Text, ◌≡◌, refl, sym, ◌∙◌, Bool, true, List, [], ◌∷◌, ◌++◌, map, All, All-append, All-map,
  All-weaken, arith, if-elim, if◌then◌else◌, Outcome, ok, err, ◌==◌,
}
use ridewatch.Domain.Static.{Call, meta, route, stop, trip, stop_time, calendar, calendar_date}
use ridewatch.Store.Versions.{
  Version, TableName, Row, Stored, Db, tag, set_at, has_id, update_versions, set_meta, set_loaded,
  deactivate, activate,
}
use ridewatch.Store.Versions
use ridewatch.Store.ScheduleLoad.{calendar_of, calendar_date_of}
use ridewatch.Store.Direct.{append_row, append_dated, put_call, put_calls}
use ridewatch.Store.Published.{is_loaded, Below, IdsApart}
use ridewatch.Store.Sound.{OneActive, known, IsSound}

-- A change of the versions that leaves their ids.
module _ (g : Version → Version) (same : (v : Version) → (g v).id ≡ v.id) where
  pub Below-map : (next : ℤ) (vs : List Version) → Below next vs → Below next (map g vs)
  Below-map next vs = All-map _ _ g vs (λ v h. ground (arith, h, same v))

  pub IdsApart-map : (vs : List Version) → IdsApart vs → IdsApart (map g vs)
  IdsApart-map [] h = tt
  IdsApart-map (v ∷ vs) (a, h) =
      (All-map _ _ g vs (λ w e. ground (arith, e, same v, same w)) a, IdsApart-map vs h)

  pub known-map : (vs : List Version) (i : ℤ) → known (map g vs) i ≡ known vs i
  unfolding has_id
  known-map [] i = refl
  known-map (v ∷ vs) i = ground (arith, known-map vs i, same v)

  OneActive-map :
      ((v : Version) → (g v).active ≡ v.active)
      → (vs : List Version) → OneActive vs
      → OneActive (map g vs)
  OneActive-map e [] h = tt
  OneActive-map e (v ∷ vs) (a, h) =
      ((λ t. All-map _ _ g vs (λ w n. e w ∙ n) (a (sym (e v) ∙ t))), OneActive-map e vs h)

  -- Soundness of the change, from that of the flags.
  pub map-IsSound :
      (db : Db)
      → OneActive (map g db.versions)
      → All (λ (v : Version). v.active ≡ true → is_loaded v ≡ true) (map g db.versions)
      → IsSound db
      → IsSound (record db { versions = map g db.versions })
  map-IsSound db o a s = record {
    below = Below-map db.next_id db.versions s.below;
    apart = IdsApart-map db.versions s.apart;
    one_active = o;
    active_loaded = a;
    rows_known =
        λ t. All-weaken _ _ (db.rows t) (λ (i, r) k. known-map db.versions i ∙ k) (s.rows_known t);
  }

-- A field of the updated version that both branches share.
pub updated {ℓ} :
    {A : Type ℓ} (field : Version → A) (p : Version → Bool) (f : Version → Version)
    → ((v : Version) → field (f v) ≡ field v)
    → (v : Version) → field (if p v then f v else v) ≡ field v
updated field p f h v = if-elim (λ w. field w ≡ field v) (p v) (f v) v (h v) refl

set_meta-IsSound :
    (id : ℤ) (version tz : Text) (db : Db)
    → IsSound db
    → IsSound (update_versions (has_id id) (set_meta version tz) db)
set_meta-IsSound id version tz db s =
    map-IsSound g (updated (λ v. v.id) (has_id id) (set_meta version tz) (λ v. refl)) db
      (OneActive-map g (updated (λ v. v.id) (has_id id) (set_meta version tz) (λ v. refl)) active
        db.versions s.one_active)
      (All-map _ _ g db.versions (λ v h e. loaded v ∙ h (sym (active v) ∙ e)) s.active_loaded) s
  where
    g : Version → Version
    g v = if has_id id v then set_meta version tz v else v

    active : (v : Version) → (g v).active ≡ v.active
    active = updated (λ v. v.active) (has_id id) (set_meta version tz) (λ v. refl)

    loaded : (v : Version) → is_loaded (g v) ≡ is_loaded v
    loaded = updated is_loaded (has_id id) (set_meta version tz) (λ v. refl)

append_row-IsSound :
    (t : TableName) (id : ℤ) (r : Row) (db : Db)
    → known db.versions id ≡ true
    → IsSound db
    → IsSound (append_row t (id, r) db)
append_row-IsSound t id r db k s = record {
  below = s.below;
  apart = s.apart;
  one_active = s.one_active;
  active_loaded = s.active_loaded;
  rows_known = λ u.
      if-elim (All (λ ((i, r) : Stored). known db.versions i ≡ true)) (tag t == tag u)
        (db.rows t ++ ((id, r) ∷ [])) (db.rows u)
        (All-append _ (db.rows t) ((id, r) ∷ []) (s.rows_known t) (k, tt)) (s.rows_known u);
}

-- Sound tables that know the version.
abbrev pub IsReady : ℤ → Db → Type 0
IsReady id db = IsSound db × (known db.versions id ≡ true)

append_dated-IsReady :
    (t : TableName) (id : ℤ) (o : Outcome Row) (db : Db)
    → IsReady id db
    → IsReady id (append_dated t id o db)
append_dated-IsReady t id (err e) db h = h
append_dated-IsReady t id (ok r) db (s, k) = (append_row-IsSound t id r db k s, k)

put_call-IsReady : (id : ℤ) (c : Call) (db : Db) → IsReady id db → IsReady id (put_call id c db)
unfolding put_call
put_call-IsReady id (meta version tz) db (s, k) = (
  set_meta-IsSound id version tz db s,
  known-map _ (updated (λ v. v.id) (has_id id) (set_meta version tz) (λ v. refl)) db.versions id
      ∙ k,
)
put_call-IsReady id (route r) db (s, k) =
    (append_row-IsSound Versions.routes id (Versions.route_row r) db k s, k)
put_call-IsReady id (stop r) db (s, k) =
    (append_row-IsSound Versions.stops id (Versions.stop_row r) db k s, k)
put_call-IsReady id (trip r) db (s, k) =
    (append_row-IsSound Versions.trips id (Versions.trip_row r) db k s, k)
put_call-IsReady id (stop_time r) db (s, k) =
    (append_row-IsSound Versions.stop_times id (Versions.stop_time_row r) db k s, k)
put_call-IsReady id (calendar c) db h =
    append_dated-IsReady Versions.calendar id (calendar_of c) db h
put_call-IsReady id (calendar_date c) db h =
    append_dated-IsReady Versions.calendar_dates id (calendar_date_of c) db h

pub put_calls-IsReady :
    (id : ℤ) (cs : List Call) (db : Db) → IsReady id db → IsReady id (put_calls id cs db)
unfolding put_calls
put_calls-IsReady id [] db h = h
put_calls-IsReady id (c ∷ cs) db h =
    put_calls-IsReady id cs (put_call id c db) (put_call-IsReady id c db h)
