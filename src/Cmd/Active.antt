-- ===== src/Cmd/Active.antt =====
-- What internal/store/schedulerepo.go and queries.go read after loadStatic of
-- cmd/ridewatch/main.go has loaded a version.
use ridewatch.Base.{
  ℤ, Text, eqb_ℤ, eqb_ℤ_iff, ◌≡◌, refl, sym, ap, ◌∙◌, subst, append_assoc, append-nil, Bool, true,
  false, ◌&&◌, Bool-cases, inl, inr, Option, none, some, List, [], ◌∷◌, ◌++◌, map, keep, some_entry,
  All, arith, ◌==◌, if◌then◌else◌, if-elim, Outcome, ok, err, Err, ◌>>=◌,
}
use ridewatch.Domain.Types.{Time}
use ridewatch.Domain.Static.{Call, meta, route, stop, trip, stop_time, calendar, calendar_date}
use ridewatch.Store.Versions.{
  Version, TableName, Row, Stored, Db, tag, set_at, has_id, of_version, update_versions, set_loaded,
  deactivate, activate, insert_version, insert_unless, delete_version,
}
use ridewatch.Store.Versions
use ridewatch.Store.ScheduleLoad.{
  Opened, opened, exists, refused, calendar_of, calendar_date_of, unless, inserted, begin_load,
  fresh_version, old_version, found_version, new_schedule_load, Faults,
}
use ridewatch.Store.Direct.{append_row, append_dated, put_call, put_calls, publish_version, tag-≡}
use ridewatch.Store.Sound.{OneActive, known, IsSound, delete_version-IsSound}
use ridewatch.Store.SoundLoad.{known-map, updated, put_calls-IsReady}
use ridewatch.Store.SoundCommit.{
  publish_version-IsSound, IsOpenSound, new_schedule_load-IsOpenSound,
}
use ridewatch.Store.Published.{Below}
use ridewatch.Store.Reads.{active_version_id, one_row, rows_of}
use ridewatch.Cmd.StaticLoad.{
  Zip, Site, Loaded, loaded, unchanged, load_failed, split_list, download_all, load_static,
}
use ridewatch.Cmd.Direct.{calls_of, load_directly, direct_static, load_static-direct}

-- The rows that the calls are for, table by table.
abbrev pub row_of : Outcome Row → List Row
row_of (ok r) = r ∷ []
row_of (err e) = []

abbrev pub at_table : TableName → TableName → List Row → List Row
at_table t u rs = if tag u == tag t then rs else []

unfoldable pub call_rows : TableName → Call → List Row
call_rows t (meta version tz) = []
call_rows t (route r) = at_table t Versions.routes (Versions.route_row r ∷ [])
call_rows t (stop s) = at_table t Versions.stops (Versions.stop_row s ∷ [])
call_rows t (trip r) = at_table t Versions.trips (Versions.trip_row r ∷ [])
call_rows t (stop_time s) = at_table t Versions.stop_times (Versions.stop_time_row s ∷ [])
call_rows t (calendar c) = at_table t Versions.calendar (row_of (calendar_of c))
call_rows t (calendar_date c) = at_table t Versions.calendar_dates (row_of (calendar_date_of c))

unfoldable pub rows_for : TableName → List Call → List Row
rows_for t [] = []
rows_for t (c ∷ cs) = call_rows t c ++ rows_for t cs

rows_of-append :
    (id : ℤ) (rs : List Stored) (r : Row)
    → rows_of id (rs ++ ((id, r) ∷ [])) ≡ rows_of id rs ++ (r ∷ [])
unfolding rows_of of_version
rows_of-append id [] r = ground (arith, eqb_ℤ_iff id id)
rows_of-append id ((i, q) ∷ rs) r = ground (arith, rows_of-append id rs r)

rows_of-append_row :
    (id : ℤ) (t u : TableName) (r : Row) (db : Db)
    → rows_of id ((append_row u (id, r) db).rows t)
      ≡ rows_of id (db.rows t) ++ at_table t u (r ∷ [])
rows_of-append_row id t u r db = elim (Bool-cases (tag u == tag t)) [
  | inl e ↦
      rw e (
        rows_of-append id (db.rows u) r
        ∙ ap (λ v. rows_of id (db.rows v) ++ (r ∷ [])) (tag-≡ u t e))
  | inr e ↦ rw e (sym (append-nil (rows_of id (db.rows t))))
]

at_table_none : (t u : TableName) (rs : List Row) → rs ≡ rs ++ at_table t u []
at_table_none t u rs =
    if-elim (λ qs. rs ≡ rs ++ qs) (tag u == tag t) [] [] (sym (append-nil rs)) (sym (append-nil rs))

rows_of-append_dated :
    (id : ℤ) (t u : TableName) (o : Outcome Row) (db : Db)
    → rows_of id ((append_dated u id o db).rows t)
      ≡ rows_of id (db.rows t) ++ at_table t u (row_of o)
rows_of-append_dated id t u (ok r) db = rows_of-append_row id t u r db
rows_of-append_dated id t u (err e) db = at_table_none t u (rows_of id (db.rows t))

rows_of-put_call :
    (id : ℤ) (t : TableName) (c : Call) (db : Db)
    → rows_of id ((put_call id c db).rows t) ≡ rows_of id (db.rows t) ++ call_rows t c
unfolding put_call call_rows
rows_of-put_call id t (meta version tz) db = sym (append-nil (rows_of id (db.rows t)))
rows_of-put_call id t (route r) db =
    rows_of-append_row id t Versions.routes (Versions.route_row r) db
rows_of-put_call id t (stop s) db = rows_of-append_row id t Versions.stops (Versions.stop_row s) db
rows_of-put_call id t (trip r) db = rows_of-append_row id t Versions.trips (Versions.trip_row r) db
rows_of-put_call id t (stop_time s) db =
    rows_of-append_row id t Versions.stop_times (Versions.stop_time_row s) db
rows_of-put_call id t (calendar c) db =
    rows_of-append_dated id t Versions.calendar (calendar_of c) db
rows_of-put_call id t (calendar_date c) db =
    rows_of-append_dated id t Versions.calendar_dates (calendar_date_of c) db

rows_of-put_calls :
    (id : ℤ) (t : TableName) (cs : List Call) (db : Db)
    → rows_of id ((put_calls id cs db).rows t) ≡ rows_of id (db.rows t) ++ rows_for t cs
unfolding put_calls rows_for
rows_of-put_calls id t [] db = sym (append-nil (rows_of id (db.rows t)))
rows_of-put_calls id t (c ∷ cs) db =
    rows_of-put_calls id t cs (put_call id c db)
    ∙ ap (λ rs. rs ++ rows_for t cs) (rows_of-put_call id t c db)
    ∙ append_assoc (rows_of id (db.rows t)) (call_rows t c) (rows_for t cs)

-- An id that no version has is that of no row.
rows_of_unknown :
    (id : ℤ) (vs : List Version) (rs : List Stored)
    → known vs id ≡ false
    → All (λ ((i, r) : Stored). known vs i ≡ true) rs
    → rows_of id rs ≡ []
unfolding rows_of of_version
rows_of_unknown id vs [] h k = refl
rows_of_unknown id vs ((i, r) ∷ rs) h (k, ks) =
    let other : eqb_ℤ i id ≡ false = elim (Bool-cases (eqb_ℤ i id)) [
      | inl e ↦ let same : i ≡ id = (eqb_ℤ_iff i id).0 e in absurd (cc (ap (known vs) same))
      | inr e ↦ e
    ] in
    rw other (rows_of_unknown id vs rs h ks)

Below-known : (next : ℤ) (vs : List Version) → Below next vs → known vs next ≡ false
unfolding has_id
Below-known next [] h = refl
Below-known next (v ∷ vs) h = ground (arith, Below-known next vs, eqb_ℤ_iff v.id next)

none_active :
    (id : ℤ) (vs : List Version)
    → All (λ (v : Version). v.active ≡ false) vs
    → some_entry (λ (v : Version). v.active && has_id id v) vs ≡ false
none_active id [] a = refl
none_active id (v ∷ vs) a = ground (arith, none_active id vs)

-- The id of the only active version.
OneActive-id :
    (id : ℤ) (vs : List Version)
    → OneActive vs
    → some_entry (λ (v : Version). v.active && has_id id v) vs ≡ true
    → (one_row (keep (λ (v : Version). v.active) vs) >>= λ v. ok v.id) ≡ ok id
unfolding has_id
OneActive-id id [] o h = cc
OneActive-id id (v ∷ vs) (a, o) h = elim (Bool-cases v.active) [
  | inl e ↦ ground (arith, e, h, a, none_active id vs, eqb_ℤ_iff v.id id)
  | inr e ↦ ground (arith, e, h, OneActive-id id vs o)
]

activated_active :
    (id : ℤ) (vs : List Version)
    → known vs id ≡ true
    → some_entry
        (λ (v : Version). v.active && has_id id v)
        (map (λ v. if has_id id v then record v { active = true } else v) vs)
      ≡ true
unfolding has_id
activated_active id [] h = h
activated_active id (v ∷ vs) h = elim (Bool-cases (eqb_ℤ v.id id)) [
  | inl e ↦ rw (e, e) refl
  | inr e ↦ ground (arith, e, h, activated_active id vs)
]

publish_version-active :
    (now : Time) (id : ℤ) (db : Db)
    → known db.versions id ≡ true
    → some_entry (λ (v : Version). v.active && has_id id v) (publish_version now id db).versions
      ≡ true
unfolding publish_version activate deactivate set_loaded
publish_version-active now id db k =
    let vs = (set_loaded now id db).versions in
    activated_active id _ (
      known-map _
        (updated (λ v. v.id) (λ v. v.active) (λ v. record v { active = false }) (λ v. refl)) vs id
      ∙ known-map _
          (updated (λ v. v.id) (has_id id) (λ v. record v { loaded_at = some now }) (λ v. refl))
          db.versions id
      ∙ k)

-- No row is of the version that is opened.
abbrev IsOpenNew : Opened × Db → Type 0
IsOpenNew (opened l, db) = (t : TableName) → rows_of l.id (db.rows t) ≡ []
IsOpenNew (exists, db) = Unit
IsOpenNew (refused e, db) = Unit

unless-IsOpenNew :
    (o : Option Err) (db : Db) (k : Opened × Db) → IsOpenNew k → IsOpenNew (unless o db k)
unless-IsOpenNew (some e) db k h = tt
unless-IsOpenNew none db k h = h

fresh_version-IsOpenNew :
    (f : Faults) (sha : Text) (at : Time) (db : Db)
    → IsSound db
    → IsOpenNew (fresh_version f sha at db)
unfolding fresh_version insert_version begin_load
fresh_version-IsOpenNew f sha at db s = unless-IsOpenNew f.insert db _ (new_one _)
  where
    new_one :
        (b : Bool)
        → IsOpenNew (inserted f (insert_unless b (Versions.new_version db.next_id sha at) db))
    new_one true = tt
    new_one false = unless-IsOpenNew f.begin _ _ (λ t.
        rows_of_unknown db.next_id db.versions (db.rows t)
          (Below-known db.next_id db.versions s.below) (s.rows_known t))

new_schedule_load-IsOpenNew :
    (f : Faults) (sha : Text) (at : Time) (db : Db)
    → IsSound db
    → IsOpenNew (new_schedule_load f sha at db)
unfolding new_schedule_load found_version
new_schedule_load-IsOpenNew f sha at db s = unless-IsOpenNew f.lookup db _ (found _)
  where
    old : (o : Option Time) (id : ℤ) → IsOpenNew (old_version f sha at o id db)
    old (some t) id = tt
    old none id =
        unless-IsOpenNew f.delete_crashed db _
          (fresh_version-IsOpenNew f sha at (delete_version id db) (delete_version-IsSound id db s))

    found : (vs : List Version) → IsOpenNew (found_version f sha at vs db)
    found [] = fresh_version-IsOpenNew f sha at db s
    found (v ∷ vs) = old v.loaded_at v.id

publish_version-rows :
    (now : Time) (id : ℤ) (db : Db) (t : TableName)
    → rows_of id ((publish_version now id db).rows t) ≡ rows_of id (db.rows t)
unfolding publish_version activate deactivate set_loaded
publish_version-rows now id db t = refl

-- Readers find the version active, with the rows of the calls.
abbrev IsRead : Site → List Zip → Loaded × Db → Type 0
IsRead site zs (loaded id, db) =
    (active_version_id none db ≡ ok id)
    × ((t : TableName) → rows_of id (db.rows t) ≡ rows_for t (calls_of site.parse_float zs))
IsRead site zs (unchanged, db) = Unit
IsRead site zs (load_failed e, db) = Unit

load_directly-IsRead :
    (site : Site) (zs : List Zip) (o : Opened × Db)
    → IsOpenSound o
    → IsOpenNew o
    → IsRead site zs (load_directly site zs o)
unfolding active_version_id
load_directly-IsRead site zs (exists, db) s n = tt
load_directly-IsRead site zs (refused e, db) s n = tt
load_directly-IsRead site zs (opened l, db) s n =
    let cs = calls_of site.parse_float zs in
    let ready = put_calls-IsReady l.id cs db s in
    let sound = publish_version-IsSound site.now l.id _ ready.0 in
    (
      OneActive-id l.id _ sound.one_active (publish_version-active site.now l.id _ ready.1),
      λ t. rows_now t,
    )
  where
    rows_now :
        (t : TableName)
        → rows_of l.id (
            (publish_version site.now l.id (put_calls l.id (calls_of site.parse_float zs) db)).rows
              t)
          ≡ rows_for t (calls_of site.parse_float zs)
    rows_now t =
        publish_version-rows site.now l.id (put_calls l.id (calls_of site.parse_float zs) db) t
        ∙ rows_of-put_calls l.id t (calls_of site.parse_float zs) db
        ∙ ap (λ rs. rs ++ rows_for t (calls_of site.parse_float zs)) (n t)

-- After loadStatic has reported a version as loaded, a reader finds that version as the active
-- one, and in each table its rows are those of the calls that the downloaded zips lead to, in
-- their order and no others.
pub load_static-active :
    (site : Site) (db : Db) (id : ℤ) (u : Text) (us : List Text) (zips : List Zip)
    (shas : List Text)
    → IsSound db
    → split_list site.urls ≡ u ∷ us
    → download_all site.download (u ∷ us) ≡ ok (zips, shas)
    → (load_static site db).0 ≡ loaded id
    → (active_version_id none (load_static site db).1 ≡ ok id)
      × ((t : TableName)
          → rows_of id ((load_static site db).1.rows t)
            ≡ rows_for t (calls_of site.parse_float zips))
load_static-active site db id u us zips shas s e d h =
    read (load_static site db) h
      (subst (IsRead site zips) (sym (load_static-direct site db id h)) (direct_read e d))
  where
    direct_read :
        split_list site.urls ≡ u ∷ us
        → download_all site.download (u ∷ us) ≡ ok (zips, shas)
        → IsRead site zips (direct_static site db)
    direct_read e d =
        unfold direct_static in
        rw (e, d)
          (load_directly-IsRead site zips _
            (new_schedule_load-IsOpenSound site.faults _ site.now db s)
            (new_schedule_load-IsOpenNew site.faults _ site.now db s))

    read :
        (r : Loaded × Db)
        → r.0 ≡ loaded id
        → IsRead site zips r
        → (active_version_id none r.1 ≡ ok id)
          × ((t : TableName)
              → rows_of id (r.1.rows t) ≡ rows_for t (calls_of site.parse_float zips))
    read (loaded n, db') q x =
        let same : n ≡ id = ground arith in
        subst
          (λ (m : ℤ).
            (active_version_id none db' ≡ ok m)
            × ((t : TableName)
                → rows_of m (db'.rows t) ≡ rows_for t (calls_of site.parse_float zips)))
          same x
    read (unchanged, db') q x = absurd (ground arith)
    read (load_failed e', db') q x = absurd (ground arith)
