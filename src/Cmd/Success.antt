-- ===== src/Cmd/Success.antt =====
-- loadStatic of cmd/ridewatch/main.go where every statement succeeds.
use ridewatch.Base.{
  ℕ, ℤ, Text, text_eq, text_eq_iff, eqb_ℤ_iff, ◌≡◌, refl, sym, ap, ◌∙◌, subst, Bool, true, false,
  not, Bool-cases, inl, inr, Option, none, some, List, [], ◌∷◌, ◌++◌, keep, some_entry, All, length,
  ltb, arith, if-elim, if-split, Outcome, ok, err,
}
use ridewatch.Domain.Types.{Time}
use ridewatch.Domain.Static.{Call, meta, route, stop, trip, stop_time, calendar, calendar_date}
use ridewatch.Static.Rows.{after_call}
use ridewatch.Static.Script.{Script, perform_calls, zip_script}
use ridewatch.Static.Zip.{parse_zip}
use ridewatch.Static.MetaFirst.{parse_zip-perform}
use ridewatch.Store.Versions.{
  Version, TableName, Row, Stored, Db, set_at, has_id, has_sha, delete_version, insert_version,
  insert_unless,
}
use ridewatch.Store.Versions
use ridewatch.Store.ScheduleLoad.{
  Faults, Load, Opened, opened, exists, refused, new_schedule_load, begin_load, inserted,
  fresh_version, old_version, found_version, write, flush_rows, flush, maybe_flush, add_row,
  add_dated, calendar_of, calendar_date_of, next_flush, flush_all, copy_tables, after_flush,
  finish_commit, commit, copy_batch_size,
}
use ridewatch.Cmd.StaticLoad.{
  Zip, Site, Loaded, loaded, next_zip, parse_zips, after_commit, after_parse, run_load,
  download_all, split_list, load_static, version_sha,
}
use ridewatch.Store.SameVersion.{flush_all-id}
use ridewatch.Cmd.Unloaded.{parse_zips-id}

-- Every statement succeeds.
abbrev pub no_faults : Faults
no_faults = record {
  lookup = none;
  delete_crashed = none;
  insert = none;
  begin = none;
  meta = none;
  copy = λ t rs. none;
  set_loaded = none;
  deactivate = none;
  activate = none;
  commit = none;
  rollback = none;
  delete_aborted = none;
}

abbrev pub is_ok {ℓ} : {A : Type ℓ} → Outcome A → Bool
is_ok (ok a) = true
is_ok (err e) = false

-- The dates of a call are dates.
abbrev pub dated : Call → Bool
dated (calendar c) = is_ok (calendar_of c)
dated (calendar_date c) = is_ok (calendar_date_of c)
dated c = true

-- A zip that is read to its end.
pub record IsReadable (parse_float : Text → Outcome ℕ) (z : Zip) : Type 0 where
  pub read : (zip_script parse_float z).end ≡ ok tt
  pub calls_dated : All (λ c. dated c ≡ true) (zip_script parse_float z).calls

-- The load goes on, and is no more finished than it was.
abbrev GoesOn : Load → Outcome (Unit {0}) × Load → Type 0
GoesOn l (ok u, k) = k.finished ≡ l.finished
GoesOn l (err e, k) = ⊥

GoesOn-after :
    (l k : Load) (r : Outcome (Unit {0}) × Load) → k.finished ≡ l.finished → GoesOn k r → GoesOn l r
GoesOn-after l k (ok u, m) e g = g ∙ e
GoesOn-after l k (err x, m) e g = g

flush-GoesOn : (t : TableName) (l : Load) → GoesOn l (flush no_faults t l)
unfolding flush
flush-GoesOn t l = rows (l.buffers t)
  where
    rows : (rs : List Stored) → GoesOn l (flush_rows no_faults t rs l)
    rows [] = refl
    rows (r ∷ rs) = refl

maybe_flush-GoesOn : (t : TableName) (l : Load) → GoesOn l (maybe_flush no_faults t l)
unfolding maybe_flush
maybe_flush-GoesOn t l =
    if-elim (GoesOn l) (ltb (length (l.buffers t)) copy_batch_size) (ok tt, l) (flush no_faults t l)
      refl (flush-GoesOn t l)

add_row-GoesOn : (t : TableName) (r : Row) (l : Load) → GoesOn l (add_row no_faults t r l)
unfolding add_row
add_row-GoesOn t r l =
    maybe_flush-GoesOn t
      (record l { buffers = set_at t (l.buffers t ++ ((l.id, r) ∷ [])) l.buffers })

add_dated-GoesOn :
    (t : TableName) (o : Outcome Row) (l : Load)
    → is_ok o ≡ true
    → GoesOn l (add_dated no_faults t o l)
add_dated-GoesOn t (ok r) l h = add_row-GoesOn t r l
add_dated-GoesOn t (err e) l h = absurd (ground arith)

write-GoesOn : (c : Call) (l : Load) → dated c ≡ true → GoesOn l (write no_faults c l)
unfolding write
write-GoesOn (meta version tz) l h = refl
write-GoesOn (route r) l h = add_row-GoesOn Versions.routes (Versions.route_row r) l
write-GoesOn (stop s) l h = add_row-GoesOn Versions.stops (Versions.stop_row s) l
write-GoesOn (trip t) l h = add_row-GoesOn Versions.trips (Versions.trip_row t) l
write-GoesOn (stop_time s) l h = add_row-GoesOn Versions.stop_times (Versions.stop_time_row s) l
write-GoesOn (calendar c) l h = add_dated-GoesOn Versions.calendar (calendar_of c) l h
write-GoesOn (calendar_date c) l h =
    add_dated-GoesOn Versions.calendar_dates (calendar_date_of c) l h

perform_calls-GoesOn :
    (cs : List Call) (l : Load)
    → All (λ c. dated c ≡ true) cs
    → GoesOn l (perform_calls (write no_faults) cs (ok tt) l)
perform_calls-GoesOn [] l h = refl
perform_calls-GoesOn (c ∷ cs) l (h, hs) =
    next (write no_faults c l) (write-GoesOn c l h) (λ k. perform_calls-GoesOn cs k hs)
  where
    next :
        (r : Outcome (Unit {0}) × Load)
        → GoesOn l r
        → ((k : Load) → GoesOn k (perform_calls (write no_faults) cs (ok tt) k))
        → GoesOn l (after_call (write no_faults) r (perform_calls (write no_faults) cs (ok tt)))
    next (ok u, k) g ih = GoesOn-after l k _ g (ih k)
    next (err e, k) g ih = g

flush_all-GoesOn : (ts : List TableName) (l : Load) → GoesOn l (flush_all no_faults ts l)
unfolding flush_all
flush_all-GoesOn [] l = refl
flush_all-GoesOn (t ∷ ts) l = next (flush no_faults t l) (flush-GoesOn t l) (flush_all-GoesOn ts)
  where
    next :
        (r : Outcome (Unit {0}) × Load)
        → GoesOn l r
        → ((k : Load) → GoesOn k (flush_all no_faults ts k))
        → GoesOn l (next_flush r (flush_all no_faults ts))
    next (ok u, k) g ih = GoesOn-after l k _ g (ih k)
    next (err e, k) g ih = g

-- A load of the version, and not finished.
abbrev IsOpened : ℤ → Opened × Db → Type 0
IsOpened id (opened l, db) = (l.id ≡ id) × (l.finished ≡ false)
IsOpened id (exists, db) = ⊥
IsOpened id (refused e, db) = ⊥

abbrev IsLoaded : ℤ → Loaded × Db → Type 0
IsLoaded id r = r.0 ≡ loaded id

fresh_version-IsOpened :
    (sha : Text) (at : Time) (db : Db)
    → some_entry (has_sha sha) db.versions ≡ false
    → IsOpened db.next_id (fresh_version no_faults sha at db)
unfolding fresh_version insert_version begin_load
fresh_version-IsOpened sha at db h = inserted_one _ h
  where
    inserted_one :
        (b : Bool)
        → b ≡ false
        → IsOpened db.next_id
            (inserted no_faults (insert_unless b (Versions.new_version db.next_id sha at) db))
    inserted_one false e = (refl, refl)
    inserted_one true e = absurd (ground (arith, e))

-- Two versions have two hashes.
abbrev pub ShasApart : List Version → Type 0
ShasApart [] = Unit
ShasApart (v ∷ vs) = All (λ (w : Version). text_eq w.sha256 v.sha256 ≡ false) vs × ShasApart vs

none_kept : (p : Version → Bool) (vs : List Version) → keep p vs ≡ [] → some_entry p vs ≡ false
none_kept p [] h = refl
none_kept p (v ∷ vs) h = ground (arith, none_kept p vs, h)

other_shas :
    (sha : Text) (id : ℤ) (v : Version) (vs : List Version)
    → has_sha sha v ≡ true
    → All (λ (w : Version). text_eq w.sha256 v.sha256 ≡ false) vs
    → some_entry (has_sha sha) (keep (λ w. not (has_id id w)) vs) ≡ false
unfolding has_sha
other_shas sha id v [] e h = refl
other_shas sha id v (w ∷ ws) e (h, hs) = ground (
  arith,
  other_shas sha id v ws e hs,
  text_eq_iff v.sha256 sha,
  text_eq_iff w.sha256 sha,
  text_eq_iff w.sha256 v.sha256,
)

own_id : {v w : Version} → w ≡ v → has_id v.id w ≡ true
unfolding has_id
own_id {v} {w} same = ground (arith, ap (λ (u : Version). u.id) same, eqb_ℤ_iff w.id v.id)

-- Without the version of a hash no other has it.
deleted_sha :
    (sha : Text) (v : Version) (vs ws : List Version)
    → ShasApart ws
    → keep (has_sha sha) ws ≡ v ∷ vs
    → some_entry (has_sha sha) (keep (λ w. not (has_id v.id w)) ws) ≡ false
deleted_sha sha v vs [] a e = refl
deleted_sha sha v vs (w ∷ ws) (a, as_) e = elim (Bool-cases (has_sha sha w)) [
  | inl y ↦
      let same : w ≡ v = ground arith in
      let gone : has_id v.id w ≡ true = own_id same in
      ground (arith, gone, other_shas sha v.id w ws y a)
  | inr n ↦
      let later : keep (has_sha sha) ws ≡ v ∷ vs = ground (arith, n, e) in
      ground (arith, n, deleted_sha sha v vs ws as_ later)
]

first_unloaded :
    (sha : Text) (v : Version) (vs ws : List Version)
    → keep (has_sha sha) ws ≡ v ∷ vs
    → All (λ (w : Version). has_sha sha w ≡ true → w.loaded_at ≡ none) ws
    → v.loaded_at ≡ none
first_unloaded sha v vs [] e h = absurd (ground (arith, e))
first_unloaded sha v vs (w ∷ ws) e (h, hs) = elim (Bool-cases (has_sha sha w)) [
  | inl y ↦
      let same : w ≡ v = ground arith in subst (λ (u : Version). u.loaded_at ≡ none) same (h y)
  | inr n ↦
      let later : keep (has_sha sha) ws ≡ v ∷ vs = ground (arith, n, e) in
      first_unloaded sha v vs ws later hs
]

-- Where no version of the hash is loaded, a load of it is opened, also after one that crashed.
new_schedule_load-IsOpened :
    (sha : Text) (at : Time) (db : Db)
    → ShasApart db.versions
    → All (λ (v : Version). has_sha sha v ≡ true → v.loaded_at ≡ none) db.versions
    → IsOpened db.next_id (new_schedule_load no_faults sha at db)
unfolding new_schedule_load found_version delete_version
new_schedule_load-IsOpened sha at db a h = found (keep (has_sha sha) db.versions) refl
  where
    old :
        (v : Version) (vs : List Version)
        → keep (has_sha sha) db.versions ≡ v ∷ vs
        → (o : Option Time) → o ≡ none
        → IsOpened db.next_id (old_version no_faults sha at o v.id db)
    old v vs e (some t) n = absurd (ground (arith, n))
    old v vs e none n =
        fresh_version-IsOpened sha at (delete_version v.id db)
          (deleted_sha sha v vs db.versions a e)

    found :
        (vs : List Version)
        → keep (has_sha sha) db.versions ≡ vs
        → IsOpened db.next_id (found_version no_faults sha at vs db)
    found [] e = fresh_version-IsOpened sha at db (none_kept (has_sha sha) db.versions e)
    found (v ∷ vs) e = old v vs e v.loaded_at (first_unloaded sha v vs db.versions e h)

module _ (site : Site) where
  -- The site, where every statement succeeds.
  working : Site
  working = record site { faults = no_faults }

  parse_zips-GoesOn :
      (zs : List Zip) (l : Load)
      → All (IsReadable site.parse_float) zs
      → GoesOn l (parse_zips working zs l)
  unfolding parse_zips working
  parse_zips-GoesOn [] l h = refl
  parse_zips-GoesOn (z ∷ zs) l (h, hs) =
      next (parse_zip site.parse_float (write no_faults) z l) parsed
        (λ k. parse_zips-GoesOn zs k hs)
    where
      script : Script
      script = zip_script site.parse_float z

      parsed : GoesOn l (parse_zip site.parse_float (write no_faults) z l)
      parsed =
          subst (GoesOn l) (sym ((parse_zip-perform site.parse_float z).1 Load (write no_faults) l))
            (subst (λ o. GoesOn l (perform_calls (write no_faults) script.calls o l)) (sym h.read)
              (perform_calls-GoesOn script.calls l h.calls_dated))

      next :
          (r : Outcome (Unit {0}) × Load)
          → GoesOn l r
          → ((k : Load) → GoesOn k (parse_zips working zs k))
          → GoesOn l (next_zip r (parse_zips working zs))
      next (ok u, k) g ih = GoesOn-after l k _ g (ih k)
      next (err e, k) g ih = g

  commit-IsLoaded :
      (l : Load) (db : Db) (id : ℤ)
      → l.id ≡ id
      → l.finished ≡ false
      → IsLoaded id (after_commit working (commit no_faults site.now l db))
  unfolding commit finish_commit working
  commit-IsLoaded l db id i n =
      if-split (λ (r : Outcome ℤ × Load × Db). IsLoaded id (after_commit working r)) l.finished _ _
        (λ e. absurd (ground (arith, e, n)))
        (λ e.
          flushed (flush_all no_faults copy_tables l) (flush_all-GoesOn copy_tables l)
            (flush_all-id no_faults copy_tables l))
    where
      flushed :
          (r : Outcome (Unit {0}) × Load)
          → GoesOn l r
          → r.1.id ≡ l.id
          → IsLoaded id (after_commit working (after_flush no_faults site.now r db))
      flushed (ok u, k) g j = ap loaded (j ∙ i)
      flushed (err e, k) g j = elim g [ ]

  run_load-IsLoaded :
      (zs : List Zip) (o : Opened × Db) (id : ℤ)
      → All (IsReadable site.parse_float) zs
      → IsOpened id o
      → IsLoaded id (run_load working zs o)
  unfolding working
  run_load-IsLoaded zs (opened l, db) id h (i, n) =
      parsed (parse_zips working zs l) (parse_zips-GoesOn zs l h) (parse_zips-id working zs l)
    where
      parsed :
          (r : Outcome (Unit {0}) × Load)
          → GoesOn l r
          → r.1.id ≡ l.id
          → IsLoaded id (after_parse working r db)
      parsed (ok u, k) g j = commit-IsLoaded k db id (j ∙ i) (g ∙ n)
      parsed (err e, k) g j = elim g [ ]
  run_load-IsLoaded zs (exists, db) id h o = elim o [ ]
  run_load-IsLoaded zs (refused e, db) id h o = elim o [ ]

-- Where every statement succeeds, each URL is downloaded, each zip is read to its end with dates
-- in its calendars and no version of the hash is loaded, loadStatic reports the next id as loaded.
-- A version of the hash that an earlier load left unloaded does not keep it from that.
pub load_static-loaded :
    (site : Site) (db : Db) (u : Text) (us : List Text) (zips : List Zip) (shas : List Text)
    → split_list site.urls ≡ u ∷ us
    → download_all site.download (u ∷ us) ≡ ok (zips, shas)
    → All (IsReadable site.parse_float) zips
    → ShasApart db.versions
    → All
        (λ (v : Version). has_sha (version_sha site.sha256_hex shas) v ≡ true → v.loaded_at ≡ none)
        db.versions
    → (load_static (record site { faults = no_faults }) db).0 ≡ loaded db.next_id
unfolding load_static working
load_static-loaded site db u us zips shas s d r a h =
    rw (s, d)
      (run_load-IsLoaded site zips _ db.next_id r
        (new_schedule_load-IsOpened (version_sha site.sha256_hex shas) site.now db a h))
