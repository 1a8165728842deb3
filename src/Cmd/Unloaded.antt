-- ===== src/Cmd/Unloaded.antt =====
-- loadStatic of cmd/ridewatch/main.go where it loads nothing: what readers see of the schedules.
use ridewatch.Base.{
  ℤ, Text, ◌≡◌, ◌≢◌, refl, sym, ap, subst, ◌∙◌, Option, none, some, List, [], ◌∷◌, Outcome, ok, err,
  Err, if-elim,
}
use ridewatch.Domain.Types.{Time}
use ridewatch.Static.Zip.{parse_zip}
use ridewatch.Static.Script.{Script, zip_script}
use ridewatch.Static.MetaFirst.{parse_zip-perform}
use ridewatch.Store.Versions.{Db, delete_version}
use ridewatch.Store.ScheduleLoad.{
  Faults, Load, Opened, opened, exists, refused, new_schedule_load, write, flush_all, copy_tables,
  refusal, committed, finish_commit, after_flush, commit, delete_aborted, abort,
}
use ridewatch.Store.SameVersion.{perform_calls-id, flush_all-id}
use ridewatch.Store.Published.{published, Below, IdsApart, delete_version-published}
use ridewatch.Store.Opening.{IsUnseen, new_schedule_load-IsUnseen}
use ridewatch.Cmd.StaticLoad.{
  Zip, Site, Loaded, loaded, unchanged, load_failed, next_zip, parse_zips, give_up, after_commit,
  after_parse, run_load, after_download, with_urls, download_all, split_list, load_static,
  version_sha,
}

module _ (f : Faults) where
  -- A commit that fails leaves the tables, and its load the version.
  abbrev IsUncommitted : Load → Db → Outcome ℤ × Load × Db → Type 0
  IsUncommitted l db (ok id, k, db') = Unit
  IsUncommitted l db (err e, k, db') = (k.id ≡ l.id) × (db' ≡ db)

  commit-IsUncommitted : (now : Time) (l : Load) (db : Db) → IsUncommitted l db (commit f now l db)
  unfolding commit finish_commit
  commit-IsUncommitted now l db =
      if-elim (IsUncommitted l db) l.finished _ _ (refl, refl)
        (flushed (flush_all f copy_tables l) (flush_all-id f copy_tables l))
    where
      finished :
          (k : Load) (o : Option Err) → k.id ≡ l.id → IsUncommitted l db (committed o now k db)
      finished k (some e) h = (h, refl)
      finished k none h = tt

      flushed :
          (r : Outcome (Unit {0}) × Load)
          → r.1.id ≡ l.id
          → IsUncommitted l db (after_flush f now r db)
      flushed (err e, k) h = (h, refl)
      flushed (ok u, k) h =
          finished k (refusal f.set_loaded (refusal f.deactivate (refusal f.activate f.commit))) h

  -- An abort leaves the tables or deletes the version.
  abort-either :
      (P : Db → Type 0) (l : Load) (db : Db)
      → P db
      → P (delete_version l.id db)
      → P (abort f l db).2
  unfolding abort delete_aborted
  abort-either P l db h d =
      if-elim (λ (r : Option Err × Load × Db). P r.2) l.finished _ _ h (deleted f.delete_aborted)
    where
      deleted : (o : Option Err) → P (delete_aborted o l.id db)
      deleted (some e) = h
      deleted none = d

-- The tables satisfy a predicate, unless the load is committed.
abbrev pub Keeps : (Db → Type 0) → Loaded × Db → Type 0
Keeps P (loaded id, db) = Unit
Keeps P (unchanged, db) = P db
Keeps P (load_failed e, db) = P db

-- The tables after NewScheduleLoad satisfy it, also without the version that it opens.
abbrev pub IsOpen : (Db → Type 0) → Opened × Db → Type 0
IsOpen P (opened l, db) = P db × P (delete_version l.id db)
IsOpen P (exists, db) = P db
IsOpen P (refused e, db) = P db

module _ (site : Site) where
  pub parse_zips-id : (zs : List Zip) (l : Load) → (parse_zips site zs l).1.id ≡ l.id
  unfolding parse_zips
  parse_zips-id [] l = refl
  parse_zips-id (z ∷ zs) l =
      next (parse_zip site.parse_float (write site.faults) z l) (parse_zips-id zs) parsed
    where
      script : Script
      script = zip_script site.parse_float z

      parsed : (parse_zip site.parse_float (write site.faults) z l).1.id ≡ l.id
      parsed =
          ap (λ (r : Outcome (Unit {0}) × Load). r.1.id)
            ((parse_zip-perform site.parse_float z).1 Load (write site.faults) l)
          ∙ perform_calls-id site.faults script.calls script.end l

      next :
          (r : Outcome (Unit {0}) × Load)
          → ((k : Load) → (parse_zips site zs k).1.id ≡ k.id)
          → r.1.id ≡ l.id
          → (next_zip r (parse_zips site zs)).1.id ≡ l.id
      next (ok u, k) ih h = ih k ∙ h
      next (err e, k) ih h = h

  module _ (P : Db → Type 0) where
    give_up-Keeps :
        (e : Err) (l : Load) (db : Db)
        → P db
        → P (delete_version l.id db)
        → Keeps P (give_up site e l db)
    unfolding give_up
    give_up-Keeps e l db h d = abort-either site.faults P l db h d

    after_commit-Keeps :
        (r : Outcome ℤ × Load × Db) (l : Load) (db : Db)
        → P db
        → P (delete_version l.id db)
        → IsUncommitted site.faults l db r
        → Keeps P (after_commit site r)
    after_commit-Keeps (ok n, k, db') l db h d c = tt
    after_commit-Keeps (err e, k, db') l db h d (same, left) =
        give_up-Keeps e k db' (subst P (sym left) h)
          (subst P (sym (λ i. delete_version (same i) (left i))) d)

    after_parse-Keeps :
        (r : Outcome (Unit {0}) × Load) (db : Db)
        → P db
        → P (delete_version r.1.id db)
        → Keeps P (after_parse site r db)
    after_parse-Keeps (err e, l) db h d = give_up-Keeps e l db h d
    after_parse-Keeps (ok t, l) db h d =
        after_commit-Keeps _ l db h d (commit-IsUncommitted site.faults site.now l db)

    run_load-Keeps : (zs : List Zip) (o : Opened × Db) → IsOpen P o → Keeps P (run_load site zs o)
    run_load-Keeps zs (opened l, db) (h, d) =
        after_parse-Keeps (parse_zips site zs l) db h
          (subst (λ id. P (delete_version id db)) (sym (parse_zips-id zs l)) d)
    run_load-Keeps zs (exists, db) h = h
    run_load-Keeps zs (refused e, db) h = h

    pub load_static-Keeps :
        (db : Db)
        → P db
        → ((sha : Text) → IsOpen P (new_schedule_load site.faults sha site.now db))
        → Keeps P (load_static site db)
    unfolding load_static
    load_static-Keeps db h open_ = with_list (split_list site.urls)
      where
        downloaded : (o : Outcome (List Zip × List Text)) → Keeps P (after_download site o db)
        downloaded (err e) = h
        downloaded (ok (zs, shas)) = run_load-Keeps zs _ (open_ (version_sha site.sha256_hex shas))

        with_list : (us : List Text) → Keeps P (with_urls site us db)
        with_list [] = h
        with_list (u ∷ us) = downloaded (download_all site.download (u ∷ us))

-- A version that is not seen can go.
IsUnseen-IsOpen :
    (db : Db) (o : Opened × Db) → IsUnseen db o → IsOpen (λ d. published d ≡ published db) o
IsUnseen-IsOpen db (opened l, db') (h, u) = (h, delete_version-published l.id db' u ∙ h)
IsUnseen-IsOpen db (exists, db') h = h
IsUnseen-IsOpen db (refused e, db') h = h

-- Where loadStatic does not report a version as loaded, whichever download, file, statement or
-- commit failed and where the schedule was there already, readers find the loaded versions, the
-- active one among them, and their rows as they were. Two versions have two ids, below the next.
pub load_static-published :
    (site : Site) (db : Db)
    → Below db.next_id db.versions
    → IdsApart db.versions
    → ((id : ℤ) → (load_static site db).0 ≢ loaded id)
    → published (load_static site db).1 ≡ published db
load_static-published site db b apart = kept (load_static site db) (
    load_static-Keeps site (λ d. published d ≡ published db) db refl
      (λ sha.
        IsUnseen-IsOpen db _ (new_schedule_load-IsUnseen site.faults sha site.now db b apart)))
  where
    kept :
        (r : Loaded × Db)
        → Keeps (λ d. published d ≡ published db) r
        → ((id : ℤ) → r.0 ≢ loaded id)
        → published r.1 ≡ published db
    kept (loaded id, db') h n = absurd (n id refl)
    kept (unchanged, db') h n = h
    kept (load_failed e, db') h n = h
