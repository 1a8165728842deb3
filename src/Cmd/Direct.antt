-- ===== src/Cmd/Direct.antt =====
-- loadStatic of cmd/ridewatch/main.go without the buffers of the load and without the readers'
-- copy of the zips: the calls that the zips lead to, each a statement on the tables.
use ridewatch.Base.{
  ℕ, ℤ, Text, ◌≡◌, refl, sym, ap, ◌∙◌, subst, fun_ext, append-nil, Bool, true, false, if-elim,
  Option, none, some, List, [], ◌∷◌, ◌++◌, Outcome, ok, err, Err, failed, arith,
}
use ridewatch.Domain.Types.{Time}
use ridewatch.Domain.Static.{Call}
use ridewatch.Static.Script.{zip_script}
use ridewatch.Static.Zip.{parse_zip}
use ridewatch.Static.MetaFirst.{parse_zip-perform}
use ridewatch.Store.Versions.{Version, Db, delete_version, insert_version, insert_unless}
use ridewatch.Store.ScheduleLoad.{
  Faults, Load, Opened, opened, exists, refused, unless, begin_load, inserted, fresh_version,
  old_version, found_version, new_schedule_load, write, flush_all, copy_tables, committed,
  finish_commit, after_flush, commit,
}
use ridewatch.Store.SameVersion.{perform_calls-id, flush_all-id}
use ridewatch.Store.Direct.{
  publish_version, put_calls, put_call, whole, IsWritten, IsWritten-≡, perform_calls-IsWritten,
}
use ridewatch.Store.Flushing.{IsFlushed, flush_all-IsFlushed}
use ridewatch.Cmd.StaticLoad.{
  Zip, Site, Loaded, loaded, unchanged, load_failed, next_zip, parse_zips, give_up, after_commit,
  after_parse, run_load, after_download, with_urls, download_all, split_list, load_static,
  version_sha,
}
use ridewatch.Cmd.Unloaded.{parse_zips-id}

-- The calls of all zips.
unfoldable pub calls_of : (Text → Outcome ℕ) → List Zip → List Call
calls_of parse_float [] = []
calls_of parse_float (z ∷ zs) = (zip_script parse_float z).calls ++ calls_of parse_float zs

abbrev pub load_directly : Site → List Zip → Opened × Db → Loaded × Db
load_directly site zs (opened l, db) =
    (loaded l.id, publish_version site.now l.id (put_calls l.id (calls_of site.parse_float zs) db))
load_directly site zs (exists, db) = (unchanged, db)
load_directly site zs (refused e, db) = (load_failed e, db)

abbrev pub downloaded_directly : Site → Outcome (List Zip × List Text) → Db → Loaded × Db
downloaded_directly site (err e) db = (load_failed e, db)
downloaded_directly site (ok (zips, shas)) db =
    load_directly site zips
      (new_schedule_load site.faults (version_sha site.sha256_hex shas) site.now db)

abbrev pub listed_directly : Site → List Text → Db → Loaded × Db
listed_directly site [] db = (load_failed failed, db)
listed_directly site (u ∷ us) db = downloaded_directly site (download_all site.download (u ∷ us)) db

-- loadStatic where nothing fails once the load has begun.
unfoldable pub direct_static : Site → Db → Loaded × Db
direct_static site db = listed_directly site (split_list site.urls) db

put_calls-append :
    (id : ℤ) (cs ds : List Call) (db : Db)
    → put_calls id (cs ++ ds) db ≡ put_calls id ds (put_calls id cs db)
unfolding put_calls
put_calls-append id [] ds db = refl
put_calls-append id (c ∷ cs) ds db = put_calls-append id cs ds (put_call id c db)

-- A load that is begun has written what is in the tables.
abbrev IsBegun : Opened × Db → Type 0
IsBegun (opened l, db) = whole l ≡ db
IsBegun (exists, db) = Unit
IsBegun (refused e, db) = Unit

unless-IsBegun : (o : Option Err) (db : Db) (k : Opened × Db) → IsBegun k → IsBegun (unless o db k)
unless-IsBegun (some e) db k h = tt
unless-IsBegun none db k h = h

begin_load-IsBegun : (o : Option Err) (id : ℤ) (db : Db) → IsBegun (begin_load o id db)
unfolding begin_load
begin_load-IsBegun o id db =
    unless-IsBegun o db _ (λ i. record db { rows = fun_ext (λ t. append-nil (db.rows t)) i })

inserted-IsBegun :
    (f : Faults) (b : Bool) (v : Version) (db : Db) → IsBegun (inserted f (insert_unless b v db))
inserted-IsBegun f true v db = tt
inserted-IsBegun f false v db = begin_load-IsBegun f.begin v.id _

fresh_version-IsBegun :
    (f : Faults) (sha : Text) (at : Time) (db : Db) → IsBegun (fresh_version f sha at db)
unfolding fresh_version insert_version
fresh_version-IsBegun f sha at db = unless-IsBegun f.insert db _ (inserted-IsBegun f _ _ db)

new_schedule_load-IsBegun :
    (f : Faults) (sha : Text) (at : Time) (db : Db) → IsBegun (new_schedule_load f sha at db)
unfolding new_schedule_load found_version
new_schedule_load-IsBegun f sha at db = unless-IsBegun f.lookup db _ (found _)
  where
    old : (o : Option Time) (id : ℤ) → IsBegun (old_version f sha at o id db)
    old (some t) id = tt
    old none id =
        unless-IsBegun f.delete_crashed db _ (fresh_version-IsBegun f sha at (delete_version id db))

    found : (vs : List Version) → IsBegun (found_version f sha at vs db)
    found [] = fresh_version-IsBegun f sha at db
    found (v ∷ vs) = old v.loaded_at v.id

module _ (site : Site) where
  parse_zips-IsWritten :
      (zs : List Zip) (l : Load)
      → IsWritten (put_calls l.id (calls_of site.parse_float zs) (whole l)) (parse_zips site zs l)
  unfolding parse_zips calls_of put_calls
  parse_zips-IsWritten [] l = refl
  parse_zips-IsWritten (z ∷ zs) l =
      let script = zip_script site.parse_float z in
      let performed = (parse_zip-perform site.parse_float z).1 Load (write site.faults) l in
      next (parse_zip site.parse_float (write site.faults) z l) (parse_zips-IsWritten zs)
        (subst (IsWritten (put_calls l.id script.calls (whole l))) (sym performed)
          (perform_calls-IsWritten site.faults script.calls script.end l))
        (ap (λ (r : Outcome (Unit {0}) × Load). r.1.id) performed
          ∙ perform_calls-id site.faults script.calls script.end l)
    where
      now : List Call
      now = (zip_script site.parse_float z).calls

      later : List Call
      later = calls_of site.parse_float zs

      next :
          (r : Outcome (Unit {0}) × Load)
          → ((k : Load) → IsWritten (put_calls k.id later (whole k)) (parse_zips site zs k))
          → IsWritten (put_calls l.id now (whole l)) r
          → r.1.id ≡ l.id
          → IsWritten (put_calls l.id (now ++ later) (whole l)) (next_zip r (parse_zips site zs))
      next (err e, k) ih h i = tt
      next (ok u, k) ih h i =
          IsWritten-≡ site.faults (parse_zips site zs k) _ _ (ih k)
            ((λ j. put_calls (i j) later (h j)) ∙ sym (put_calls-append l.id now later (whole l)))

  -- A result that is a version is that of the direct load.
  abbrev IsDirect : Loaded × Db → Loaded × Db → Type 0
  IsDirect r (loaded id, db) = (loaded id, db) ≡ r
  IsDirect r (unchanged, db) = Unit
  IsDirect r (load_failed e, db) = Unit

  give_up-IsDirect :
      (r : Loaded × Db) (e : Err) (l : Load) (db : Db) → IsDirect r (give_up site e l db)
  unfolding give_up
  give_up-IsDirect r e l db = tt

  commit-IsDirect :
      (l : Load) (db db' : Db) (id : ℤ)
      → l.id ≡ id
      → whole l ≡ db'
      → IsDirect
          (loaded id, publish_version site.now id db')
          (after_commit site (commit site.faults site.now l db))
  unfolding commit finish_commit publish_version
  commit-IsDirect l db db' id i h =
      if-elim (λ (r : Outcome ℤ × Load × Db). IsDirect direct (after_commit site r)) l.finished _ _
        (give_up-IsDirect direct _ l db)
        (flushed (flush_all site.faults copy_tables l) (flush_all-IsFlushed site.faults l)
          (flush_all-id site.faults copy_tables l))
    where
      direct : Loaded × Db
      direct = (loaded id, publish_version site.now id db')

      finished :
          (o : Option Err) (k : Load)
          → k.tx ≡ db'
          → k.id ≡ id
          → IsDirect direct (after_commit site (committed o site.now k db))
      finished (some e) k g j = give_up-IsDirect direct e k db
      finished none k g j = λ n. (loaded (j n), publish_version site.now (j n) (g n))

      flushed :
          (r : Outcome (Unit {0}) × Load)
          → IsFlushed site.faults (whole l) r
          → r.1.id ≡ l.id
          → IsDirect direct (after_commit site (after_flush site.faults site.now r db))
      flushed (err e, k) g j = give_up-IsDirect direct e k db
      flushed (ok u, k) g j = finished _ k (g ∙ h) (j ∙ i)

  run_load-IsDirect :
      (zs : List Zip) (o : Opened × Db)
      → IsBegun o
      → IsDirect (load_directly site zs o) (run_load site zs o)
  run_load-IsDirect zs (exists, db) b = tt
  run_load-IsDirect zs (refused e, db) b = tt
  run_load-IsDirect zs (opened l, db) b =
      parsed (parse_zips site zs l) (parse_zips-IsWritten zs l) (parse_zips-id site zs l)
    where
      parsed :
          (r : Outcome (Unit {0}) × Load)
          → IsWritten (put_calls l.id (calls_of site.parse_float zs) (whole l)) r
          → r.1.id ≡ l.id
          → IsDirect (load_directly site zs (opened l, db)) (after_parse site r db)
      parsed (err e, k) w i = give_up-IsDirect _ e k db
      parsed (ok u, k) w i =
          commit-IsDirect k db _ l.id i (w ∙ ap (put_calls l.id (calls_of site.parse_float zs)) b)

  load_static-IsDirect : (db : Db) → IsDirect (direct_static site db) (load_static site db)
  unfolding load_static direct_static
  load_static-IsDirect db = listed (split_list site.urls)
    where
      downloaded :
          (o : Outcome (List Zip × List Text))
          → IsDirect (downloaded_directly site o db) (after_download site o db)
      downloaded (err e) = tt
      downloaded (ok (zs, shas)) = run_load-IsDirect zs _ (new_schedule_load-IsBegun _ _ _ db)

      listed : (us : List Text) → IsDirect (listed_directly site us db) (with_urls site us db)
      listed [] = tt
      listed (u ∷ us) = downloaded (download_all site.download (u ∷ us))

-- Where loadStatic reports a version as loaded, the tables are those of a load without buffers:
-- each call that the zips lead to, of one zip after another, is one statement on the tables, and
-- then the version is set loaded and is the only active one. The version reported is the one that
-- NewScheduleLoad opened.
pub load_static-direct :
    (site : Site) (db : Db) (id : ℤ)
    → (load_static site db).0 ≡ loaded id
    → load_static site db ≡ direct_static site db
load_static-direct site db id h = same (load_static site db) (load_static-IsDirect site db) h
  where
    same :
        (r : Loaded × Db)
        → IsDirect site (direct_static site db) r
        → r.0 ≡ loaded id
        → r ≡ direct_static site db
    same (loaded n, db') d e = d
    same (unchanged, db') d e = absurd (ground arith)
    same (load_failed x, db') d e = absurd (ground arith)
