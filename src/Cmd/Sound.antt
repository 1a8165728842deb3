-- ===== src/Cmd/Sound.antt =====
-- loadStatic of cmd/ridewatch/main.go and the versions of the schedules.
use ridewatch.Base.{Text, ◌≡◌, refl, sym, ap, ◌∙◌, subst, List, [], ◌∷◌, Outcome, ok, err}
use ridewatch.Store.Versions.{Db}
use ridewatch.Store.ScheduleLoad.{Opened, opened, exists, refused}
use ridewatch.Store.Sound.{IsSound, delete_version-IsSound}
use ridewatch.Store.SoundLoad.{put_calls-IsReady}
use ridewatch.Store.SoundCommit.{
  publish_version-IsSound, IsOpenSound, new_schedule_load-IsOpenSound,
}
use ridewatch.Cmd.StaticLoad.{
  Zip, Site, Loaded, loaded, unchanged, load_failed, split_list, download_all, load_static,
}
use ridewatch.Cmd.Unloaded.{Keeps, IsOpen, load_static-Keeps}
use ridewatch.Cmd.Direct.{
  calls_of, load_directly, downloaded_directly, listed_directly, direct_static, load_static-direct,
}

load_directly-IsSound :
    (site : Site) (zs : List Zip) (o : Opened × Db)
    → IsOpenSound o
    → IsSound (load_directly site zs o).1
load_directly-IsSound site zs (opened l, db) h =
    publish_version-IsSound site.now l.id _
      (put_calls-IsReady l.id (calls_of site.parse_float zs) db h).0
load_directly-IsSound site zs (exists, db) h = h
load_directly-IsSound site zs (refused e, db) h = h

direct_static-IsSound : (site : Site) (db : Db) → IsSound db → IsSound (direct_static site db).1
unfolding direct_static
direct_static-IsSound site db s = listed (split_list site.urls)
  where
    downloaded : (o : Outcome (List Zip × List Text)) → IsSound (downloaded_directly site o db).1
    downloaded (err e) = s
    downloaded (ok (zs, shas)) =
        load_directly-IsSound site zs _ (new_schedule_load-IsOpenSound site.faults _ site.now db s)

    listed : (us : List Text) → IsSound (listed_directly site us db).1
    listed [] = s
    listed (u ∷ us) = downloaded (download_all site.download (u ∷ us))

IsOpenSound-IsOpen : (o : Opened × Db) → IsOpenSound o → IsOpen IsSound o
IsOpenSound-IsOpen (opened l, db) (s, k) = (s, delete_version-IsSound l.id db s)
IsOpenSound-IsOpen (exists, db) s = s
IsOpenSound-IsOpen (refused e, db) s = s

-- loadStatic keeps the versions sound, whatever the zips hold and whichever statement fails: at
-- most one version is active, an active one is loaded, two versions have two ids, ids are below
-- the next one, and every row is of a version that is there.
pub load_static-IsSound : (site : Site) (db : Db) → IsSound db → IsSound (load_static site db).1
load_static-IsSound site db s = either_way (load_static site db) refl (
    load_static-Keeps site IsSound db s
      (λ sha. IsOpenSound-IsOpen _ (new_schedule_load-IsOpenSound site.faults sha site.now db s)))
  where
    either_way : (r : Loaded × Db) → load_static site db ≡ r → Keeps IsSound r → IsSound r.1
    either_way (loaded id, db') e h =
        subst IsSound
          (sym (
              ap (λ (p : Loaded × Db). p.1)
                (load_static-direct site db id (ap (λ (p : Loaded × Db). p.0) e)))
            ∙ ap (λ (p : Loaded × Db). p.1) e)
          (direct_static-IsSound site db s)
    either_way (unchanged, db') e h = h
    either_way (load_failed x, db') e h = h
