-- ===== src/Cmd/StaticLoad.antt =====
-- cmd/ridewatch/main.go: splitList and loadStatic. A download yields the zip and the hash of its
-- bytes, or an error; the downloads, the hash of several zips and the faults of the database are
-- parameters.
use ridewatch.Base.{
  ℕ, ℤ, Text, is_empty, not, List, [], ◌∷◌, ◌++◌, map, keep, Outcome, ok, err, Err, failed, ◌>>=◌,
}
use ridewatch.Base.Texts.{trim_space, split_at}
use ridewatch.Domain.Types.{Time}
use ridewatch.Static.Table.{Member}
use ridewatch.Static.Zip.{parse_zip}
use ridewatch.Store.Versions.{Db}
use ridewatch.Store.ScheduleLoad.{
  Faults, Load, Opened, opened, exists, refused, new_schedule_load, write, commit, abort,
}

unfoldable pub split_list : Text → List Text
split_list s = keep (λ p. not (is_empty p)) (map trim_space (split_at b',' s))

-- The members of a zip, where it opens.
abbrev pub Zip : Type 0
Zip = Outcome (List Member)

pub record Site : Type 0 where
  pub urls : Text
  pub download : Text → Outcome (Zip × Text)
  pub sha256_hex : Text → Text
  pub parse_float : Text → Outcome ℕ
  pub now : Time
  pub faults : Faults

pub data Loaded : Type 0 where
  loaded : ℤ → Loaded
  unchanged : Loaded
  load_failed : Err → Loaded

unfoldable pub download_all :
    (Text → Outcome (Zip × Text)) → List Text → Outcome (List Zip × List Text)
download_all download [] = ok ([], [])
download_all download (u ∷ us) = do
  (zip, sha) ← download u
  (zips, shas) ← download_all download us
  ok (zip ∷ zips, sha ∷ shas)

-- strings.Join(shas, ",")
abbrev pub joined : List Text → Text
joined [] = []
joined (s ∷ []) = s
joined (s ∷ t ∷ ss) = s ++ (b',' ∷ joined (t ∷ ss))

-- The version's identity: the hash of a single zip, or a hash over all of them.
unfoldable pub version_sha : (Text → Text) → List Text → Text
version_sha sha256_hex [] = []
version_sha sha256_hex (s ∷ []) = s
version_sha sha256_hex (s ∷ t ∷ ss) = sha256_hex (joined (s ∷ t ∷ ss))

abbrev pub next_zip :
    Outcome (Unit {0}) × Load → (Load → Outcome (Unit {0}) × Load) → Outcome (Unit {0}) × Load
next_zip (ok u, l) k = k l
next_zip (err e, l) k = (err e, l)

unfoldable pub parse_zips : Site → List Zip → Load → Outcome (Unit {0}) × Load
parse_zips site [] l = (ok tt, l)
parse_zips site (z ∷ zs) l =
    next_zip (parse_zip site.parse_float (write site.faults) z l) (parse_zips site zs)

-- After an error the load is aborted.
unfoldable pub give_up : Site → Err → Load → Db → Loaded × Db
give_up site e l db = (load_failed e, (abort site.faults l db).2)

abbrev pub after_commit : Site → Outcome ℤ × Load × Db → Loaded × Db
after_commit site (ok id, l, db) = (loaded id, db)
after_commit site (err e, l, db) = give_up site e l db

abbrev pub after_parse : Site → Outcome (Unit {0}) × Load → Db → Loaded × Db
after_parse site (err e, l) db = give_up site e l db
after_parse site (ok u, l) db = after_commit site (commit site.faults site.now l db)

abbrev pub run_load : Site → List Zip → Opened × Db → Loaded × Db
run_load site zips (exists, db) = (unchanged, db)
run_load site zips (refused e, db) = (load_failed e, db)
run_load site zips (opened l, db) = after_parse site (parse_zips site zips l) db

abbrev pub after_download : Site → Outcome (List Zip × List Text) → Db → Loaded × Db
after_download site (err e) db = (load_failed e, db)
after_download site (ok (zips, shas)) db =
    run_load site zips
      (new_schedule_load site.faults (version_sha site.sha256_hex shas) site.now db)

abbrev pub with_urls : Site → List Text → Db → Loaded × Db
with_urls site [] db = (load_failed failed, db)
with_urls site (u ∷ us) db = after_download site (download_all site.download (u ∷ us)) db

unfoldable pub load_static : Site → Db → Loaded × Db
unfolding give_up
load_static site db = with_urls site (split_list site.urls) db
