-- ===== src/Tests/Schedules.antt =====
-- The theorems on the static schedules at concrete inputs: a zip with one stop of one trip.
use ridewatch.Base.{
  ℕ, pos, Text, codes, In, here, there, ◌≡◌, refl, none, some, List, [], ◌∷◌, Outcome, ok, err,
  failed, false, sym, ◌∙◌, text_eq, mod_ℤ, wrap64, ◌*ℤ◌, ◌+ℤ◌, value,
}
use ridewatch.Base.Texts.{trim_space, split_at, atoi, atoi_digits, all_digits, base_name, is_space}
use ridewatch.Domain.Static.{Call, Writer}
use ridewatch.Static.Table.{Record, Lines, Member}
use ridewatch.Static.Script.{zip_script, perform}
use ridewatch.Static.Zip.{parse_zip}
use ridewatch.Static.MetaFirst.{parse_zip-perform, IsMetaFirst}
use ridewatch.Static.ByName.{Columns, SameRows, rows-SameColumns, names, cells}
use ridewatch.Static.Table.{
  table_of, open_table, require, str, columns, float_or, gtfs_time, int_or, trim_bom, trim_first,
}
use ridewatch.Static.Zip.{
  required_files, index_files, index_entry, read_meta, read_agency_tz, read_feed_version, first_row,
  parse_tables,
}
use ridewatch.Static.Script.{tables_script, file_script, rows_script, there_script}
use ridewatch.Static.Rows.{
  calendar_date_row, calendar_row, int16_of_ℤ, route_row, sequence_of, stop_row, stop_time_row,
  trip_row, parse_routes, parse_stops, parse_trips, parse_stop_times, parse_file, each_row,
}
use ridewatch.GoMap.{get, put}
use ridewatch.Domain.GtfsTime.{parse_gtfs_time}
use ridewatch.Domain.Scan.{scan_int, scan_literal}
use ridewatch.Store.Versions.{
  TableName, Db, insert_version, has_sha, delete_version, has_id, set_loaded, deactivate, activate,
}
use ridewatch.Store.Published.{published}
use ridewatch.Store.Sound.{IsSound}
use ridewatch.Store.ScheduleLoad.{
  new_schedule_load, found_version, fresh_version, begin_load, write, add_row, maybe_flush, flush,
  flush_all, commit, finish_commit, abort, delete_aborted,
}
use ridewatch.Cmd.StaticLoad.{
  Site, loaded, load_failed, version_sha, parse_zips, give_up, load_static, split_list,
  download_all,
}
use ridewatch.Cmd.Success.{no_faults, IsReadable, load_static-loaded}
use ridewatch.Cmd.Active.{load_static-active, rows_for}
use ridewatch.Store.Reads.{active_version_id, rows_of}
use ridewatch.Cmd.Direct.{calls_of, load_static-direct, direct_static}
use ridewatch.Cmd.Sound.{load_static-IsSound}
use ridewatch.Cmd.Unloaded.{load_static-published}

abbrev csv : Record → List Record → Outcome Lines
csv header records = ok (record { header = ok header; records = records; ends = none })

abbrev file : Text → Record → Record → Member
file name header row = record { name = name; is_dir = false; lines = csv header (row ∷ []) }

abbrev members : List Member
members =
    file (codes "agency.txt") (codes "agency_timezone" ∷ []) (codes "UTC" ∷ [])
    ∷ file (codes "stops.txt") (codes "stop_id" ∷ []) (codes "s" ∷ [])
    ∷ file (codes "routes.txt") (codes "route_id" ∷ []) (codes "r" ∷ [])
    ∷ file (codes "trips.txt") (codes "trip_id" ∷ codes "route_id" ∷ codes "service_id" ∷ [])
        (codes "t" ∷ codes "r" ∷ codes "w" ∷ [])
    ∷ file (codes "stop_times.txt")
        (codes "trip_id"
          ∷ codes "stop_id"
          ∷ codes "stop_sequence"
          ∷ codes "arrival_time"
          ∷ codes "departure_time"
          ∷ [])
        (codes "t" ∷ codes "s" ∷ codes "1" ∷ codes "08:00:00" ∷ codes "08:00:00" ∷ [])
    ∷ []

abbrev no_floats : Text → Outcome ℕ
no_floats s = err failed

-- A writer that counts its calls.
abbrev counter : Writer (List Call)
counter c cs = (ok tt, c ∷ cs)

abbrev site : Site
site = record {
  urls = codes "u";
  download = λ u. ok (ok members, u);
  sha256_hex = λ s. s;
  parse_float = no_floats;
  now = pos 7;
  faults = no_faults;
}

abbrev no_versions : Db
no_versions = record { versions = []; next_id = pos 1; rows = λ t. [] }

no_versions-IsSound : IsSound no_versions
no_versions-IsSound = record {
  below = tt;
  apart = tt;
  one_active = tt;
  active_loaded = tt;
  rows_known = λ t. tt;
}

parse_zip-perform_example :
    IsMetaFirst (zip_script no_floats (ok members)).calls
    × ((S : Type 0) (w : Writer S) (s : S)
        → parse_zip no_floats w (ok members) s ≡ perform w (zip_script no_floats (ok members)) s)
parse_zip-perform_example = parse_zip-perform no_floats (ok members)

readable : IsReadable no_floats (ok members)
unfolding zip_script required_files get index_files put text_eq base_name read_meta read_agency_tz
    open_table require table_of trim_space first_row str read_feed_version tables_script file_script
    mod_ℤ wrap64 ◌*ℤ◌ ◌+ℤ◌ value all_digits atoi atoi_digits is_space parse_gtfs_time scan_int
    scan_literal calendar_date_row calendar_row int16_of_ℤ route_row sequence_of stop_row
    stop_time_row trip_row rows_script there_script columns float_or gtfs_time int_or trim_bom
    trim_first index_entry
readable = record { read = refl; calls_dated = (refl, (refl, (refl, (refl, (refl, tt))))) }

load_static-loaded_example :
    (load_static (record site { faults = no_faults }) no_versions).0 ≡ loaded (pos 1)
unfolding split_list split_at trim_space is_space download_all
load_static-loaded_example =
    load_static-loaded site no_versions (codes "u") [] (ok members ∷ []) (codes "u" ∷ []) refl refl
      (readable, tt) tt tt

load_static-IsSound_example : IsSound (load_static site no_versions).1
load_static-IsSound_example = load_static-IsSound site no_versions no_versions-IsSound

load_static-direct_example : load_static site no_versions ≡ direct_static site no_versions
load_static-direct_example = load_static-direct site no_versions (pos 1) load_static-loaded_example

load_static-active_example :
    (active_version_id none (load_static site no_versions).1 ≡ ok (pos 1))
    × ((t : TableName)
        → rows_of (pos 1) ((load_static site no_versions).1.rows t)
          ≡ rows_for t (calls_of no_floats (ok members ∷ [])))
unfolding split_list split_at trim_space is_space download_all
load_static-active_example =
    load_static-active site no_versions (pos 1) (codes "u") [] (ok members ∷ []) (codes "u" ∷ [])
      no_versions-IsSound refl refl load_static-loaded_example

-- The commit fails.
abbrev failing : Site
failing = record site { faults = record no_faults { commit = some failed } }

failing_run : (load_static failing no_versions).0 ≡ load_failed failed
unfolding zip_script required_files get index_files put text_eq base_name read_meta read_agency_tz
    open_table require table_of trim_space first_row str read_feed_version tables_script file_script
    mod_ℤ wrap64 ◌*ℤ◌ ◌+ℤ◌ value all_digits atoi atoi_digits is_space parse_gtfs_time scan_int
    scan_literal calendar_date_row calendar_row int16_of_ℤ route_row sequence_of stop_row
    stop_time_row trip_row rows_script there_script columns float_or gtfs_time int_or trim_bom
    trim_first index_entry split_at split_list download_all load_static version_sha
    new_schedule_load found_version fresh_version insert_version begin_load has_sha parse_zips
    parse_zip parse_tables parse_routes parse_stops parse_trips parse_stop_times parse_file each_row
    write add_row maybe_flush flush flush_all commit finish_commit give_up abort delete_aborted
    delete_version has_id set_loaded deactivate activate
failing_run = refl

load_static-published_example :
    published (load_static failing no_versions).1 ≡ published no_versions
load_static-published_example =
    load_static-published failing no_versions tt tt (λ id e. cc (sym failing_run ∙ e))

abbrev routes_cols : Columns
routes_cols = (codes "route_id", codes "r") ∷ (codes "route_color", codes "red") ∷ []

abbrev swapped_cols : Columns
swapped_cols = (codes "route_color", codes "red") ∷ (codes "route_id", codes "r") ∷ []

swapped : {a b : Text × Text} (x : Text × Text) → In x (a ∷ b ∷ []) → In x (b ∷ a ∷ [])
swapped x (here e) = there (here e)
swapped x (there (here e)) = here e
swapped x (there (there i)) = elim i [ ]

rows-SameColumns_example :
    SameRows
      (table_of (codes "routes.txt") (names routes_cols))
      (table_of (codes "routes.txt") (names swapped_cols))
      (cells routes_cols)
      (cells swapped_cols)
unfolding trim_first trim_bom trim_space is_space text_eq
rows-SameColumns_example =
    rows-SameColumns (codes "routes.txt") routes_cols swapped_cols refl refl (refl, (refl, tt))
      (refl, (refl, tt)) (λ x. (swapped x, swapped x))
