-- ===== src/Static/Zip.antt =====
-- internal/gtfsstatic/parse.go: ParseZip, over the members of the zip in their order.
use ridewatch.Base.{
  ℕ, Text, text_eq, codes, Bool, true, not, ◌&&◌, Option, none, some, List, [], ◌∷◌, if◌then◌else◌,
  is_empty, Outcome, ok, err, Err, failed, ◌>>=◌,
}
use ridewatch.Base.Texts.{base_name}
use ridewatch.GoMap.{GoMap, get, put, text_equality}
use ridewatch.Domain.Static.{meta, Writer}
use ridewatch.Static.Table.{Record, Lines, Member, Table, open_table, require, str}
use ridewatch.Static.Rows.{
  ended, after_call, parse_routes, parse_stops, parse_trips, parse_calendar, parse_calendar_dates,
  parse_stop_times,
}

-- Whether an entry takes the place of what was found under its base name.
abbrev pub prefers : Option Member → Member → Bool
prefers none f = true
prefers (some prev) f =
    not (text_eq prev.name (base_name f.name)) && text_eq f.name (base_name f.name)

unfoldable pub index_entry : Member → GoMap Text Member → GoMap Text Member
index_entry f files =
    if not f.is_dir && prefers (get (base_name f.name) files) f
    then put (base_name f.name) f files
    else files

unfoldable pub index_files : List Member → GoMap Text Member → GoMap Text Member
unfolding index_entry
index_files [] files = files
index_files (f ∷ fs) files = index_files fs (index_entry f files)

abbrev pub the_file : Option Member → Outcome Member
the_file none = err failed
the_file (some f) = ok f

-- Column `col` of the first data row; `none` where there is no row.
unfoldable pub first_row : Lines → Outcome (Option Record)
first_row l = first l.records l.ends
  where
    first : List Record → Option Err → Outcome (Option Record)
    first [] end = ended end >>= λ u. ok none
    first (r ∷ rs) end = ok (some r)

abbrev pub timezone : Table → Option Record → Outcome Text
timezone t none = err failed
timezone t (some rec) =
    let tz = str t rec (codes "agency_timezone") in if is_empty tz then err failed else ok tz

unfoldable pub read_agency_tz : Member → Outcome Text
read_agency_tz f = do
  (t, l) ← open_table f
  u ← require t (codes "agency_timezone" ∷ [])
  rec ← first_row l
  timezone t rec

abbrev pub version_cell : Table → Option Record → Text
version_cell t none = []
version_cell t (some rec) = str t rec (codes "feed_version")

unfoldable pub read_feed_version : Option Member → Outcome Text
read_feed_version none = ok []
read_feed_version (some f) = do (t, l) ← open_table f; rec ← first_row l; ok (version_cell t rec)

-- The files that a zip must have, with feed_info.txt and the calendars where it has them.
pub record Files : Type 0 where
  pub agency : Member
  pub stops : Member
  pub routes : Member
  pub trips : Member
  pub stop_times : Member
  pub feed_info : Option Member
  pub calendar : Option Member
  pub calendar_dates : Option Member

unfoldable pub required_files : GoMap Text Member → Outcome Files
required_files files = do
  agency ← the_file (get (codes "agency.txt") files)
  stops ← the_file (get (codes "stops.txt") files)
  routes ← the_file (get (codes "routes.txt") files)
  trips ← the_file (get (codes "trips.txt") files)
  stop_times ← the_file (get (codes "stop_times.txt") files)
  ok (record {
    agency = agency;
    stops = stops;
    routes = routes;
    trips = trips;
    stop_times = stop_times;
    feed_info = get (codes "feed_info.txt") files;
    calendar = get (codes "calendar.txt") files;
    calendar_dates = get (codes "calendar_dates.txt") files;
  })

-- The arguments of the call of Meta.
unfoldable pub read_meta : Files → Outcome (Text × Text)
read_meta f = do
  tz ← read_agency_tz f.agency
  version ← read_feed_version f.feed_info
  ok (version, tz)

module _ {S : Type 0} (parse_float : Text → Outcome ℕ) (w : Writer S) where
  abbrev pub Pass : Type 0
  Pass = S → Outcome (Unit {0}) × S

  -- One step after another, ended by the first error.
  infixr 6 ◌then_◌
  abbrev ◌then_◌ : Pass → Pass → Pass
  ◌then_◌ a b s = after_call w (a s) b

  abbrev pub if_there : (Member → Pass) → Option Member → Pass
  if_there parse none s = (ok tt, s)
  if_there parse (some f) s = parse f s

  unfoldable pub parse_tables : Files → Pass
  parse_tables f =
      parse_routes w f.routes
      then_ parse_stops w parse_float f.stops
      then_ parse_trips w f.trips
      then_ if_there (parse_calendar w) f.calendar
      then_ if_there (parse_calendar_dates w) f.calendar_dates
      then_ parse_stop_times w f.stop_times

  abbrev pub after_meta : Outcome (Text × Text) → Pass → Pass
  after_meta (err e) k s = (err e, s)
  after_meta (ok (version, tz)) k s = after_call w (w (meta version tz) s) k

  abbrev pub with_files : Outcome Files → Pass
  with_files (err e) s = (err e, s)
  with_files (ok f) s = after_meta (read_meta f) (parse_tables f) s

  -- ParseZip of a zip that may not open.
  unfoldable pub parse_zip : Outcome (List Member) → Pass
  unfolding index_files
  parse_zip (err e) s = (err e, s)
  parse_zip (ok members) s = with_files (required_files (index_files members [])) s
