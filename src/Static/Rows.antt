-- ===== src/Static/Rows.antt =====
-- internal/gtfsstatic/parse.go: what the loops over the files of a zip make of a record, and the
-- loop itself. A row is the call of the writer that it leads to.
use ridewatch.Base.{
  ℕ, ◌-◌, ◌^◌, ℤ, pos, negsuc, mod_ℤ, Text, text_eq, codes, Option, none, some, List, [], ◌∷◌, map,
  ltb, if◌then◌else◌, is_empty, Outcome, ok, err, Err, failed, ◌>>=◌,
}
use ridewatch.Base.Texts.{atoi}
use ridewatch.Domain.Static.{Call, route, stop, trip, stop_time, calendar, calendar_date, Writer}
use ridewatch.Static.Table.{
  Record, Lines, Member, Table, open_table, require, str, int_or, float_or, gtfs_time,
}

-- int16 of an int.
unfoldable pub int16_of_ℤ : ℤ → ℤ
int16_of_ℤ n = let w = mod_ℤ n (2 ^ 16) in if ltb w 0x8000 then pos w else negsuc (0xffff - w)

unfoldable pub route_row : Table → Record → Outcome Call
route_row t rec = do
  route_type ← int_or t rec (codes "route_type") (pos 0)
  sort_order ← int_or t rec (codes "route_sort_order") (pos 0)
  ok (
      route (record {
        route_id = str t rec (codes "route_id");
        short_name = str t rec (codes "route_short_name");
        long_name = str t rec (codes "route_long_name");
        route_type = route_type;
        color = str t rec (codes "route_color");
        text_color = str t rec (codes "route_text_color");
        sort_order = sort_order;
      }))

unfoldable pub stop_row : (Text → Outcome ℕ) → Table → Record → Outcome Call
stop_row parse_float t rec = do
  lat ← float_or parse_float t rec (codes "stop_lat") 0
  lon ← float_or parse_float t rec (codes "stop_lon") 0
  location_type ← int_or t rec (codes "location_type") (pos 0)
  ok (
      stop (record {
        stop_id = str t rec (codes "stop_id");
        name = str t rec (codes "stop_name");
        lat = lat;
        lon = lon;
        parent_station = str t rec (codes "parent_station");
        location_type = location_type;
        platform_code = str t rec (codes "platform_code");
      }))

unfoldable pub trip_row : Table → Record → Outcome Call
unfolding int16_of_ℤ
trip_row t rec = do
  dir ← int_or t rec (codes "direction_id") (negsuc 0)
  ok (
      trip (record {
        trip_id = str t rec (codes "trip_id");
        route_id = str t rec (codes "route_id");
        service_id = str t rec (codes "service_id");
        headsign = str t rec (codes "trip_headsign");
        direction_id = int16_of_ℤ dir;
        shape_id = str t rec (codes "shape_id");
      }))

abbrev pub weekday_cols : List Text
weekday_cols =
    codes "monday"
    ∷ codes "tuesday"
    ∷ codes "wednesday"
    ∷ codes "thursday"
    ∷ codes "friday"
    ∷ codes "saturday"
    ∷ codes "sunday"
    ∷ []

unfoldable pub calendar_row : Table → Record → Outcome Call
calendar_row t rec = ok (
    calendar (record {
      service_id = str t rec (codes "service_id");
      weekdays = map (λ c. text_eq (str t rec c) (codes "1")) weekday_cols;
      start_date = str t rec (codes "start_date");
      end_date = str t rec (codes "end_date");
    }))

unfoldable pub calendar_date_row : Table → Record → Outcome Call
calendar_date_row t rec = do
  exc ← int_or t rec (codes "exception_type") (pos 0)
  ok (
      calendar_date (record {
        service_id = str t rec (codes "service_id");
        date = str t rec (codes "date");
        exception_type = exc;
      }))

unfoldable pub sequence_of : Text → Outcome ℤ
sequence_of s = if is_empty s then err failed else atoi s

unfoldable pub stop_time_row : Table → Record → Outcome Call
unfolding sequence_of
stop_time_row t rec = do
  seq ← sequence_of (str t rec (codes "stop_sequence"))
  arr ← gtfs_time t rec (codes "arrival_time")
  dep ← gtfs_time t rec (codes "departure_time")
  ok (
      stop_time (record {
        trip_id = str t rec (codes "trip_id");
        stop_sequence = seq;
        stop_id = str t rec (codes "stop_id");
        arrival_secs = arr;
        departure_secs = dep;
      }))

-- The end of a file: io.EOF is no error.
abbrev pub ended : Option Err → Outcome (Unit {0})
ended none = ok tt
ended (some e) = err e

module _ {S : Type 0} (w : Writer S) where
  abbrev pub after_call :
      Outcome (Unit {0}) × S → (S → Outcome (Unit {0}) × S) → Outcome (Unit {0}) × S
  after_call (ok u, s) k = k s
  after_call (err e, s) k = (err e, s)

  abbrev pub with_row : Outcome Call → (S → Outcome (Unit {0}) × S) → S → Outcome (Unit {0}) × S
  with_row (err e) k s = (err e, s)
  with_row (ok c) k s = after_call (w c s) k

  -- The loop over the records.
  unfoldable pub each_row :
      (Record → Outcome Call) → List Record → Option Err → S → Outcome (Unit {0}) × S
  each_row row [] end s = (ended end, s)
  each_row row (r ∷ rs) end s = with_row (row r) (each_row row rs end) s

  abbrev pub with_table :
      (Table → Record → Outcome Call)
      → List Text
      → Outcome (Table × Lines)
      → S
      → Outcome (Unit {0}) × S
  with_table row cols (err e) s = (err e, s)
  with_table row cols (ok (t, l)) s =
      after_call (require t cols, s) (each_row (row t) l.records l.ends)

  -- parseRoutes and its like: open the table, require its columns, loop.
  unfoldable pub parse_file :
      (Table → Record → Outcome Call) → List Text → Member → S → Outcome (Unit {0}) × S
  unfolding each_row
  parse_file row cols f s = with_table row cols (open_table f) s

  unfoldable pub parse_routes : Member → S → Outcome (Unit {0}) × S
  parse_routes = parse_file route_row (codes "route_id" ∷ [])

  unfoldable pub parse_stops : (Text → Outcome ℕ) → Member → S → Outcome (Unit {0}) × S
  parse_stops parse_float = parse_file (stop_row parse_float) (codes "stop_id" ∷ [])

  unfoldable pub parse_trips : Member → S → Outcome (Unit {0}) × S
  parse_trips = parse_file trip_row (codes "trip_id" ∷ codes "route_id" ∷ codes "service_id" ∷ [])

  unfoldable pub parse_calendar : Member → S → Outcome (Unit {0}) × S
  parse_calendar = parse_file calendar_row (codes "service_id" ∷ [])

  unfoldable pub parse_calendar_dates : Member → S → Outcome (Unit {0}) × S
  parse_calendar_dates = parse_file calendar_date_row (codes "service_id" ∷ codes "date" ∷ [])

  unfoldable pub parse_stop_times : Member → S → Outcome (Unit {0}) × S
  parse_stop_times =
      parse_file stop_time_row (codes "trip_id" ∷ codes "stop_id" ∷ codes "stop_sequence" ∷ [])
