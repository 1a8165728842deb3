-- ===== src/Static/Script.antt =====
-- ParseZip of internal/gtfsstatic/parse.go against a description of it that knows no writer: the
-- calls that a zip leads to, and how reading it ends.
use ridewatch.Base.{ℕ, Text, codes, Option, none, some, List, [], ◌∷◌, ◌++◌, Outcome, ok, err, Err}
use ridewatch.Domain.Static.{Call, meta, Writer}
use ridewatch.Static.Table.{Record, Lines, Member, Table, open_table, require}
use ridewatch.Static.Rows.{
  ended, after_call, route_row, stop_row, trip_row, calendar_row, calendar_date_row, stop_time_row,
}
use ridewatch.Static.Zip.{index_files, Files, required_files, read_meta}

-- The calls, and the result where no call fails.
pub record Script : Type 0 where
  pub calls : List Call
  pub end : Outcome (Unit {0})

module _ {S : Type 0} (w : Writer S) where
  -- The calls one after another, up to the first that fails.
  abbrev pub perform_calls : List Call → Outcome (Unit {0}) → S → Outcome (Unit {0}) × S
  perform_calls [] o s = (o, s)
  perform_calls (c ∷ cs) o s = after_call w (w c s) (perform_calls cs o)

  abbrev pub perform : Script → S → Outcome (Unit {0}) × S
  perform p = perform_calls p.calls p.end

abbrev pub nothing : Outcome (Unit {0}) → Script
nothing o = record { calls = []; end = o }

abbrev pub before : Call → Script → Script
before c p = record { calls = c ∷ p.calls; end = p.end }

abbrev pub row_script : Outcome Call → Script → Script
row_script (err e) p = nothing (err e)
row_script (ok c) p = before c p

unfoldable pub rows_script : (Record → Outcome Call) → List Record → Option Err → Script
rows_script row [] end = nothing (ended end)
rows_script row (r ∷ rs) end = row_script (row r) (rows_script row rs end)

abbrev pub if_ok : Outcome (Unit {0}) → Script → Script
if_ok (err e) p = nothing (err e)
if_ok (ok u) p = p

abbrev pub table_script :
    (Table → Record → Outcome Call) → List Text → Outcome (Table × Lines) → Script
table_script row cols (err e) = nothing (err e)
table_script row cols (ok (t, l)) = if_ok (require t cols) (rows_script (row t) l.records l.ends)

unfoldable pub file_script : (Table → Record → Outcome Call) → List Text → Member → Script
file_script row cols f = table_script row cols (open_table f)

infixr 6 ◌and_then_◌
abbrev pub ◌and_then_◌ : Script → Script → Script
p and_then_ q = elim p.end [ ok u ↦ record { calls = p.calls ++ q.calls; end = q.end } | err e ↦ p ]

unfoldable pub there_script : (Member → Script) → Option Member → Script
there_script p none = nothing (ok tt)
there_script p (some f) = p f

-- The rows of a zip, file after file.
unfoldable pub tables_script : (Text → Outcome ℕ) → Files → Script
tables_script parse_float f =
    file_script route_row (codes "route_id" ∷ []) f.routes
    and_then_ file_script (stop_row parse_float) (codes "stop_id" ∷ []) f.stops
    and_then_ file_script trip_row (codes "trip_id" ∷ codes "route_id" ∷ codes "service_id" ∷ [])
        f.trips
    and_then_ there_script (file_script calendar_row (codes "service_id" ∷ [])) f.calendar
    and_then_ there_script (file_script calendar_date_row (codes "service_id" ∷ codes "date" ∷ []))
        f.calendar_dates
    and_then_ file_script stop_time_row
        (codes "trip_id" ∷ codes "stop_id" ∷ codes "stop_sequence" ∷ []) f.stop_times

abbrev pub meta_script : Outcome (Text × Text) → Script → Script
meta_script (err e) p = nothing (err e)
meta_script (ok (version, tz)) p = before (meta version tz) p

abbrev pub files_script : (Text → Outcome ℕ) → Outcome Files → Script
files_script parse_float (err e) = nothing (err e)
files_script parse_float (ok f) = meta_script (read_meta f) (tables_script parse_float f)

unfoldable pub zip_script : (Text → Outcome ℕ) → Outcome (List Member) → Script
zip_script parse_float (err e) = nothing (err e)
zip_script parse_float (ok members) =
    files_script parse_float (required_files (index_files members []))
