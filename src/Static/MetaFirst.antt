-- ===== src/Static/MetaFirst.antt =====
-- The order in which ParseZip of internal/gtfsstatic/parse.go calls a writer.
use ridewatch.Base.{
  ℕ, Text, codes, ◌≡◌, refl, Bool, true, false, Option, none, some, List, [], ◌∷◌, All, All-append,
  Outcome, ok, err, Err, arith,
}
use ridewatch.Domain.Static.{Call, meta, Writer}
use ridewatch.Static.Table.{Record, Lines, Member, Table, open_table, require}
use ridewatch.Static.Rows.{
  route_row, stop_row, trip_row, calendar_row, calendar_date_row, stop_time_row,
}
use ridewatch.Static.Zip.{index_files, Files, required_files, read_meta, parse_zip}
use ridewatch.Static.Script.{
  Script, perform, row_script, rows_script, if_ok, table_script, file_script, ◌and_then_◌,
  there_script, tables_script, meta_script, files_script, zip_script,
}
use ridewatch.Static.Performs.{with_files-perform}

-- A call that is not of Meta.
pub is_row : Call → Bool
is_row (meta v tz) = false
is_row c = true

abbrev pub AllRows : List Call → Type 0
AllRows = All (λ c. is_row c ≡ true)

-- Meta comes first and once.
pub data IsMetaFirst : List Call → Type 0 where
  no_call : IsMetaFirst []
  meta_then :
      (version tz : Text) (rows : List Call) → AllRows rows → IsMetaFirst (meta version tz ∷ rows)

abbrev MakesRows : (Record → Outcome Call) → Type 0
MakesRows row = (r : Record) (c : Call) → row r ≡ ok c → is_row c ≡ true

AllRows-rows_script :
    (row : Record → Outcome Call)
    → MakesRows row
    → (rs : List Record) (end : Option Err) → AllRows (rows_script row rs end).calls
unfolding rows_script
AllRows-rows_script row m [] end = tt
AllRows-rows_script row m (r ∷ rs) end = first (row r) (m r) (AllRows-rows_script row m rs end)
  where
    first :
        (o : Outcome Call)
        → ((c : Call) → o ≡ ok c → is_row c ≡ true)
        → AllRows (rows_script row rs end).calls
        → AllRows (row_script o (rows_script row rs end)).calls
    first (err e) h ih = tt
    first (ok c) h ih = (h c refl, ih)

AllRows-file_script :
    (row : Table → Record → Outcome Call)
    → ((t : Table) → MakesRows (row t))
    → (cols : List Text) (f : Member) → AllRows (file_script row cols f).calls
unfolding file_script
AllRows-file_script row m cols f = opened (open_table f)
  where
    required :
        (t : Table) (l : Lines) (o : Outcome (Unit {0}))
        → AllRows (if_ok o (rows_script (row t) l.records l.ends)).calls
    required t l (err e) = tt
    required t l (ok u) = AllRows-rows_script (row t) (m t) l.records l.ends

    opened : (o : Outcome (Table × Lines)) → AllRows (table_script row cols o).calls
    opened (err e) = tt
    opened (ok (t, l)) = required t l (require t cols)

route_row-MakesRows : (t : Table) → MakesRows (route_row t)
unfolding route_row is_row
route_row-MakesRows t r c h = ground arith

stop_row-MakesRows :
    (parse_float : Text → Outcome ℕ) (t : Table) → MakesRows (stop_row parse_float t)
unfolding stop_row is_row
stop_row-MakesRows parse_float t r c h = ground arith

trip_row-MakesRows : (t : Table) → MakesRows (trip_row t)
unfolding trip_row is_row
trip_row-MakesRows t r c h = ground arith

calendar_row-MakesRows : (t : Table) → MakesRows (calendar_row t)
unfolding calendar_row is_row
calendar_row-MakesRows t r c h = ground arith

calendar_date_row-MakesRows : (t : Table) → MakesRows (calendar_date_row t)
unfolding calendar_date_row is_row
calendar_date_row-MakesRows t r c h = ground arith

stop_time_row-MakesRows : (t : Table) → MakesRows (stop_time_row t)
unfolding stop_time_row is_row
stop_time_row-MakesRows t r c h = ground arith

-- A script of rows only.
record IsRowScript (p : Script) : Type 0 where
  rows : AllRows p.calls

file_script-IsRowScript :
    (row : Table → Record → Outcome Call)
    → ((t : Table) → MakesRows (row t))
    → (cols : List Text) (f : Member) → IsRowScript (file_script row cols f)
file_script-IsRowScript row m cols f = record { rows = AllRows-file_script row m cols f }

and_then-IsRowScript : (p q : Script) → IsRowScript p → IsRowScript q → IsRowScript (p and_then_ q)
and_then-IsRowScript p q h k = record { rows = joined p.end }
  where
    joined : (o : Outcome (Unit {0})) → AllRows (record p { end = o } and_then_ q).calls
    joined (ok u) = All-append (λ c. is_row c ≡ true) p.calls q.calls h.rows k.rows
    joined (err e) = h.rows

there_script-IsRowScript :
    (p : Member → Script)
    → ((f : Member) → IsRowScript (p f))
    → (o : Option Member) → IsRowScript (there_script p o)
unfolding there_script
there_script-IsRowScript p h none = record { rows = tt }
there_script-IsRowScript p h (some f) = h f

AllRows-tables_script :
    (parse_float : Text → Outcome ℕ) (f : Files) → AllRows (tables_script parse_float f).calls
unfolding tables_script
AllRows-tables_script parse_float f =
    (and_then-IsRowScript _ _
      (file_script-IsRowScript route_row route_row-MakesRows (codes "route_id" ∷ []) f.routes)
      (and_then-IsRowScript _ _
        (file_script-IsRowScript (stop_row parse_float) (stop_row-MakesRows parse_float)
          (codes "stop_id" ∷ []) f.stops)
        (and_then-IsRowScript _ _
          (file_script-IsRowScript trip_row trip_row-MakesRows
            (codes "trip_id" ∷ codes "route_id" ∷ codes "service_id" ∷ []) f.trips)
          (and_then-IsRowScript _ _
            (there_script-IsRowScript _
              (file_script-IsRowScript calendar_row calendar_row-MakesRows
                (codes "service_id" ∷ []))
              f.calendar)
            (and_then-IsRowScript _ _
              (there_script-IsRowScript _
                (file_script-IsRowScript calendar_date_row calendar_date_row-MakesRows
                  (codes "service_id" ∷ codes "date" ∷ []))
                f.calendar_dates)
              (file_script-IsRowScript stop_time_row stop_time_row-MakesRows
                (codes "trip_id" ∷ codes "stop_id" ∷ codes "stop_sequence" ∷ [])
                f.stop_times)))))).rows

zip_script-IsMetaFirst :
    (parse_float : Text → Outcome ℕ) (z : Outcome (List Member))
    → IsMetaFirst (zip_script parse_float z).calls
unfolding zip_script
zip_script-IsMetaFirst parse_float (err e) = no_call
zip_script-IsMetaFirst parse_float (ok members) = found (required_files (index_files members []))
  where
    read :
        (f : Files) (c : Outcome (Text × Text))
        → IsMetaFirst (meta_script c (tables_script parse_float f)).calls
    read f (err e) = no_call
    read f (ok (version, tz)) = meta_then version tz _ (AllRows-tables_script parse_float f)

    found : (o : Outcome Files) → IsMetaFirst (files_script parse_float o).calls
    found (err e) = no_call
    found (ok f) = read f (read_meta f)

-- ParseZip does the same with any writer: the zip alone determines a list of calls, Meta first and
-- no second time, and a result; the calls are made one after another up to the first that fails,
-- whose error is returned, and where none fails the result is returned.
pub parse_zip-perform :
    (parse_float : Text → Outcome ℕ) (z : Outcome (List Member))
    → IsMetaFirst (zip_script parse_float z).calls
      × ((S : Type 0) (w : Writer S) (s : S)
          → parse_zip parse_float w z s ≡ perform w (zip_script parse_float z) s)
unfolding parse_zip zip_script
parse_zip-perform parse_float z = (zip_script-IsMetaFirst parse_float z, performed z)
  where
    performed :
        (z : Outcome (List Member)) (S : Type 0) (w : Writer S) (s : S)
        → parse_zip parse_float w z s ≡ perform w (zip_script parse_float z) s
    performed (err e) S w s = refl
    performed (ok members) S w s =
        (with_files-perform w parse_float (required_files (index_files members []))).run s
