-- ===== src/Static/Table.antt =====
-- internal/gtfsstatic/parse.go: the type `table`, the CSV files of a zip with their columns
-- addressed by name. A member of the zip is what zip and encoding/csv yield of it: a header and
-- records, each of one cell at least, or an error. strconv.ParseFloat is a parameter.
use ridewatch.Base.{
  ℕ, suc, ℤ, Text, Bool, Option, none, some, List, [], ◌∷◌, get_elem?, ◌==◌, if◌then◌else◌,
  is_empty, Outcome, ok, err, Err, failed, ◌>>=◌, ◌>>◌,
}
use ridewatch.Base.Texts.{trim_space, atoi, base_name}
use ridewatch.GoMap.{GoMap, get, put, text_equality}
use ridewatch.Domain.GtfsTime.{parse_gtfs_time}

abbrev pub Record : Type 0
Record = List Text

-- The records of a CSV file, and whether reading ends with io.EOF or with an error.
pub record Lines : Type 0 where
  pub header : Outcome Record
  pub records : List Record
  pub ends : Option Err

pub record Member : Type 0 where
  pub name : Text
  pub is_dir : Bool
  pub lines : Outcome Lines

pub record Table : Type 0 where
  pub name : Text
  pub cols : GoMap Text ℕ

-- strings.TrimPrefix(s, "\ufeff").
unfoldable pub trim_bom : Text → Text
trim_bom [] = []
trim_bom (c ∷ s) = if c == 0xfeff then s else c ∷ s

unfoldable pub trim_first : Record → Record
unfolding trim_bom
trim_first [] = []
trim_first (h ∷ hs) = trim_bom h ∷ hs

-- The columns by name; a later column of a name takes its place.
unfoldable pub columns : ℕ → Record → GoMap Text ℕ → GoMap Text ℕ
columns i [] m = m
columns i (h ∷ hs) m = columns (suc i) hs (put (trim_space h) i m)

unfoldable pub table_of : Text → Record → Table
unfolding trim_first columns
table_of name header = record { name = base_name name; cols = columns 0 (trim_first header) [] }

unfoldable pub open_table : Member → Outcome (Table × Lines)
open_table f = do l ← f.lines; header ← l.header; ok (table_of f.name header, l)

abbrev pub has_column : Option ℕ → Outcome (Unit {0})
has_column none = err failed
has_column (some i) = ok tt

unfoldable pub require : Table → List Text → Outcome (Unit {0})
require t [] = ok tt
require t (c ∷ cs) = has_column (get c t.cols) >> require t cs

abbrev pub cell : Option Text → Text
cell none = []
cell (some s) = trim_space s

abbrev pub cell_at : Option ℕ → Record → Text
cell_at none rec = []
cell_at (some i) rec = cell (get_elem? rec i)

-- table.str
unfoldable pub str : Table → Record → Text → Text
str t rec col = cell_at (get col t.cols) rec

unfoldable pub int_or : Table → Record → Text → ℤ → Outcome ℤ
int_or t rec col def = let s = str t rec col in if is_empty s then ok def else atoi s

unfoldable pub float_or : (Text → Outcome ℕ) → Table → Record → Text → ℕ → Outcome ℕ
float_or parse_float t rec col def =
    let s = str t rec col in if is_empty s then ok def else parse_float s

unfoldable pub gtfs_time : Table → Record → Text → Outcome ℤ
gtfs_time t rec col = parse_gtfs_time (str t rec col)
