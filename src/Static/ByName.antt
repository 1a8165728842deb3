-- ===== src/Static/ByName.antt =====
-- The columns of a CSV file of internal/gtfsstatic/parse.go are addressed by name: their order
-- does not matter to any row.
use ridewatch.Base.{
  ℕ, suc, ◌+◌, Text, text_eq, text_eq_iff, ◌≡◌, refl, sym, ap, ◌∙◌, fun_ext, ◌↔◌, inl, inr, Option,
  none, some, List, [], ◌∷◌, map, get_elem?, In, here, there, arith, if◌then◌else◌, Bool-cases,
  Option-cases, Outcome,
}
use ridewatch.Base.Texts.{trim_space}
use ridewatch.GoMap.{GoMap, get, put, get-put, text_equality}
use ridewatch.Static.Table.{
  Record, Table, trim_first, columns, table_of, cell, cell_at, str, int_or, float_or, gtfs_time,
}
use ridewatch.Static.Rows.{
  route_row, stop_row, trip_row, calendar_row, calendar_date_row, stop_time_row,
}

-- The columns of a row: their names in the header, with their cells.
abbrev pub Columns : Type 0
Columns = List (Text × Text)

abbrev pub names : Columns → Record
names = map (λ (h, c). h)

abbrev pub cells : Columns → Record
cells = map (λ (h, c). c)

abbrev pub found : Columns → Text → Option Text
found [] col = none
found ((h, c) ∷ cs) col = if text_eq (trim_space h) col then some c else found cs col

-- No two columns have one name.
abbrev pub Distinct : Columns → Type 0
Distinct [] = Unit
Distinct ((h, c) ∷ cs) = (found cs (trim_space h) ≡ none) × Distinct cs

get-columns_other :
    (col : Text) (i : ℕ) (cs : Columns) (m : GoMap Text ℕ)
    → found cs col ≡ none
    → get col (columns i (names cs) m) ≡ get col m
unfolding columns
get-columns_other col i [] m e = refl
get-columns_other col i ((h, c) ∷ cs) m e = elim (Bool-cases (text_eq (trim_space h) col)) [
  | inl t ↦ cc (rw (t, found) at e)
  | inr f ↦
      get-columns_other col (suc i) cs (put (trim_space h) i m) (rw (f, found) at e)
      ∙ get-put (trim_space h) col i m
      ∙ rw f refl
]

cell_cong : (a b : Text) → some a ≡ some b → trim_space a ≡ trim_space b
cell_cong a b e = ap cell e

cell_at-columns :
    (col c : Text) (rec : Record) (i : ℕ) (cs : Columns) (m : GoMap Text ℕ)
    → ((k : ℕ) → get_elem? rec (k + i) ≡ get_elem? (cells cs) k)
    → Distinct cs
    → found cs col ≡ some c
    → cell_at (get col (columns i (names cs) m)) rec ≡ trim_space c
unfolding columns
cell_at-columns col c rec i [] m at d e = cc
cell_at-columns col c rec i ((h, c') ∷ cs) m at d e =
    elim (Bool-cases (text_eq (trim_space h) col)) [
      | inl t ↦
          let absent = ap (found cs) (sym ((text_eq_iff (trim_space h) col).0 t)) ∙ d.0 in
          let here_i : get col (columns (suc i) (names cs) (put (trim_space h) i m)) ≡ some i =
            get-columns_other col (suc i) cs (put (trim_space h) i m) absent
            ∙ get-put (trim_space h) col i m
            ∙ rw t refl in
          let at_i : get_elem? rec i ≡ some c' = ap (get_elem? rec) (omega arith) ∙ at 0 in
          ap (λ o. cell_at o rec) here_i ∙ ap cell at_i ∙ cell_cong c' c (rw (t, found) at e)
      | inr f ↦
          cell_at-columns col c rec (suc i) cs (put (trim_space h) i m)
            (λ k. ap (get_elem? rec) (omega arith) ∙ at (suc k)) d.1 (rw (f, found) at e)
    ]

found→ :
    (cs : Columns) (col c : Text)
    → found cs col ≡ some c
    → (h : Text) × In (h, c) cs × (trim_space h ≡ col)
found→ [] col c e = cc
found→ ((h, c') ∷ cs) col c e = elim (Bool-cases (text_eq (trim_space h) col)) [
  | inl t ↦ (h, here (same c' (rw (t, found) at e)), (text_eq_iff (trim_space h) col).0 t)
  | inr f ↦ let (h', i, q) = found→ cs col c (rw (f, found) at e) in (h', there i, q)
]
  where
    same : (c' : Text) → some c' ≡ some c → ◌≡◌ {A = Text × Text} (h, c) (h, c')
    same c' e = cc

found← : (cs : Columns) (h c : Text) → Distinct cs → In (h, c) cs → found cs (trim_space h) ≡ some c
found← [] h c d i = elim i [ ]
found← ((h', c') ∷ cs) h c d (here e) =
    let same : trim_space h' ≡ trim_space h = ap (λ (p : Text × Text). trim_space p.0) (sym e) in
    rw ((text_eq_iff (trim_space h') (trim_space h)).1 same)
      (ap (λ (p : Text × Text). some p.1) (sym e))
found← ((h', c') ∷ cs) h c d (there q) =
    elim (Bool-cases (text_eq (trim_space h') (trim_space h))) [
      | inl t ↦
          let rest = found← cs h c d.1 q in
          let absent : found cs (trim_space h) ≡ none =
            ap (found cs) (sym ((text_eq_iff (trim_space h') (trim_space h)).0 t)) ∙ d.0 in
          cc
      | inr f ↦ rw f (found← cs h c d.1 q)
    ]

-- The same columns, in any order.
abbrev pub SameColumns : Columns → Columns → Type 0
SameColumns cs ds = (x : Text × Text) → In x cs ↔ In x ds

found-some :
    (cs ds : Columns) (col c : Text)
    → Distinct ds
    → ((x : Text × Text) → In x cs → In x ds)
    → found cs col ≡ some c
    → found ds col ≡ some c
found-some cs ds col c d s e =
    let (h, i, q) = found→ cs col c e in ap (found ds) (sym q) ∙ found← ds h c d (s (h, c) i)

found-same :
    (cs ds : Columns) (col : Text)
    → Distinct cs
    → Distinct ds
    → SameColumns cs ds
    → found cs col ≡ found ds col
found-same cs ds col d d' s = elim (Option-cases (found cs col)) [
  | inr (c, e) ↦ e ∙ sym (found-some cs ds col c d' (λ x. (s x).0) e)
  | inl e ↦ elim (Option-cases (found ds col)) [
    | inl e' ↦ e ∙ sym e'
    | inr (c, e') ↦ found-some ds cs col c d (λ x. (s x).1) e' ∙ sym e'
  ]
]

-- The cell that a name finds, and nothing for a name that is no column.
str-found :
    (file : Text) (cs : Columns) (col : Text)
    → trim_first (names cs) ≡ names cs
    → Distinct cs
    → str (table_of file (names cs)) (cells cs) col ≡ cell (found cs col)
unfolding str table_of get
str-found file cs col b d = elim (Option-cases (found cs col)) [
  | inr (c, e) ↦
      ap (λ hs. cell_at (get col (columns 0 hs [])) (cells cs)) b
      ∙ cell_at-columns col c (cells cs) 0 cs [] (λ k. ap (get_elem? (cells cs)) (omega arith)) d e
      ∙ sym (ap cell e)
  | inl e ↦
      ap (λ hs. cell_at (get col (columns 0 hs [])) (cells cs)) b
      ∙ ap (λ o. cell_at o (cells cs)) (get-columns_other col 0 cs [] e)
      ∙ sym (ap cell e)
]

module _ (t t' : Table) (rec rec' : Record) where
  -- The row of every kind is the same.
  abbrev pub SameRows : Type 0
  SameRows =
      (route_row t rec ≡ route_row t' rec')
      × ((parse_float : Text → Outcome ℕ)
          → stop_row parse_float t rec ≡ stop_row parse_float t' rec')
      × (trip_row t rec ≡ trip_row t' rec')
      × (calendar_row t rec ≡ calendar_row t' rec')
      × (calendar_date_row t rec ≡ calendar_date_row t' rec')
      × (stop_time_row t rec ≡ stop_time_row t' rec')

  -- Rows that read the same cells by name are the same rows.
  rows_same : str t rec ≡ str t' rec' → SameRows
  unfolding route_row stop_row trip_row calendar_row calendar_date_row stop_time_row int_or float_or
      gtfs_time
  rows_same same = (
    rw same refl,
    λ parse_float. rw same refl,
    rw same refl,
    rw same refl,
    rw same refl,
    rw same refl,
  )

-- Columns are located by header name, never by position: for a file with columns of distinct
-- names, none of them behind a byte order mark, and a file with the same columns in another order,
-- every loop of ParseZip makes the same call, or the same error, of a row with the same cells.
pub rows-SameColumns :
    (file : Text) (cs ds : Columns)
    → trim_first (names cs) ≡ names cs
    → trim_first (names ds) ≡ names ds
    → Distinct cs
    → Distinct ds
    → SameColumns cs ds
    → SameRows (table_of file (names cs)) (table_of file (names ds)) (cells cs) (cells ds)
rows-SameColumns file cs ds b b' d d' s = rows_same _ _ _ _ (
    fun_ext λ col.
      str-found file cs col b d
      ∙ ap cell (found-same cs ds col d d' s)
      ∙ sym (str-found file ds col b' d'))
