-- ===== src/Static/Performs.antt =====
-- ParseZip of internal/gtfsstatic/parse.go makes the calls of its script, one after another.
use ridewatch.Base.{
  ℕ, Text, codes, ◌≡◌, refl, ap, sym, ◌∙◌, Option, none, some, List, [], ◌∷◌, ◌++◌, Outcome, ok,
  err, Err,
}
use ridewatch.Domain.Static.{Call, meta, Writer}
use ridewatch.Static.Table.{Record, Lines, Member, Table, open_table, require}
use ridewatch.Static.Rows.{
  after_call, with_row, each_row, with_table, parse_file, parse_routes, parse_stops, parse_trips,
  parse_calendar, parse_calendar_dates, parse_stop_times, route_row, stop_row, trip_row,
  calendar_row, calendar_date_row, stop_time_row,
}
use ridewatch.Static.Zip.{Files, read_meta, parse_tables, if_there, with_files, after_meta}
use ridewatch.Static.Script.{
  Script, perform_calls, perform, row_script, rows_script, if_ok, table_script, file_script,
  ◌and_then_◌, there_script, tables_script, meta_script, files_script,
}

module _ {S : Type 0} (w : Writer S) where
  -- A pass does what a script says.
  pub record Performs (k : S → Outcome (Unit {0}) × S) (p : Script) : Type 0 where
    pub run : (s : S) → k s ≡ perform w p s

  after_call_cong :
      (r : Outcome (Unit {0}) × S) (k k' : S → Outcome (Unit {0}) × S)
      → ((s : S) → k s ≡ k' s)
      → after_call w r k ≡ after_call w r k'
  after_call_cong (ok u, s) k k' h = h s
  after_call_cong (err e, s) k k' h = refl

  with_row-perform :
      (o : Outcome Call) (k : S → Outcome (Unit {0}) × S) (p : Script)
      → Performs k p
      → Performs (with_row w o k) (row_script o p)
  with_row-perform (err e) k p h = record { run = λ s. refl }
  with_row-perform (ok c) k p h = record {
    run = λ s. after_call_cong (w c s) k (perform w p) h.run;
  }

  each_row-perform :
      (row : Record → Outcome Call) (rs : List Record) (end : Option Err)
      → Performs (each_row w row rs end) (rows_script row rs end)
  unfolding each_row rows_script
  each_row-perform row [] end = record { run = λ s. refl }
  each_row-perform row (r ∷ rs) end = record {
    run =
        (with_row-perform (row r) (each_row w row rs end) (rows_script row rs end)
          (each_row-perform row rs end)).run;
  }

  if_ok-perform :
      (o : Outcome (Unit {0})) (k : S → Outcome (Unit {0}) × S) (p : Script)
      → Performs k p
      → Performs (λ s. after_call w (o, s) k) (if_ok o p)
  if_ok-perform (err e) k p h = record { run = λ s. refl }
  if_ok-perform (ok u) k p h = record { run = h.run }

  with_table-perform :
      (row : Table → Record → Outcome Call) (cols : List Text) (o : Outcome (Table × Lines))
      → Performs (with_table w row cols o) (table_script row cols o)
  with_table-perform row cols (err e) = record { run = λ s. refl }
  with_table-perform row cols (ok (t, l)) = record {
    run =
        (if_ok-perform (require t cols) (each_row w (row t) l.records l.ends)
          (rows_script (row t) l.records l.ends) (each_row-perform (row t) l.records l.ends)).run;
  }

  parse_file-perform :
      (row : Table → Record → Outcome Call) (cols : List Text) (f : Member)
      → Performs (parse_file w row cols f) (file_script row cols f)
  unfolding parse_file file_script
  parse_file-perform row cols f = record { run = (with_table-perform row cols (open_table f)).run }

  if_there-perform :
      (parse_float : Text → Outcome ℕ) (k : Member → S → Outcome (Unit {0}) × S)
      (p : Member → Script)
      → ((f : Member) → Performs (k f) (p f))
      → (o : Option Member) → Performs (λ s. if_there parse_float w k o s) (there_script p o)
  unfolding there_script
  if_there-perform parse_float k p h none = record { run = λ s. refl }
  if_there-perform parse_float k p h (some f) = record { run = (h f).run }

  then_assoc :
      (r : Outcome (Unit {0}) × S) (j k : S → Outcome (Unit {0}) × S)
      → after_call w (after_call w r j) k ≡ after_call w r (λ s. after_call w (j s) k)
  then_assoc (ok u, s) j k = refl
  then_assoc (err e, s) j k = refl

  perform-append :
      (cs ds : List Call) (o : Outcome (Unit {0})) (s : S)
      → perform_calls w (cs ++ ds) o s
        ≡ after_call w (perform_calls w cs (ok tt) s) (perform_calls w ds o)
  perform-append [] ds o s = refl
  perform-append (c ∷ cs) ds o s =
      after_call_cong (w c s) _ _ (perform-append cs ds o)
      ∙ sym (then_assoc (w c s) (perform_calls w cs (ok tt)) (perform_calls w ds o))

  perform_failed :
      (cs : List Call) (e : Err) (k : S → Outcome (Unit {0}) × S) (s : S)
      → perform_calls w cs (err e) s ≡ after_call w (perform_calls w cs (err e) s) k
  perform_failed [] e k s = refl
  perform_failed (c ∷ cs) e k s =
      after_call_cong (w c s) _ _ (perform_failed cs e k)
      ∙ sym (then_assoc (w c s) (perform_calls w cs (err e)) k)

  joined :
      (cs : List Call) (o : Outcome (Unit {0})) (q : Script) (s : S)
      → perform w (record { calls = cs; end = o } and_then_ q) s
        ≡ after_call w (perform_calls w cs o s) (perform w q)
  joined cs (ok u) q s = perform-append cs q.calls q.end s
  joined cs (err e) q s = perform_failed cs e (perform w q) s

  and_then-perform :
      (j k : S → Outcome (Unit {0}) × S) (p q : Script)
      → Performs j p
      → Performs k q
      → Performs (λ s. after_call w (j s) k) (p and_then_ q)
  and_then-perform j k p q h g = record {
    run = λ s.
        ap (λ r. after_call w r k) (h.run s)
        ∙ after_call_cong (perform w p s) k (perform w q) g.run
        ∙ sym (joined p.calls p.end q s);
  }

  module _ (parse_float : Text → Outcome ℕ) where
    parse_tables-perform :
        (f : Files) → Performs (parse_tables parse_float w f) (tables_script parse_float f)
    unfolding parse_tables tables_script there_script parse_routes parse_stops parse_trips
        parse_calendar parse_calendar_dates parse_stop_times
    parse_tables-perform f = record {
      run =
          (and_then-perform _ _ _ _ (parse_file-perform route_row (codes "route_id" ∷ []) f.routes)
            (and_then-perform _ _ _ _
              (parse_file-perform (stop_row parse_float) (codes "stop_id" ∷ []) f.stops)
              (and_then-perform _ _ _ _
                (parse_file-perform trip_row
                  (codes "trip_id" ∷ codes "route_id" ∷ codes "service_id" ∷ []) f.trips)
                (and_then-perform _ _ _ _
                  (if_there-perform parse_float _ _
                    (parse_file-perform calendar_row (codes "service_id" ∷ [])) f.calendar)
                  (and_then-perform _ _ _ _
                    (if_there-perform parse_float _ _
                      (parse_file-perform calendar_date_row
                        (codes "service_id" ∷ codes "date" ∷ []))
                      f.calendar_dates)
                    (parse_file-perform stop_time_row
                      (codes "trip_id" ∷ codes "stop_id" ∷ codes "stop_sequence" ∷ [])
                      f.stop_times)))))).run;
    }

    pub with_files-perform :
        (o : Outcome Files) → Performs (with_files parse_float w o) (files_script parse_float o)
    with_files-perform (err e) = record { run = λ s. refl }
    with_files-perform (ok f) = record { run = (after (read_meta f)).run }
      where
        after :
            (c : Outcome (Text × Text))
            → Performs
                (after_meta parse_float w c (parse_tables parse_float w f))
                (meta_script c (tables_script parse_float f))
        after (err e) = record { run = λ s. refl }
        after (ok (version, tz)) = record {
          run = λ s. after_call_cong (w (meta version tz) s) _ _ (parse_tables-perform f).run;
        }
