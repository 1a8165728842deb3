-- ===== src/Store/Partitions.antt =====
-- internal/store/partitions.go: weekly partitions, a week being the number of its Monday, counted
-- in days from the zero time. The statements that the database refuses are a parameter; a retention
-- below 0 is skipped like 0 and not told apart from it.
use ridewatch.Base.Texts.{strip}
use ridewatch.Base.{
  ℕ, zero, suc, ◌+◌, ◌*◌, ◌/◌, ◌%◌, ℤ, pos, ltb_ℤ, ◌+ℤ◌, ◌-ℤ◌, ◌*ℤ◌, pos_part, Text, text_eq, codes,
  is_digit, pad, print_ℤ, value, Bool, false, not, ◌&&◌, Option, none, some, List, [], ◌∷◌, ◌++◌,
  ◌==◌, if◌then◌else◌, Err, failed,
}
use ridewatch.Domain.Types.{Time}
use ridewatch.Domain.Calendar.{utc, second_ns, day_number, civil_day, wall_day, weekday}

-- weekStart, on the day that t falls on in UTC.
unfoldable pub week_of_day : ℤ → ℤ
unfolding weekday
week_of_day d = d -ℤ pos ((weekday d + 6) % 7)

unfoldable pub week_start : Time → ℤ
week_start t = week_of_day (wall_day t utc)

unfoldable pub iso_week_start : ℤ → ℤ → ℤ
iso_week_start year week = week_of_day (day_number year 1 (pos 4)) +ℤ (week -ℤ pos 1) *ℤ pos 7

-- time.Time.ISOWeek of a Monday: the year that its Thursday lies in, and the Thursday's week there.
unfoldable pub iso_year : ℤ → ℤ
unfolding civil_day
iso_year monday = (civil_day (monday +ℤ pos 3)).year

unfoldable pub iso_week : ℤ → ℕ
unfolding iso_year day_number
iso_week monday = pos_part (monday +ℤ pos 3 -ℤ day_number (iso_year monday) 1 (pos 1)) / 7 + 1

unfoldable pub partition_name : Text → ℤ → Text
partition_name parent week =
    parent ++ codes "_y" ++ print_ℤ (iso_year week) ++ codes "w" ++ pad 2 (iso_week week)

-- (\d{4})w(\d{2})$
unfoldable pub year_and_week : Text → Option (ℤ × ℤ)
year_and_week (a ∷ b ∷ c ∷ d ∷ w ∷ e ∷ f ∷ []) =
    if is_digit a
      && is_digit b
      && is_digit c
      && is_digit d
      && (w == b'w')
      && is_digit e
      && is_digit f
    then some (pos (value 0 (a ∷ b ∷ c ∷ d ∷ [])), pos (value 0 (e ∷ f ∷ [])))
    else none
year_and_week s = none

-- A week whose name is not the one that was read is refused.
unfoldable pub round_trips : Text → Text → ℤ → Option ℤ
round_trips parent name week = if text_eq (partition_name parent week) name then some week else none

unfoldable pub parse_week : Text → Text → Option (ℤ × ℤ) → Option ℤ
parse_week parent name none = none
parse_week parent name (some (year, week)) = round_trips parent name (iso_week_start year week)

abbrev pub read_suffix : Option Text → Option (ℤ × ℤ)
read_suffix none = none
read_suffix (some s) = year_and_week s

unfoldable pub parse_partition_name : Text → Text → Option ℤ
parse_partition_name parent name =
    parse_week parent name (read_suffix (strip (parent ++ codes "_y") name))

-- The weeks that EnsurePartitions visits, from the week of `from` to that of `to`; `n` is how
-- many weeks may be left, and the day count between the two is enough.
unfoldable pub weeks_from : ℕ → ℤ → ℤ → List ℤ
weeks_from zero week end = []
weeks_from (suc n) week end =
    let rest = weeks_from n (week +ℤ pos 7) end in if ltb_ℤ end week then [] else week ∷ rest

unfoldable pub ensured_weeks : Time → Time → List ℤ
ensured_weeks from to =
    let first = week_start from in
    let last = week_start to in weeks_from (pos_part (last -ℤ first) + 1) first last

-- The whole week lies before the cutoff, `keep` weeks before now.
unfoldable pub is_outdated : Time → ℕ → ℤ → Bool
is_outdated now keep week =
    not (
      ltb_ℤ (now -ℤ pos (7 * keep * 86400 * second_ns))
        ((week +ℤ pos 7) *ℤ pos (86400 * second_ns)))

abbrev pub outdated_week : Time → ℕ → Option ℤ → Bool
outdated_week now keep none = false
outdated_week now keep (some week) = is_outdated now keep week

unfoldable pub droppable : Time → ℕ → Text → Text → Bool
droppable now keep parent child = outdated_week now keep (parse_partition_name parent child)

pub record Dropped : Type 0 where
  pub error : Option Err
  pub children : List Text

-- The loop of dropOldPartitions over the children of one parent.
unfoldable pub drop_children : (Text → Bool) → (Text → Bool) → List Text → Dropped
drop_children drops refused [] = record { error = none; children = [] }
drop_children drops refused (c ∷ cs) =
    let rest = drop_children drops refused cs in
    if not (drops c)
    then record rest { children = c ∷ rest.children }
    else if refused c
    then record { error = some failed; children = c ∷ cs }
    else rest

unfoldable pub drop_old_partitions : (Text → Bool) → Time → Text → ℕ → List Text → Dropped
drop_old_partitions refused now parent keep children =
    if keep == 0
    then record { error = none; children = children }
    else drop_children (droppable now keep parent) refused children
