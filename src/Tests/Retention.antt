-- ===== src/Tests/Retention.antt =====
-- The theorems on internal/store/partitions.go at concrete inputs.
use ridewatch.Base.{
  ℕ, ◌*◌, ◌+◌, ℤ, pos, ◌≤ℤ◌, ◌+ℤ◌, Text, codes, ◌≡◌, ◌≢◌, refl, ◌⊎◌, false, some, none, List, [],
  ◌∷◌, In, arith, print_ℤ, value,
}
use ridewatch.Domain.Types.{Time}
use ridewatch.Domain.Calendar.{second_ns, weekday}
use ridewatch.Store.Partitions.{
  week_of_day, partition_name, parse_partition_name, parse_week, round_trips, year_and_week,
  iso_week_start, iso_week, iso_year, ensured_weeks, drop_old_partitions, drop_children, droppable,
  is_outdated,
}
use ridewatch.Store.Weeks.{ensured_weeks-Covers, IsOver, IsExpired, drop_old_partitions-IsExpired}
use ridewatch.Tests.Opened.{opened}
use ridewatch.Base.Texts.{strip}

-- Monday 24 August 2026 is day 739851.
abbrev monday : ℤ
monday = pos 739851

abbrev at_noon : ℕ → Time
at_noon day = pos ((day * 86400 + 43200) * second_ns)

week_35 : partition_name (codes "stop_events") monday ≡ codes "stop_events_y2026w35"
unfolding opened partition_name iso_week iso_year print_ℤ
week_35 = refl

read_back : parse_partition_name (codes "stop_events") (codes "stop_events_y2026w35") ≡ some monday
unfolding opened parse_partition_name parse_week round_trips strip year_and_week iso_week_start
    week_of_day partition_name iso_week iso_year print_ℤ value
read_back = refl

no_week_54 : parse_partition_name (codes "stop_events") (codes "stop_events_y2026w54") ≡ none
unfolding opened parse_partition_name parse_week round_trips strip year_and_week iso_week_start
    week_of_day partition_name iso_week iso_year print_ℤ value
no_week_54 = refl

ensured_weeks-Covers_example :
    (week : ℤ) × In week (ensured_weeks (at_noon 739853) (at_noon 739870))
    × (weekday week ≡ 1)
    × (week ≤ℤ pos 739860)
    × (pos 739860 +ℤ pos 1 ≤ℤ week +ℤ pos 7)
unfolding opened
ensured_weeks-Covers_example =
    ensured_weeks-Covers (at_noon 739853) (at_noon 739870) (pos 739860) (omega arith) (omega arith)

abbrev children : List Text
children =
    codes "stop_events_default" ∷ codes "stop_events_y2026w30" ∷ codes "stop_events_y2026w35" ∷ []

one_dropped :
    (drop_old_partitions (λ c. false) (at_noon 739853) (codes "stop_events") 4 children).children
    ≡ codes "stop_events_default" ∷ codes "stop_events_y2026w35" ∷ []
unfolding opened drop_old_partitions drop_children droppable is_outdated parse_partition_name
    parse_week round_trips strip year_and_week iso_week_start week_of_day partition_name iso_week
    iso_year print_ℤ value
one_dropped = refl

abbrev four : ℕ
four = 4

drop_old_partitions-IsExpired_example :
    (In (codes "stop_events_y2026w30") children
      → In
          (codes "stop_events_y2026w30")
          (drop_old_partitions
            (λ c. false)
            (at_noon 739853)
            (codes "stop_events")
            4
            children).children
        ⊎ ((four ≢ 0)
            × IsExpired (at_noon 739853) 4 (codes "stop_events") (codes "stop_events_y2026w30")))
    × (four ≢ 0
        → (drop_old_partitions (λ c. false) (at_noon 739853) (codes "stop_events") 4 children).error
          ≡ none
        → In
            (codes "stop_events_y2026w30")
            (drop_old_partitions
              (λ c. false)
              (at_noon 739853)
              (codes "stop_events")
              4
              children).children
        → (week : ℤ)
        → parse_partition_name (codes "stop_events") (codes "stop_events_y2026w30") ≡ some week
        → ¬ IsOver (at_noon 739853) 4 week)
drop_old_partitions-IsExpired_example =
    drop_old_partitions-IsExpired (λ c. false) (at_noon 739853) (codes "stop_events") 4 children
      (codes "stop_events_y2026w30")
