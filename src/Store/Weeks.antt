-- ===== src/Store/Weeks.antt =====
-- The partitions of internal/store/partitions.go cover the days asked for, and only weeks past
-- their retention are dropped.
use ridewatch.Base.{
  ◌≢◌, ℕ, zero, suc, ◌+◌, ◌*◌, ◌/◌, ◌<◌, ℤ, pos, negsuc, pos_part, ◌≤ℤ◌, ltb_ℤ, ◌+ℤ◌, ◌-ℤ◌, ◌*ℤ◌,
  mod_ℤ, false, if◌then◌else◌, failed, Text, text_eq_iff, ◌≡◌, refl, ap, sym, ◌∙◌, ◌⊎◌, inl, inr,
  Bool, true, not, Option, none, some, List, [], ◌∷◌, ◌==◌, In, here, there, arith, if-split,
  if-elim, Bool-cases,
}
use ridewatch.Domain.Types.{Time}
use ridewatch.Domain.Calendar.{utc, second_ns, wall_day, weekday}
use ridewatch.Store.Partitions.{
  week_of_day, week_start, partition_name, round_trips, parse_week, parse_partition_name,
  weeks_from, ensured_weeks, is_outdated, outdated_week, droppable, Dropped, drop_children,
  drop_old_partitions,
}

-- The Monday of a day's week is at most six days before it.
week_of_day-Covers : (d : ℤ) → (week_of_day d ≤ℤ d) × (d +ℤ pos 1 ≤ℤ week_of_day d +ℤ pos 7)
unfolding week_of_day mod_ℤ ◌-ℤ◌ ◌+ℤ◌
week_of_day-Covers (pos n) = (ground arith, ground arith)
week_of_day-Covers (negsuc n) = (ground arith, ground arith)

week_of_day-monday : (d : ℤ) → mod_ℤ (week_of_day d) 7 ≡ 0
unfolding week_of_day mod_ℤ ◌-ℤ◌
week_of_day-monday (pos n) = ground arith
week_of_day-monday (negsuc n) = ground arith

monday-weekday : (d : ℤ) → mod_ℤ d 7 ≡ 0 → weekday d ≡ 1
unfolding weekday mod_ℤ ◌+ℤ◌
monday-weekday (pos n) h = ground arith
monday-weekday (negsuc n) h = ground arith

-- Two Mondays, the first less than a week after the second one's day, are whole weeks apart.
weeks_apart :
    (a b : ℤ)
    → mod_ℤ a 7 ≡ 0
    → mod_ℤ b 7 ≡ 0
    → a +ℤ pos 1 ≤ℤ b +ℤ pos 7
    → (k : ℕ) × (b ≡ a +ℤ pos (7 * k))
unfolding mod_ℤ ◌+ℤ◌ ◌-ℤ◌
weeks_apart (pos a) (pos b) h k l = (pos_part (pos b -ℤ pos a) / 7, ground arith)
weeks_apart (pos a) (negsuc b) h k l = (pos_part (negsuc b -ℤ pos a) / 7, ground arith)
weeks_apart (negsuc a) (pos b) h k l = (pos_part (pos b -ℤ negsuc a) / 7, ground arith)
weeks_apart (negsuc a) (negsuc b) h k l = (pos_part (negsuc b -ℤ negsuc a) / 7, ground arith)

not_past : (k : ℕ) (week v end : ℤ) → v ≡ week +ℤ pos (7 * k) → v ≤ℤ end → ltb_ℤ end week ≢ true
unfolding ◌+ℤ◌
not_past k week v end e h t = ground arith

not_below : (k : ℕ) → ¬ (k < 0)
not_below k l = omega (arith, l)

plus_zero : (a : ℤ) → a +ℤ pos 0 ≡ a
unfolding ◌+ℤ◌
plus_zero a = ground arith

next_week : (a : ℤ) (k : ℕ) → a +ℤ pos (7 * suc k) ≡ a +ℤ pos 7 +ℤ pos (7 * k)
unfolding ◌+ℤ◌
next_week a k = ground arith

In-weeks_from :
    (n k : ℕ) (week v end : ℤ)
    → v ≡ week +ℤ pos (7 * k)
    → k < n
    → v ≤ℤ end
    → In v (weeks_from n week end)
unfolding weeks_from
In-weeks_from zero k week v end e l h = elim (not_below k l) [ ]
In-weeks_from (suc n) zero week v end e l h =
    if-split (In v) (ltb_ℤ end week) _ _ (λ t. elim (not_past 0 week v end e h t) [ ])
      (λ f. here (e ∙ plus_zero week))
In-weeks_from (suc n) (suc k) week v end e l h =
    if-split (In v) (ltb_ℤ end week) _ _ (λ t. elim (not_past (suc k) week v end e h t) [ ])
      (λ f.
        there
          (In-weeks_from n k (week +ℤ pos 7) v end (e ∙ next_week week k) (ground (arith, l)) h))

-- The weeks of days in order are in order.
first-le : (a b : ℤ) → a ≤ℤ b → week_of_day a +ℤ pos 1 ≤ℤ week_of_day b +ℤ pos 7
unfolding ◌+ℤ◌
first-le a b h = ground (arith, week_of_day-Covers a, week_of_day-Covers b, h)

last-le : (a b : ℤ) → a ≤ℤ b → week_of_day a ≤ℤ week_of_day b
unfolding week_of_day ◌+ℤ◌ mod_ℤ ◌-ℤ◌
last-le (pos a) (pos b) h = ground arith
last-le (pos a) (negsuc b) h = ground arith
last-le (negsuc a) (pos b) h = ground arith
last-le (negsuc a) (negsuc b) h = ground arith

few_weeks : (a b c : ℤ) (k : ℕ) → b ≡ a +ℤ pos (7 * k) → b ≤ℤ c → k < pos_part (c -ℤ a) + 1
unfolding ◌+ℤ◌ ◌-ℤ◌
few_weeks a b c k e h = ground arith

-- EnsurePartitions leaves no day out: for every day from that of `from` to that of `to`, it visits
-- a week that begins on a Monday and holds the day among its seven days.
pub ensured_weeks-Covers :
    (from to : Time) (d : ℤ)
    → wall_day from utc ≤ℤ d
    → d ≤ℤ wall_day to utc
    → (week : ℤ) × In week (ensured_weeks from to)
      × (weekday week ≡ 1)
      × (week ≤ℤ d)
      × (d +ℤ pos 1 ≤ℤ week +ℤ pos 7)
unfolding ensured_weeks week_start
ensured_weeks-Covers from to d h k =
    let (n, e) =
      weeks_apart (week_of_day (wall_day from utc)) (week_of_day d)
        (week_of_day-monday (wall_day from utc)) (week_of_day-monday d)
        (first-le (wall_day from utc) d h) in
    let below = last-le d (wall_day to utc) k in
    (
      week_of_day d,
      In-weeks_from _ n _ (week_of_day d) (week_of_day (wall_day to utc)) e
          (few_weeks _ (week_of_day d) _ n e below) below,
      monday-weekday (week_of_day d) (week_of_day-monday d),
      (week_of_day-Covers d).0,
      (week_of_day-Covers d).1,
    )

round_trips→ :
    (parent name : Text) (week w : ℤ)
    → round_trips parent name week ≡ some w
    → partition_name parent w ≡ name
unfolding round_trips
round_trips→ parent name week w h = ground (arith, text_eq_iff (partition_name parent week) name)

parse_week→ :
    (parent name : Text) (o : Option (ℤ × ℤ)) (w : ℤ)
    → parse_week parent name o ≡ some w
    → partition_name parent w ≡ name
unfolding parse_week
parse_week→ parent name none w h = cc
parse_week→ parent name (some (y, k)) w h = round_trips→ parent name _ w h

-- The week has ended, at midnight after its seventh day, and `keep` weeks have passed since.
abbrev pub IsOver : Time → ℕ → ℤ → Type 0
IsOver now keep week =
    (week +ℤ pos 7) *ℤ pos (86400 * second_ns) ≤ℤ now -ℤ pos (7 * keep * 86400 * second_ns)

is_outdated→ :
    (now : Time) (keep : ℕ) (week : ℤ) → is_outdated now keep week ≡ true → IsOver now keep week
unfolding is_outdated
is_outdated→ now keep week h = ground (arith, h)

is_outdated← :
    (now : Time) (keep : ℕ) (week : ℤ) → IsOver now keep week → is_outdated now keep week ≡ true
unfolding is_outdated
is_outdated← now keep week h = ground (arith, h)

-- A child that is gone is the partition of a week whose retention is over.
pub record IsExpired (now : Time) (keep : ℕ) (parent child : Text) : Type 0 where
  pub week : ℤ
  pub named : partition_name parent week ≡ child
  pub over : IsOver now keep week

droppable-IsExpired :
    (now : Time) (keep : ℕ) (parent child : Text)
    → droppable now keep parent child ≡ true
    → IsExpired now keep parent child
unfolding droppable parse_partition_name
droppable-IsExpired now keep parent child h = expired (parse_partition_name parent child) refl h
  where
    expired :
        (o : Option ℤ)
        → parse_partition_name parent child ≡ o
        → outdated_week now keep o ≡ true
        → IsExpired now keep parent child
    expired none e t = cc
    expired (some w) e t = record {
      week = w;
      named = parse_week→ parent child _ w e;
      over = is_outdated→ now keep w t;
    }

drop_children-kept :
    (drops refused : Text → Bool) (c : Text) (cs : List Text)
    → In c cs
    → In c (drop_children drops refused cs).children ⊎ (drops c ≡ true)
unfolding drop_children
drop_children-kept drops refused c [] h = elim h [ ]
drop_children-kept drops refused c (x ∷ cs) (here e) = elim (Bool-cases (drops x)) [
  | inl t ↦ inr (ap drops e ∙ t)
  | inr f ↦ inl (rw f (here e))
]
drop_children-kept drops refused c (x ∷ cs) (there q) =
    let r = drop_children-kept drops refused c cs q in
    if-elim (λ (d : Dropped). In c d.children ⊎ (drops c ≡ true)) (not (drops x)) _ _
      (elim r [ inl i ↦ inl (there i) | inr t ↦ inr t ])
      (if-elim (λ (d : Dropped). In c d.children ⊎ (drops c ≡ true)) (refused x) _ _ (inl (there q))
        r)

drop_children-gone :
    (drops refused : Text → Bool) (c : Text) (cs : List Text)
    → (drop_children drops refused cs).error ≡ none
    → In c (drop_children drops refused cs).children
    → drops c ≡ false
unfolding drop_children
drop_children-gone drops refused c [] e h = elim h [ ]
drop_children-gone drops refused c (x ∷ cs) e h =
    split (drops x) refl (refused x) (drop_children-gone drops refused c cs) e h
  where
    rest : Dropped
    rest = drop_children drops refused cs

    step : Bool → Bool → Dropped
    step d r =
        if not d
        then record rest { children = x ∷ rest.children }
        else if r
        then record { error = some failed; children = x ∷ cs }
        else rest

    split :
        (d : Bool)
        → drops x ≡ d
        → (r : Bool) → (rest.error ≡ none → In c rest.children → drops c ≡ false)
        → (step d r).error ≡ none
        → In c (step d r).children
        → drops c ≡ false
    split false q r ih e (here p) = ap drops p ∙ q
    split false q r ih e (there i) = ih e i
    split true q true ih e i = absurd (ground (arith, e))
    split true q false ih e i = ih e i

kept-not-IsOver :
    (now : Time) (keep : ℕ) (parent child : Text) (week : ℤ)
    → droppable now keep parent child ≡ false
    → parse_partition_name parent child ≡ some week
    → ¬ IsOver now keep week
unfolding droppable
kept-not-IsOver now keep parent child week h e over =
    let still : outdated_week now keep (some week) ≡ false =
      ap (outdated_week now keep) (sym e) ∙ h in
    let gone : is_outdated now keep week ≡ true = is_outdated← now keep week over in absurd (cc)

-- Retention: after dropOldPartitions, failing or not, a child of the parent is still there, or it
-- was the partition of a week that ended `keep` weeks or longer before now; and nothing is dropped
-- with a retention of 0. With another retention, where no error is returned, no child is left whose
-- name reads as that of such a week.
pub drop_old_partitions-IsExpired :
    (refused : Text → Bool) (now : Time) (parent : Text) (weeks : ℕ) (children : List Text)
    (c : Text)
    → (In c children
        → In c (drop_old_partitions refused now parent weeks children).children
          ⊎ ((weeks ≢ 0) × IsExpired now weeks parent c))
      × (weeks ≢ 0
          → (drop_old_partitions refused now parent weeks children).error ≡ none
          → In c (drop_old_partitions refused now parent weeks children).children
          → (week : ℤ) → parse_partition_name parent c ≡ some week
          → ¬ IsOver now weeks week)
unfolding drop_old_partitions
drop_old_partitions-IsExpired refused now parent weeks children c = (
  λ h.
      if-split (λ (d : Dropped). In c d.children ⊎ ((weeks ≢ 0) × IsExpired now weeks parent c))
        (weeks == 0) _ _ (λ t. inl h)
        (λ f. elim (drop_children-kept (droppable now weeks parent) refused c children h) [
          | inl i ↦ inl i
          | inr t ↦ inr (ground (arith, f), droppable-IsExpired now weeks parent c t)
        ]),
  λ n.
      if-split
        (λ (d : Dropped).
          d.error ≡ none
          → In c d.children
          → (week : ℤ) → parse_partition_name parent c ≡ some week
          → ¬ IsOver now weeks week)
        (weeks == 0) _ _ (λ t. absurd (ground (arith, t, n)))
        (λ f e i week q.
          kept-not-IsOver now weeks parent c week
            (drop_children-gone (droppable now weeks parent) refused c children e i) q),
)
