-- ===== src/Cmd/Nights.antt =====
-- The ticks of startNightly of cmd/ridewatch/main.go: the rollup and the retention once a day.
use ridewatch.Base.{
  ℕ, ℤ, pos, negsuc, eqb_ℤ, ◌+ℤ◌, +ℤ_parts, mod_ℤ, ◌≡◌, ◌≢◌, refl, sym, ap, subst, ◌∙◌, Bool, true,
  false, Bool-cases, inl, inr, Option, none, some, List, [], ◌∷◌, ◌++◌, map, arith, if-elim,
  if-split, Outcome, ◌%◌, ◌+◌, ◌<◌,
}
use ridewatch.Domain.Types.{Time, ScheduleVersion}
use ridewatch.Domain.Calendar.{utc, wall_clock, wall_day, wall_hour}
use ridewatch.Cmd.Nightly.{
  Plan, Latches, Work, Attempt, rollup, retention, is_ok, rem_24, roll_up, rollup_due,
  retention_due, retention_step, logged, tick, then_ticks, ticks,
}
use ridewatch.Cmd.OnceADay.{fires, InOrder, OnceOn, fires-OnceOn}

abbrev pub rollup_days : List Attempt → List ℤ
rollup_days [] = []
rollup_days (rollup d w ∷ as_) = d ∷ rollup_days as_
rollup_days (retention d w ∷ as_) = rollup_days as_

abbrev pub retention_days : List Attempt → List ℤ
retention_days [] = []
retention_days (rollup d w ∷ as_) = retention_days as_
retention_days (retention d w ∷ as_) = d ∷ retention_days as_

abbrev pub Tick : Type 0
Tick = Time × Outcome ScheduleVersion

-- The day of each tick, and whether its hour is that of the rollup or of the retention.
abbrev pub rollup_hours : Plan → List Tick → List (ℤ × Bool)
rollup_hours plan = map (λ ((now, active) : Tick).
    (wall_day now utc, eqb_ℤ (pos (wall_hour now utc)) plan.rollup_hour_utc))

abbrev pub retention_hours : Plan → List Tick → List (ℤ × Bool)
retention_hours plan = map (λ ((now, active) : Tick).
    (wall_day now utc, eqb_ℤ (pos (wall_hour now utc)) (rem_24 (plan.rollup_hour_utc +ℤ pos 1))))

-- The two hours differ.
hours_apart :
    (h : ℕ) (r : ℤ) → h < 24 → eqb_ℤ (pos h) r ≡ true → eqb_ℤ (pos h) (rem_24 (r +ℤ pos 1)) ≡ false
unfolding ◌+ℤ◌
hours_apart h (pos r) b e =
    let next : pos r +ℤ pos 1 ≡ pos (r + 1) = ground (arith, +ℤ_parts (pos r) (pos 1)) in
    let same : h ≡ r = ground (arith, e) in
    let apart : (r + 1) % 24 ≢ h = λ q. omega (arith, q, same, b) in rw next (ground (arith, apart))
hours_apart h (negsuc r) b e = absurd (ground (arith, e))

mod_ℤ-lt : (a : ℤ) → mod_ℤ a 86400 < 86400
unfolding mod_ℤ
mod_ℤ-lt (pos n) = omega arith
mod_ℤ-lt (negsuc n) = omega arith

wall_hour-lt : (now : Time) → wall_hour now utc < 24
unfolding wall_hour
wall_hour-lt now = omega (arith, mod_ℤ-lt (wall_clock now utc))

rollup_days-append :
    (as_ bs : List Attempt) → rollup_days (as_ ++ bs) ≡ rollup_days as_ ++ rollup_days bs
rollup_days-append [] bs = refl
rollup_days-append (rollup d w ∷ as_) bs = ap (λ ds. d ∷ ds) (rollup_days-append as_ bs)
rollup_days-append (retention d w ∷ as_) bs = rollup_days-append as_ bs

retention_days-append :
    (as_ bs : List Attempt) → retention_days (as_ ++ bs) ≡ retention_days as_ ++ retention_days bs
retention_days-append [] bs = refl
retention_days-append (rollup d w ∷ as_) bs = retention_days-append as_ bs
retention_days-append (retention d w ∷ as_) bs = ap (λ ds. d ∷ ds) (retention_days-append as_ bs)

-- The rollups that a tick begins, and its latch.
record Rolls (r : List Attempt × Latches) (days : List ℤ) (latch : Option ℤ) : Type 0 where
  days_same : rollup_days r.0 ≡ days
  latch_same : r.1.rollup_day ≡ latch

retention_step-Rolls :
    (plan : Plan) (now : Time) (l : Latches) → Rolls (retention_step plan now l) [] l.rollup_day
retention_step-Rolls plan now l =
    if-elim (λ r. Rolls r [] l.rollup_day) (retention_due plan now l) _ _
      (record { days_same = refl; latch_same = refl })
      (record { days_same = refl; latch_same = refl })

logged-Rolls :
    (d : ℤ) (w : List Work) (r : List Attempt × Latches) (ds : List ℤ) (o : Option ℤ)
    → Rolls r ds o
    → Rolls (logged (rollup d w) r) (d ∷ ds) o
logged-Rolls d w (as_, l) ds o h = record {
  days_same = ap (λ es. d ∷ es) h.days_same;
  latch_same = h.latch_same;
}

begun-Rolls :
    (plan : Plan) (now : Time) (active : Outcome ScheduleVersion) (l : Latches)
    → rollup_due plan now l ≡ true
    → Rolls (tick plan (now, active) l) (wall_day now utc ∷ []) (some (wall_day now utc))
unfolding tick
begun-Rolls plan now active l e = rw e (
    if-elim (λ r. Rolls r (wall_day now utc ∷ []) (some (wall_day now utc))) (is_ok active) _ _
      (logged-Rolls (wall_day now utc) (roll_up plan active) _ [] _
        (retention_step-Rolls plan now (record l { rollup_day = some (wall_day now utc) })))
      (record { days_same = refl; latch_same = refl }))

passed-Rolls :
    (plan : Plan) (now : Time) (active : Outcome ScheduleVersion) (l : Latches)
    → rollup_due plan now l ≡ false
    → Rolls (tick plan (now, active) l) [] l.rollup_day
unfolding tick
passed-Rolls plan now active l e = rw e (retention_step-Rolls plan now l)

then_ticks-Rolls :
    (r : List Attempt × Latches) (ds : List ℤ) (o : Option ℤ) (k : Latches → List Attempt)
    (rest : Option ℤ → List ℤ)
    → Rolls r ds o
    → ((l : Latches) → rollup_days (k l) ≡ rest l.rollup_day)
    → rollup_days (then_ticks r k) ≡ ds ++ rest o
then_ticks-Rolls (as_, l) ds o k rest h g =
    rollup_days-append as_ (k l)
    ∙ (λ i. h.days_same i ++ g l i)
    ∙ ap (λ p. ds ++ rest p) h.latch_same

rollup_days-ticks :
    (plan : Plan) (ts : List Tick) (l : Latches)
    → rollup_days (ticks plan ts l) ≡ fires (rollup_hours plan ts) l.rollup_day
unfolding ticks fires rollup_due
rollup_days-ticks plan [] l = refl
rollup_days-ticks plan ((now, active) ∷ ts) l =
    if-split
      (λ (ds : List ℤ). rollup_days (then_ticks (tick plan (now, active) l) (ticks plan ts)) ≡ ds)
      (rollup_due plan now l) _ _
      (λ e.
        then_ticks-Rolls _ _ _ (ticks plan ts) (fires (rollup_hours plan ts))
          (begun-Rolls plan now active l e) (rollup_days-ticks plan ts))
      (λ e.
        then_ticks-Rolls _ _ _ (ticks plan ts) (fires (rollup_hours plan ts))
          (passed-Rolls plan now active l e) (rollup_days-ticks plan ts))

-- The retentions that a tick begins, and its latch.
record Retains (r : List Attempt × Latches) (days : List ℤ) (latch : Option ℤ) : Type 0 where
  days_same : retention_days r.0 ≡ days
  latch_same : r.1.retention_day ≡ latch

logged-Retains :
    (d : ℤ) (w : List Work) (r : List Attempt × Latches) (ds : List ℤ) (o : Option ℤ)
    → Retains r ds o
    → Retains (logged (rollup d w) r) ds o
logged-Retains d w (as_, l) ds o h = record { days_same = h.days_same; latch_same = h.latch_same }

-- A tick in the hour of the rollup is not in that of the retention.
not_both :
    (plan : Plan) (now : Time) (l : Latches)
    → retention_due plan now l ≡ true
    → rollup_due plan now l ≡ false
unfolding rollup_due retention_due
not_both plan now l e = elim (Bool-cases (eqb_ℤ (pos (wall_hour now utc)) plan.rollup_hour_utc)) [
  | inl h ↦
      let apart = hours_apart (wall_hour now utc) plan.rollup_hour_utc (wall_hour-lt now) h in
      absurd (cc (rw apart at e))
  | inr h ↦ rw h refl
]

retained-Retains :
    (plan : Plan) (now : Time) (active : Outcome ScheduleVersion) (l : Latches)
    → retention_due plan now l ≡ true
    → Retains (tick plan (now, active) l) (wall_day now utc ∷ []) (some (wall_day now utc))
unfolding tick
retained-Retains plan now active l e =
    rw (not_both plan now l e, e) (record { days_same = refl; latch_same = refl })

-- A step of the retention that is not due.
idle-Retains :
    (plan : Plan) (now : Time) (l : Latches)
    → retention_due plan now l ≡ false
    → Retains (retention_step plan now l) [] l.retention_day
idle-Retains plan now l e = rw e (record { days_same = refl; latch_same = refl })

unretained-Retains :
    (plan : Plan) (now : Time) (active : Outcome ScheduleVersion) (l : Latches)
    → retention_due plan now l ≡ false
    → Retains (tick plan (now, active) l) [] l.retention_day
unfolding tick retention_due
unretained-Retains plan now active l e =
    if-elim (λ r. Retains r [] l.retention_day) (rollup_due plan now l) _ _
      (if-elim (λ r. Retains r [] l.retention_day) (is_ok active) _ _
        (logged-Retains (wall_day now utc) (roll_up plan active) _ [] _
          (idle-Retains plan now (record l { rollup_day = some (wall_day now utc) }) e))
        (record { days_same = refl; latch_same = refl }))
      (idle-Retains plan now l e)

then_ticks-Retains :
    (r : List Attempt × Latches) (ds : List ℤ) (o : Option ℤ) (k : Latches → List Attempt)
    (rest : Option ℤ → List ℤ)
    → Retains r ds o
    → ((l : Latches) → retention_days (k l) ≡ rest l.retention_day)
    → retention_days (then_ticks r k) ≡ ds ++ rest o
then_ticks-Retains (as_, l) ds o k rest h g =
    retention_days-append as_ (k l)
    ∙ (λ i. h.days_same i ++ g l i)
    ∙ ap (λ p. ds ++ rest p) h.latch_same

retention_days-ticks :
    (plan : Plan) (ts : List Tick) (l : Latches)
    → retention_days (ticks plan ts l) ≡ fires (retention_hours plan ts) l.retention_day
unfolding ticks fires retention_due
retention_days-ticks plan [] l = refl
retention_days-ticks plan ((now, active) ∷ ts) l =
    if-split
      (λ (ds : List ℤ).
        retention_days (then_ticks (tick plan (now, active) l) (ticks plan ts)) ≡ ds)
      (retention_due plan now l) _ _
      (λ e.
        then_ticks-Retains _ _ _ (ticks plan ts) (fires (retention_hours plan ts))
          (retained-Retains plan now active l e) (retention_days-ticks plan ts))
      (λ e.
        then_ticks-Retains _ _ _ (ticks plan ts) (fires (retention_hours plan ts))
          (unretained-Retains plan now active l e) (retention_days-ticks plan ts))

-- Over any ticks whose days do not go back, the rollup is begun exactly on the days that have a
-- tick in its hour and once on each, whether an active version was found or not, and so is the
-- retention on the days that have a tick in the hour after.
pub ticks-OnceOn :
    (plan : Plan) (ts : List Tick)
    → InOrder (rollup_hours plan ts)
    → InOrder (retention_hours plan ts)
    → OnceOn
        (rollup_hours plan ts)
        (rollup_days (ticks plan ts (record { rollup_day = none; retention_day = none })))
      × OnceOn
          (retention_hours plan ts)
          (retention_days (ticks plan ts (record { rollup_day = none; retention_day = none })))
ticks-OnceOn plan ts i j = (
  subst (OnceOn (rollup_hours plan ts)) (sym (rollup_days-ticks plan ts _)) (fires-OnceOn _ i),
  subst (OnceOn (retention_hours plan ts)) (sym (retention_days-ticks plan ts _))
      (fires-OnceOn _ j),
)
