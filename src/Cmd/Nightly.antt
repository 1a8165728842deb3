-- ===== src/Cmd/Nightly.antt =====
-- cmd/ridewatch/main.go: the tick of startNightly, with its latches. What it runs is recorded in a
-- log; the clock of each tick and the result of ActiveVersion are parameters. A day is its number.
use ridewatch.Base.{
  ℤ, pos, negsuc, eqb_ℤ, ◌+ℤ◌, ◌-ℤ◌, ◌*ℤ◌, neg_ℤ, Text, Bool, true, false, not, ◌&&◌, Option, none,
  some, List, [], ◌∷◌, ◌++◌, ◌%◌, if◌then◌else◌, Outcome, ok, err, Err, ltb_ℤ, ◌+◌, ◌*◌,
}
use ridewatch.Domain.Types.{Time, ScheduleVersion}
use ridewatch.Domain.Calendar.{utc, second_ns, wall_day, wall_hour}

pub record Plan : Type 0 where
  pub rollup_hour_utc : ℤ
  pub rollup_window_weeks : ℤ
  pub raw_retention_days : ℤ
  pub vehicle_pos_retention_weeks : ℤ
  pub stop_event_retention_weeks : ℤ

-- The days of the last attempts; `none` is the empty string.
pub record Latches : Type 0 where
  pub rollup_day : Option ℤ
  pub retention_day : Option ℤ

pub data Work : Type 0 where
  -- The time zone and the weeks of rollup.Run.
  rolled_up : Text → ℤ → Work
  rollup_skipped : Err → Work
  -- The range of EnsurePartitions.
  ensured : Time → Time → Work
  -- The weeks that DropOldPartitions keeps of stop_events and of vehicle_positions.
  dropped : ℤ → ℤ → Work
  -- The instant before which PruneArchive prunes.
  pruned : Time → Work

pub data Attempt : Type 0 where
  rollup : ℤ → List Work → Attempt
  retention : ℤ → List Work → Attempt

abbrev pub is_day : Option ℤ → ℤ → Bool
is_day none d = false
is_day (some e) d = eqb_ℤ e d

-- The remainder of Go, which has the sign of the dividend.
abbrev pub rem_24 : ℤ → ℤ
rem_24 (pos n) = pos (n % 24)
rem_24 (negsuc n) = neg_ℤ ((n + 1) % 24)

abbrev pub days_ns : ℤ → ℤ
days_ns n = n *ℤ pos (86400 * second_ns)

abbrev pub roll_up : Plan → Outcome ScheduleVersion → List Work
roll_up plan (ok v) = rolled_up v.agency_tz plan.rollup_window_weeks ∷ []
roll_up plan (err e) = rollup_skipped e ∷ []

unfoldable pub retain : Plan → Time → List Work
retain plan now =
    ensured now (now +ℤ days_ns (pos 28))
    ∷ dropped plan.stop_event_retention_weeks plan.vehicle_pos_retention_weeks
    ∷ (if ltb_ℤ (pos 0) plan.raw_retention_days
        then pruned (now -ℤ days_ns plan.raw_retention_days) ∷ []
        else [])

abbrev pub is_ok {ℓ} : {A : Type ℓ} → Outcome A → Bool
is_ok (ok a) = true
is_ok (err e) = false

unfoldable pub rollup_due : Plan → Time → Latches → Bool
rollup_due plan now l =
    eqb_ℤ (pos (wall_hour now utc)) plan.rollup_hour_utc
    && not (is_day l.rollup_day (wall_day now utc))

unfoldable pub retention_due : Plan → Time → Latches → Bool
retention_due plan now l =
    eqb_ℤ (pos (wall_hour now utc)) (rem_24 (plan.rollup_hour_utc +ℤ pos 1))
    && not (is_day l.retention_day (wall_day now utc))

abbrev pub retention_step : Plan → Time → Latches → List Attempt × Latches
retention_step plan now l =
    if retention_due plan now l
    then (
      retention (wall_day now utc) (retain plan now) ∷ [],
      record l { retention_day = some (wall_day now utc) },
    )
    else ([], l)

abbrev pub logged : Attempt → List Attempt × Latches → List Attempt × Latches
logged a (as_, l) = (a ∷ as_, l)

-- One tick. A rollup that finds no active version ends it.
unfoldable pub tick : Plan → Time × Outcome ScheduleVersion → Latches → List Attempt × Latches
unfolding rollup_due retention_due
tick plan (now, active) l =
    let day = wall_day now utc in
    if rollup_due plan now l
    then (let latched = record l { rollup_day = some day } in
        let attempt = rollup day (roll_up plan active) in
        if is_ok active
        then logged attempt (retention_step plan now latched)
        else (attempt ∷ [], latched))
    else retention_step plan now l

abbrev pub then_ticks : List Attempt × Latches → (Latches → List Attempt) → List Attempt
then_ticks (as_, l) k = as_ ++ k l

-- The ticks one after another: the attempts they make.
unfoldable pub ticks : Plan → List (Time × Outcome ScheduleVersion) → Latches → List Attempt
unfolding tick
ticks plan [] l = []
ticks plan (t ∷ ts) l = then_ticks (tick plan t l) (ticks plan ts)
