-- ===== src/Reconcile/Failures.antt =====
-- What Process and Sweep of internal/reconcile leave behind when a call fails, and the age of a
-- feed.
use ridewatch.Base.{
  ◌∙◌, if-elim, Option-cases, inl, inr, ℕ, Text, text_eq, ◌≡◌, refl, Option, none, some, List,
  if◌then◌else◌, Outcome, ok, err, Err, not_found, canceled, failed,
}
use ridewatch.GoMap.{text_equality, get}
use ridewatch.Domain.Types.{
  Snapshot, StopEvent, ScheduleVersion, feed_trip_updates, feed_vehicle_positions,
}
use ridewatch.Domain.Calendar.{Location}
use ridewatch.Reconcile.Cache.{TripCache, set_version}
use ridewatch.Reconcile.Engine.{Engine, Schedule, remember_location, location, gathered}
use ridewatch.Reconcile.Process.{
  Env, Result, upsert_all, after_upsert, apply_events, insert_all, after_insert, finish, located,
  versioned, process, process_trip_updates, process_vehicle_positions, dispatch,
}

abbrev pub Failed : Outcome (Unit {0}) → Type 0
Failed (ok _) = ⊥
Failed (err _) = Unit

loaded-live :
    (name : Text) (e : Engine) (r : Outcome Location) → (remember_location name r e).1.live ≡ e.live
loaded-live name e (ok loc) = refl
loaded-live name e (err x) = refl

module _ {S : Type 0} (env : Env S) where
  -- A pass that fails leaves the live state as it was.
  abbrev KeepsLive : Engine → Result S → Type 0
  KeepsLive e r = Failed r.0 → r.1.live ≡ e.live

  after_upsert-KeepsLive :
      (evs : List StopEvent) (e : Engine) (r : Outcome ℕ × S)
      → KeepsLive e (after_upsert env evs e r)
  after_upsert-KeepsLive evs e (err x, s) h = refl
  after_upsert-KeepsLive evs e (ok n, s) h = absurd h

  apply_events-KeepsLive :
      (r : Outcome (List StopEvent) × TripCache) (e : Engine) (s : S)
      → KeepsLive e (apply_events env r e s)
  apply_events-KeepsLive (err x, c) e s h = refl
  apply_events-KeepsLive (ok evs, c) e s h =
      after_upsert-KeepsLive evs (record e { cache = c }) (upsert_all env evs s) h

  trip_updates-KeepsLive :
      (snap : Snapshot) (sched : Schedule) (e : Engine) (s : S)
      → KeepsLive e (process_trip_updates env snap sched e s)
  unfolding process_trip_updates
  trip_updates-KeepsLive snap sched e s h =
      apply_events-KeepsLive (gathered env.first (env.store.trip_lookup s) snap sched e.cache) e s h

  after_insert-KeepsLive :
      (snap : Snapshot) (sched : Schedule) (e : Engine) (r : Outcome ℕ × S)
      → KeepsLive e (after_insert env snap sched e r)
  after_insert-KeepsLive snap sched e (err x, s) h = refl
  after_insert-KeepsLive snap sched e (ok n, s) h = absurd h

  vehicles-KeepsLive :
      (snap : Snapshot) (sched : Schedule) (e : Engine) (s : S)
      → KeepsLive e (process_vehicle_positions env snap sched e s)
  unfolding process_vehicle_positions
  vehicles-KeepsLive snap sched e s h =
      after_insert-KeepsLive snap sched e (insert_all env snap s) h

  dispatch-KeepsLive :
      (snap : Snapshot) (sched : Schedule) (e : Engine) (s : S)
      → KeepsLive e (dispatch env snap sched e s)
  dispatch-KeepsLive snap sched e s =
      if-elim (KeepsLive e) (text_eq snap.feed feed_trip_updates)
        (process_trip_updates env snap sched e s)
        (if text_eq snap.feed feed_vehicle_positions
          then process_vehicle_positions env snap sched e s
          else (ok tt, e, s))
        (trip_updates-KeepsLive snap sched e s)
        (if-elim (KeepsLive e) (text_eq snap.feed feed_vehicle_positions)
          (process_vehicle_positions env snap sched e s) (ok tt, e, s)
          (vehicles-KeepsLive snap sched e s) (λ h. absurd h))

  finish-KeepsLive :
      (snap : Snapshot) (e : Engine) (r : Result S)
      → KeepsLive e r
      → KeepsLive e (finish env snap r)
  finish-KeepsLive snap e (err x, e', s) k h = k h
  finish-KeepsLive snap e (ok u, e', s) k h = absurd h

  location-live : (name : Text) (e : Engine) → (location env.load_location name e).1.live ≡ e.live
  unfolding location
  location-live name e = elim (Option-cases (get name e.tz)) [
    | inr (loc, q) ↦ rw (q, location)
    | inl q ↦ rw (q, location) (loaded-live name e (env.load_location name))
  ]

  located-KeepsLive :
      (snap : Snapshot) (ver : ScheduleVersion) (e : Engine) (s : S) (r : Outcome Location × Engine)
      → r.1.live ≡ e.live
      → KeepsLive e (located env snap ver r s)
  located-KeepsLive snap ver e s (err x, e') q h = q
  located-KeepsLive snap ver e s (ok loc, e') q h =
      let e'' = record e' { cache = set_version ver.id e'.cache } in
      finish-KeepsLive snap e'' (dispatch env snap (some (ver, loc)) e'' s)
        (dispatch-KeepsLive snap (some (ver, loc)) e'' s) h
      ∙ q

  versioned-KeepsLive :
      (snap : Snapshot) (o : Outcome ScheduleVersion) (e : Engine) (s : S)
      → KeepsLive e (versioned env snap o e s)
  versioned-KeepsLive snap (ok ver) e s =
      located-KeepsLive snap ver e s (location env.load_location ver.agency_tz e)
        (location-live ver.agency_tz e)
  versioned-KeepsLive snap (err not_found) e s =
      finish-KeepsLive snap e (dispatch env snap none e s) (dispatch-KeepsLive snap none e s)
  versioned-KeepsLive snap (err canceled) e s = λ h. refl
  versioned-KeepsLive snap (err failed) e s = λ h. refl

  -- A call of Process that returns an error, whatever failed (the context, the version lookup, the
  -- zone file, a schedule lookup or the store's write), leaves the live vehicles, the live events
  -- and the feed headers as they were.
  pub process_error_keeps_live :
      (ctx : Option Err) (snap : Option Snapshot) (e : Engine) (s : S)
      → Failed (process env ctx snap e s).0
      → (process env ctx snap e s).1.live ≡ e.live
  unfolding process
  process_error_keeps_live ctx none e s h = absurd h
  process_error_keeps_live (some x) (some snap) e s h = refl
  process_error_keeps_live none (some snap) e s h =
      versioned-KeepsLive snap (env.store.active_version s) e s h
