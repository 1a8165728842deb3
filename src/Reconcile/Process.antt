-- ===== src/Reconcile/Process.antt =====
-- Engine.Process, Engine.Sweep and the passes that Process makes, as steps of the engine and of
-- the store's state.
use ridewatch.Base.{
  ℕ, ltb, to_int64, Text, text_eq, Option, none, some, List, [], ◌∷◌, if◌then◌else◌, Outcome, ok,
  err, Err, not_found, canceled, failed,
}
use ridewatch.Domain.Types.{
  Time, feed_vehicle_positions, feed_trip_updates, Snapshot, StopEvent, ScheduleVersion,
}
use ridewatch.Domain.Calendar.{Location}
use ridewatch.Reconcile.Cache.{Visit, TripCache, set_version}
use ridewatch.Reconcile.ServiceDate.{unix_time}
use ridewatch.Reconcile.Live.{mirror, mirror_vehicles, note_header, sweep_live}
use ridewatch.Reconcile.Engine.{Backend, Engine, Schedule, location, gathered, vehicle_entries}

-- What the passes share: how `range` visits, the zone files, and the store.
pub record Env (S : Type 0) : Type 0 where
  pub first : Visit
  pub load_location : Text → Outcome Location
  pub store : Backend S

abbrev pub Result : Type 0 → Type 0
Result S = Outcome (Unit {0}) × Engine × S

module _ {S : Type 0} (env : Env S) where
  -- The store is not called for an empty batch.
  unfoldable pub upsert_all : List StopEvent → S → Outcome ℕ × S
  upsert_all [] s = (ok 0, s)
  upsert_all (ev ∷ evs) s = env.store.upsert_stop_events (ev ∷ evs) s

  unfoldable pub mirror_events : List StopEvent → Engine → Engine
  mirror_events evs e = record e {
    live = record e.live { live_events = mirror e.live.live_events evs };
  }

  abbrev pub after_upsert : List StopEvent → Engine → Outcome ℕ × S → Result S
  after_upsert evs e (err x, s) = (err x, e, s)
  after_upsert evs e (ok n, s) = (ok tt, mirror_events evs e, s)

  abbrev pub apply_events : Outcome (List StopEvent) × TripCache → Engine → S → Result S
  apply_events (err x, c) e s = (err x, record e { cache = c }, s)
  apply_events (ok evs, c) e s = after_upsert evs (record e { cache = c }) (upsert_all evs s)

  unfoldable pub process_trip_updates : Snapshot → Schedule → Engine → S → Result S
  unfolding upsert_all mirror_events
  process_trip_updates snap sched e s =
      apply_events (gathered env.first (env.store.trip_lookup s) snap sched e.cache) e s

  abbrev pub insert_all : Snapshot → S → Outcome ℕ × S
  insert_all snap s = elim snap.vehicles [
    | [] ↦ (ok 0, s)
    | vp ∷ vps ↦ env.store.insert_vehicle_positions (vp ∷ vps) s
  ]

  abbrev pub after_insert : Snapshot → Schedule → Engine → Outcome ℕ × S → Result S
  after_insert snap sched e (err x, s) = (err x, e, s)
  after_insert snap sched e (ok n, s) =
      let (les, c) =
        vehicle_entries env.first (env.store.trip_lookup s) snap sched snap.vehicles e.cache in
      (
        ok tt,
        record e {
          cache = c;
          live = record e.live { vehicles = mirror_vehicles e.live.vehicles les };
        },
        s,
      )

  unfoldable pub process_vehicle_positions : Snapshot → Schedule → Engine → S → Result S
  process_vehicle_positions snap sched e s = after_insert snap sched e (insert_all snap s)

  -- The `switch` on the feed.
  abbrev pub dispatch : Snapshot → Schedule → Engine → S → Result S
  dispatch snap sched e s =
      if text_eq snap.feed feed_trip_updates
      then process_trip_updates snap sched e s
      else if text_eq snap.feed feed_vehicle_positions
      then process_vehicle_positions snap sched e s
      else (ok tt, e, s)

  abbrev pub header_time : Snapshot → Time
  header_time snap =
      if ltb 0 snap.feed_timestamp then unix_time (to_int64 snap.feed_timestamp) else snap.polled_at

  abbrev pub finish : Snapshot → Result S → Result S
  finish snap (err x, e, s) = (err x, e, s)
  finish snap (ok _, e, s) = (
    ok tt,
    record e {
      live = record e.live {
        feed_header = note_header snap.feed (header_time snap) e.live.feed_header;
      };
    },
    s,
  )

  abbrev pub located : Snapshot → ScheduleVersion → Outcome Location × Engine → S → Result S
  located snap ver (err x, e) s = (err x, e, s)
  located snap ver (ok loc, e) s =
      finish snap
        (dispatch snap (some (ver, loc)) (record e { cache = set_version ver.id e.cache }) s)

  abbrev pub versioned : Snapshot → Outcome ScheduleVersion → Engine → S → Result S
  versioned snap (ok ver) e s = located snap ver (location env.load_location ver.agency_tz e) s
  versioned snap (err not_found) e s = finish snap (dispatch snap none e s)
  versioned snap (err canceled) e s = (err canceled, e, s)
  versioned snap (err failed) e s = (err failed, e, s)

  -- Process; `ctx` is ctx.Err(), and a nil snapshot is `none`.
  unfoldable pub process : Option Err → Option Snapshot → Engine → S → Result S
  unfolding process_trip_updates process_vehicle_positions
  process ctx none e s = (ok tt, e, s)
  process (some x) (some snap) e s = (err x, e, s)
  process none (some snap) e s = versioned snap (env.store.active_version s) e s

  abbrev pub after_finalize : Engine → Outcome ℕ × S → Result S
  after_finalize e (err x, s) = (err x, e, s)
  after_finalize e (ok n, s) = (ok tt, e, s)

  unfoldable pub sweep : Option Err → Time → Engine → S → Result S
  sweep (some x) now e s = (err x, e, s)
  sweep none now e s =
      after_finalize (record e { live = sweep_live now e.finalize_grace e.live })
        (env.store.finalize_due now e.finalize_grace s)
