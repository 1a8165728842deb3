-- ===== src/Tests/Engine.antt =====
-- The theorems on internal/reconcile at concrete inputs.
use ridewatch.Base.{
  ℕ, ◌+◌, ◌≤◌, pos, ◌+ℤ◌, codes, ◌≡◌, ◌↔◌, refl, none, some, List, [], ◌∷◌, All, In, length, arith,
  ok, err, failed, true,
}
use ridewatch.Base.Sorting.{Pairwise}
use ridewatch.GoMap.{get}
use ridewatch.Domain.Types.{EventKey, StopEvent, key, key_equality, ScheduleVersion}
use ridewatch.Domain.Calendar.{utc}
use ridewatch.Reconcile.Cache.{trip_schedule, cache_put}
use ridewatch.Reconcile.Coherence.{IsCoherent, trip_schedule-IsCoherent, cache_put-le-max}
use ridewatch.Reconcile.Trip.{reconcile_found}
use ridewatch.Reconcile.Delays.{Honest, reconcile_found-Honest}
use ridewatch.Reconcile.Live.{Live, mirror, upcoming_at_stop}
use ridewatch.Reconcile.Mirror.{newest, batch_newest, get-mirror, mirror_never_regresses}
use ridewatch.Reconcile.Upcoming.{Soonest, IsDue, upcoming_at_stop-Soonest, In-upcoming_at_stop}
use ridewatch.Reconcile.Engine.{new_engine}
use ridewatch.Reconcile.Process.{Env, process}
use ridewatch.Reconcile.Failures.{process_error_keeps_live}
use ridewatch.Tests.Opened.{opened}
use ridewatch.Tests.Samples.{
  schedule, update, snapshot, event, repository, first_key, first_key-VisitsSome, full_cache,
}

reconcile_found-Honest_example : All Honest (reconcile_found update snapshot (pos 1) schedule utc)
reconcile_found-Honest_example =
    reconcile_found-Honest update snapshot (pos 1) schedule utc (omega arith) (omega arith)

full_cache-IsCoherent : IsCoherent repository full_cache
unfolding opened
full_cache-IsCoherent [] o e = ground arith
full_cache-IsCoherent (c ∷ k) o e = ground arith

trip_schedule-IsCoherent_example :
    ((trip_schedule first_key repository (pos 1) (codes "t1") full_cache).0
      ≡ repository (pos 1) (codes "t1"))
    × IsCoherent repository (trip_schedule first_key repository (pos 1) (codes "t1") full_cache).1
trip_schedule-IsCoherent_example =
    trip_schedule-IsCoherent first_key repository (pos 1) (codes "t1") full_cache
      full_cache-IsCoherent

cache_put-le-max_example :
    length (cache_put first_key (pos 1) (codes "t2") none full_cache).entries ≤ 1
cache_put-le-max_example =
    cache_put-le-max first_key (pos 1) (codes "t2") none full_cache first_key-VisitsSome
      (omega arith) (omega arith)

abbrev live : Live
live = record {
  vehicles = [];
  live_events = (key (event 2 5), event 2 5) ∷ (key (event 1 7), event 1 7) ∷ [];
  feed_header = [];
}

abbrev batch : List StopEvent
batch = event 2 9 ∷ event 1 6 ∷ []

get-mirror_example :
    get (key (event 1 7)) (mirror live.live_events batch)
    ≡ newest (get (key (event 1 7)) live.live_events) (batch_newest (key (event 1 7)) batch)
get-mirror_example = get-mirror (key (event 1 7)) live.live_events batch

mirror_never_regresses_example :
    (b : StopEvent) × (get (key (event 1 7)) (mirror live.live_events batch) ≡ some b)
    × (7 ≤ b.feed_timestamp)
unfolding opened
mirror_never_regresses_example =
    mirror_never_regresses (key (event 1 7)) live.live_events batch (event 1 7) refl

upcoming_at_stop-Soonest_example :
    Pairwise Soonest (upcoming_at_stop (codes "s") (pos 600) (pos 1000) live)
upcoming_at_stop-Soonest_example = upcoming_at_stop-Soonest (codes "s") (pos 600) (pos 1000) live

In-upcoming_at_stop_example :
    In (event 1 7) (upcoming_at_stop (codes "s") (pos 600) (pos 1000) live) ↔ (
      (k : EventKey) × In (k, event 1 7) live.live_events
      × IsDue (codes "s") (pos 1000) (pos 1000 +ℤ pos 600) (event 1 7))
In-upcoming_at_stop_example = In-upcoming_at_stop (codes "s") (pos 600) (pos 1000) live (event 1 7)

abbrev version : ScheduleVersion
version = record {
  id = pos 1;
  sha256 = [];
  feed_version = [];
  agency_tz = codes "UTC";
  fetched_at = pos 0;
  loaded_at = pos 0;
  active = true;
}

-- A store that refuses every write.
abbrev broken : Env ℕ
broken = record {
  first = first_key;
  load_location = λ name. ok utc;
  store = record {
    active_version = λ s. ok version;
    trip_lookup = λ s. repository;
    upsert_stop_events = λ evs s. (err failed, s + 1);
    insert_vehicle_positions = λ vps s. (err failed, s + 1);
    finalize_due = λ now grace s. (ok 0, s);
  };
}

process_error_keeps_live_example :
    (process broken none (some snapshot) (new_engine (pos 0)) 0).1.live ≡ (new_engine (pos 0)).live
unfolding opened
process_error_keeps_live_example =
    process_error_keeps_live broken none (some snapshot) (new_engine (pos 0)) 0 tt
