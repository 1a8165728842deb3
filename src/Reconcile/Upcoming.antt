-- ===== src/Reconcile/Upcoming.antt =====
-- What UpcomingAtStop and LiveVehicles of internal/reconcile/engine.go answer.
use mathlib.Core.Path.{subst}
use ridewatch.Base.{
  sym, ◌+ℤ◌, ◌≤ℤ◌, Text, text_eq_iff, text_ltb, text_ltb-asym, text_ltb-negtrans, ◌≡◌, ◌≢◌, ◌↔◌,
  Bool, true, false, List, map, keep, arith, In, In-keep→, In-keep←, In-map→, In-map←,
}
use ridewatch.Base.Sorting.{
  Pairwise, Pairwise-Sorted, IsOrder, Sorted-sort_by, In-sort_by→, In-sort_by←,
}
use ridewatch.Domain.Types.{Time, Duration, zero_time, StopEvent, EventKey}
use ridewatch.Reconcile.Live.{Live, due_at_stop, arrives_before, upcoming_at_stop}

arrives_before-asym : (x y : StopEvent) → arrives_before x y ≡ true → arrives_before y x ≡ false
unfolding arrives_before
arrives_before-asym x y h = ground (arith, text_ltb-asym x.trip_id y.trip_id)

arrives_before-negtrans :
    (x y z : StopEvent)
    → arrives_before y x ≡ false
    → arrives_before z y ≡ false
    → arrives_before z x ≡ false
unfolding arrives_before
arrives_before-negtrans x y z h k = ground (arith, text_ltb-negtrans x.trip_id y.trip_id z.trip_id)

arrives_before-IsOrder : IsOrder arrives_before
arrives_before-IsOrder = record { asym = arrives_before-asym; negtrans = arrives_before-negtrans }

-- The first is predicted no later than the second, and goes by trip id where both are for one
-- instant.
pub record Soonest (x y : StopEvent) : Type 0 where
  pub sooner : x.predicted_arrival ≤ℤ y.predicted_arrival
  pub by_trip : x.predicted_arrival ≡ y.predicted_arrival → text_ltb y.trip_id x.trip_id ≡ false

arrives_before-Soonest : (x y : StopEvent) → arrives_before y x ≡ false → Soonest x y
unfolding arrives_before
arrives_before-Soonest x y h = record {
  sooner = ground (arith, h);
  by_trip = λ e. ground (arith, h, e);
}

-- A live event that a rider at the stop is waiting for.
pub record IsDue (stop_id : Text) (now end : Time) (ev : StopEvent) : Type 0 where
  pub at_stop : ev.stop_id ≡ stop_id
  pub open_event : ev.final ≡ false
  pub served : ev.skipped ≡ false
  pub predicted : ev.predicted_arrival ≢ zero_time
  pub not_past : now ≤ℤ ev.predicted_arrival
  pub within : ev.predicted_arrival ≤ℤ end

IsDue-at_stop→ :
    (stop_id : Text) (now end : Time) (ev : StopEvent)
    → due_at_stop stop_id now end ev ≡ true
    → IsDue stop_id now end ev
unfolding due_at_stop
IsDue-at_stop→ stop_id now end ev h = ground (arith, text_eq_iff ev.stop_id stop_id)

IsDue-at_stop← :
    (stop_id : Text) (now end : Time) (ev : StopEvent)
    → IsDue stop_id now end ev
    → due_at_stop stop_id now end ev ≡ true
unfolding due_at_stop
IsDue-at_stop← stop_id now end ev d = ground (arith, text_eq_iff ev.stop_id stop_id)

module _ (stop_id : Text) (horizon : Duration) (now : Time) (l : Live) where
  abbrev due : StopEvent → Bool
  due = due_at_stop stop_id now (now +ℤ horizon)

  abbrev live_list : List StopEvent
  live_list = map (λ (_, ev). ev) l.live_events

  -- The answer is soonest first: of two events in it the earlier one is predicted to arrive no
  -- later, and where both are predicted for one instant its trip id is not the greater one.
  pub upcoming_at_stop-Soonest : Pairwise Soonest (upcoming_at_stop stop_id horizon now l)
  unfolding upcoming_at_stop
  upcoming_at_stop-Soonest =
      Pairwise-Sorted arrives_before Soonest _ arrives_before-Soonest
        (Sorted-sort_by arrives_before arrives_before-IsOrder (keep due live_list))

  -- An event is in the answer exactly when some key of the live state holds it and it is due: at
  -- the stop, neither final nor skipped, with a prediction from now to the end of the horizon.
  pub In-upcoming_at_stop :
      (ev : StopEvent)
      → In ev (upcoming_at_stop stop_id horizon now l)
        ↔ ((k : EventKey) × In (k, ev) l.live_events × IsDue stop_id now (now +ℤ horizon) ev)
  unfolding upcoming_at_stop
  In-upcoming_at_stop ev = (
    λ h.
        let kept =
          In-keep→ due ev live_list (In-sort_by→ arrives_before ev (keep due live_list) h) in
        let ((k, ev'), i, e) = In-map→ (λ (_, ev). ev) ev l.live_events kept.0 in
        (
          k,
          subst (λ x. In (k, x) l.live_events) (sym e) i,
          IsDue-at_stop→ stop_id now (now +ℤ horizon) ev kept.1,
        ),
    λ (k, i, d). In-sort_by← arrives_before ev (keep due live_list) (
        In-keep← due ev live_list (In-map← (λ (_, ev). ev) (k, ev) l.live_events i)
          (IsDue-at_stop← stop_id now (now +ℤ horizon) ev d)),
  )
