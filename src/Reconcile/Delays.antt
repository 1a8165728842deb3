-- ===== src/Reconcile/Delays.antt =====
-- What the delays of internal/reconcile/process.go mean: on every event that carries one, the
-- delay is the predicted arrival minus the scheduled one in whole seconds, however it arose.
use ridewatch.Base.{
  ◌∙◌, if-elim, Outcome, ok, err, ℕ, suc, ◌*◌, ◌^◌, ◌≤◌, ◌<◌, ℤ, pos, negsuc, pos_part, neg_part,
  ◌+ℤ◌, ◌-ℤ◌, ◌*ℤ◌, quot_ℤ, mod_ℤ, wrap64, saturate64, int_laws, Text, text_eq, codes, ◌≡◌, ◌≢◌,
  refl, inl, inr, Option, none, some, List, [], ◌∷◌, arith, if◌then◌else◌, All, Bool-cases, drop,
}
use ridewatch.GoMap.{nat_equality, nat_beq, get, get-put}
use ridewatch.Domain.Types.{
  Time, zero_time, is_zero, StopTimeUpdate, TripUpdate, StopEvent, ScheduledStop, Snapshot,
  TripSchedule,
}
use ridewatch.Domain.Calendar.{Location, second_ns}
use ridewatch.Domain.GtfsTime.{seconds}
use ridewatch.Reconcile.ServiceDate.{sub_time, resolve_stop_index, resolve_service_date}
use ridewatch.Reconcile.Trip.{
  delay_between, stated_delay, prediction_from_update, mark_skipped, predict, propagate, round,
  Round, expand, event_at, emit, Matches, match_updates, add_match, initial_delay, first_index,
  canceled_events, scheduled_events, trip_events, base_event, with_date, reconcile_found,
}

-- A number of seconds whose nanoseconds fit an int64: every int32, and every quotient of a
-- Duration by a second.
abbrev pub Fits : ℤ → Type 0
Fits d = (pos_part d ≤ 9223372036) × (neg_part d ≤ 9223372036)

wrap64_fits : (z : ℤ) → pos_part z < 2 ^ 63 → neg_part z < 2 ^ 63 → wrap64 z ≡ z
unfolding wrap64 mod_ℤ
wrap64_fits (pos n) h k = ground arith
wrap64_fits (negsuc n) h k = ground arith

saturate64_fits : (z : ℤ) → pos_part z < 2 ^ 63 → neg_part z < 2 ^ 63 → saturate64 z ≡ z
unfolding saturate64
saturate64_fits (pos n) h k = ground arith
saturate64_fits (negsuc n) h k = ground arith

times_parts :
    (d : ℤ) (k : ℕ)
    → (pos_part (d *ℤ pos k) ≡ pos_part d * k) × (neg_part (d *ℤ pos k) ≡ neg_part d * k)
unfolding ◌*ℤ◌
times_parts (pos n) k = ground arith
times_parts (negsuc n) k = ground arith

seconds_exact : (d : ℤ) → Fits d → seconds d ≡ d *ℤ pos second_ns
unfolding seconds
seconds_exact d h =
    wrap64_fits (d *ℤ pos second_ns) (omega (arith, times_parts d second_ns))
      (omega (arith, times_parts d second_ns))

shift_back : (t z : ℤ) → (t +ℤ z) -ℤ t ≡ z
shift_back t z = omega int_laws

quot-times : (d : ℤ) → quot_ℤ (d *ℤ pos second_ns) second_ns ≡ d
unfolding quot_ℤ ◌*ℤ◌
quot-times (pos n) = ground arith
quot-times (negsuc n) = ground arith

-- A time that lies `d` seconds after another is `d` seconds late.
delay_between-shift : (sched : Time) (d : ℤ) → Fits d → delay_between (sched +ℤ seconds d) sched ≡ d
unfolding delay_between sub_time
delay_between-shift sched d h =
    rw (seconds_exact d h, shift_back sched (d *ℤ pos second_ns))
      (rw
        (saturate64_fits (d *ℤ pos second_ns) (omega (arith, times_parts d second_ns))
          (omega (arith, times_parts d second_ns)))
        (quot-times d))

saturate64_bounds :
    (z : ℤ) → (pos_part (saturate64 z) ≤ 2 ^ 63) × (neg_part (saturate64 z) ≤ 2 ^ 63)
unfolding saturate64
saturate64_bounds (pos n) = ground arith
saturate64_bounds (negsuc n) = ground arith

quot-Fits : (z : ℤ) → pos_part z ≤ 2 ^ 63 → neg_part z ≤ 2 ^ 63 → Fits (quot_ℤ z second_ns)
unfolding quot_ℤ
quot-Fits (pos n) h k = ground arith
quot-Fits (negsuc n) h k = ground arith

delay_between-Fits : (p s : Time) → Fits (delay_between p s)
unfolding delay_between sub_time
delay_between-Fits p s =
    quot-Fits (saturate64 (p -ℤ s)) (saturate64_bounds (p -ℤ s)).0 (saturate64_bounds (p -ℤ s)).1

abbrev pub IsInt32 : ℤ → Type 0
IsInt32 d = (pos_part d < 2147483648) × (neg_part d ≤ 2147483648)

abbrev pub Int32Update : StopTimeUpdate → Type 0
Int32Update stu = IsInt32 stu.arrival_delay × IsInt32 stu.departure_delay

abbrev pub FitsIfSet : Option ℤ → Type 0
FitsIfSet none = Unit
FitsIfSet (some d) = Fits d

-- A delay on the event is the difference of its two times, and there is a scheduled time.
abbrev pub Honest : StopEvent → Type 0
Honest ev =
    (d : ℤ)
    → ev.delay_secs ≡ some d
    → (d ≡ delay_between ev.predicted_arrival ev.scheduled_arrival)
      × (ev.scheduled_arrival ≢ zero_time)

-- The delays that a prediction comes with.
prediction_honest :
    (stu : StopTimeUpdate) (tu : TripUpdate) (sched pred : Time) (d : ℤ)
    → Int32Update stu
    → IsInt32 tu.delay_secs
    → prediction_from_update stu tu sched ≡ some (pred, some d)
    → (d ≡ delay_between pred sched) × (sched ≢ zero_time) × Fits d
unfolding prediction_from_update stated_delay
prediction_honest stu tu sched pred d hs ht e = ground (
  arith,
  delay_between-shift sched stu.arrival_delay,
  delay_between-shift sched stu.departure_delay,
  delay_between-shift sched tu.delay_secs,
  delay_between-Fits pred sched,
)

abbrev pub HonestRound : Round → Type 0
HonestRound (none, running) = FitsIfSet running
HonestRound (some ev, running) = Honest ev × FitsIfSet running

abbrev pub Int32Match : Option StopTimeUpdate → Type 0
Int32Match none = Unit
Int32Match (some stu) = Int32Update stu

skip-Honest :
    (ev : StopEvent) (running : Option ℤ)
    → ev.delay_secs ≡ none
    → FitsIfSet running
    → HonestRound (some (mark_skipped ev), running)
skip-Honest ev running h hr = ((λ d e. cc), hr)

propagate-Honest :
    (ev : StopEvent) (running : Option ℤ) → FitsIfSet running → HonestRound (propagate ev running)
unfolding propagate
propagate-Honest ev none hr = tt
propagate-Honest ev (some d) hr = elim (Bool-cases (is_zero ev.scheduled_arrival)) [
  | inl z ↦ rw z hr
  | inr nz ↦ rw nz ((λ d' e. ground (arith, delay_between-shift ev.scheduled_arrival d)), hr)
]

predict-Honest :
    (ev : StopEvent) (o : Option (Time × Option ℤ)) (running : Option ℤ)
    → ((pred : Time) (d : ℤ)
        → o ≡ some (pred, some d)
        → (d ≡ delay_between pred ev.scheduled_arrival)
          × (ev.scheduled_arrival ≢ zero_time)
          × Fits d)
    → FitsIfSet running
    → HonestRound (predict ev o running)
unfolding predict
predict-Honest ev none running h hr = hr
predict-Honest ev (some (pred, none)) running h hr = ((λ d e. cc), hr)
predict-Honest ev (some (pred, some d)) running h hr =
    ((λ d' e. ground (arith, h pred d refl)), (h pred d refl).2)

round-Honest :
    (tu : TripUpdate) (ev : StopEvent) (o : Option StopTimeUpdate) (running : Option ℤ)
    → ev.delay_secs ≡ none
    → IsInt32 tu.delay_secs
    → Int32Match o
    → FitsIfSet running
    → HonestRound (round tu ev o running)
unfolding round
round-Honest tu ev none running h ht ho hr = propagate-Honest ev running hr
round-Honest tu ev (some stu) running h ht ho hr =
    let told = prediction_from_update stu tu ev.scheduled_arrival in
    let predicted =
      predict-Honest ev told running
        (λ pred d e. prediction_honest stu tu ev.scheduled_arrival pred d ho ht e) hr in
    let no_data = text_eq stu.relationship (codes "NO_DATA") in
    if-elim HonestRound (text_eq stu.relationship (codes "SKIPPED"))
      (some (mark_skipped ev), running) (if no_data then (none, none) else predict ev told running)
      (skip-Honest ev running h hr)
      (if-elim HonestRound no_data (none, none) (predict ev told running) tt predicted)

event_at-delay :
    (base : StopEvent) (loc : Location) (stop : ScheduledStop)
    → (event_at base loc stop).delay_secs ≡ base.delay_secs
unfolding event_at
event_at-delay base loc stop = refl

emit-Honest :
    (r : Round) (evs : List StopEvent)
    → HonestRound r
    → (FitsIfSet r.1 → All Honest evs)
    → All Honest (emit r.0 evs)
emit-Honest (none, running) evs h hs = hs h
emit-Honest (some ev, running) evs h hs = (h.0, hs h.1)

running-Fits : (r : Round) → HonestRound r → FitsIfSet r.1
running-Fits (none, running) h = h
running-Fits (some ev, running) h = h.1

abbrev pub Int32Matches : Matches → Type 0
Int32Matches m = (i : ℕ) → Int32Match (get i m)

expand-Honest :
    (tu : TripUpdate) (base : StopEvent) (loc : Location) (m : Matches) (i : ℕ)
    (stops : List ScheduledStop) (running : Option ℤ)
    → base.delay_secs ≡ none
    → IsInt32 tu.delay_secs
    → Int32Matches m
    → FitsIfSet running
    → All Honest (expand tu base loc m i stops running)
unfolding expand
expand-Honest tu base loc m i [] running hb ht hm hr = tt
expand-Honest tu base loc m i (stop ∷ stops) running hb ht hm hr =
    let h =
      round-Honest tu (event_at base loc stop) (get i m) running (event_at-delay base loc stop ∙ hb)
        ht (hm i) hr in
    let r = round tu (event_at base loc stop) (get i m) running in
    emit-Honest r (expand tu base loc m (suc i) stops r.1) h
      (λ fits. expand-Honest tu base loc m (suc i) stops r.1 hb ht hm fits)

no_match : Int32Matches []
unfolding get
no_match i = tt

add_match-Int32 :
    (o : Option ℕ) (stu : StopTimeUpdate) (m : Matches)
    → Int32Update stu
    → Int32Matches m
    → Int32Matches (add_match o stu m)
unfolding add_match
add_match-Int32 none stu m hs hm i = hm i
add_match-Int32 (some idx) stu m hs hm i =
    rw (get-put idx i stu m) (if-elim Int32Match (nat_beq idx i) (some stu) (get i m) hs (hm i))

match_updates-Int32 :
    (stops : List ScheduledStop) (stus : List StopTimeUpdate) (m : Matches)
    → All Int32Update stus
    → Int32Matches m
    → Int32Matches (match_updates stops stus m)
unfolding match_updates
match_updates-Int32 stops [] m hs hm = hm
match_updates-Int32 stops (stu ∷ stus) m hs hm =
    match_updates-Int32 stops stus (add_match (resolve_stop_index stops stu) stu m) hs.1
      (add_match-Int32 (resolve_stop_index stops stu) stu m hs.0 hm)

initial-Fits : (tu : TripUpdate) → IsInt32 tu.delay_secs → FitsIfSet (initial_delay tu)
unfolding initial_delay
initial-Fits tu h = elim (Bool-cases tu.delay_set) [ inl e ↦ rw e (omega arith) | inr e ↦ rw e tt ]

canceled-Honest :
    (base : StopEvent) (loc : Location) (stops : List ScheduledStop)
    → base.delay_secs ≡ none
    → All Honest (canceled_events base loc stops)
unfolding canceled_events event_at
canceled-Honest base loc [] h = tt
canceled-Honest base loc (stop ∷ stops) h = ((λ d e. cc), canceled-Honest base loc stops h)

trip_events-Honest :
    (tu : TripUpdate) (base : StopEvent) (loc : Location) (stops : List ScheduledStop)
    → base.delay_secs ≡ none
    → IsInt32 tu.delay_secs
    → All Int32Update tu.stop_time_updates
    → All Honest (trip_events tu base loc stops)
unfolding scheduled_events
trip_events-Honest tu base loc stops hb ht hs =
    let m = match_updates stops tu.stop_time_updates [] in
    let i = first_index tu stops m in
    if-elim (All Honest) (text_eq tu.schedule_relationship (codes "CANCELED"))
      (canceled_events base loc stops) (scheduled_events tu base loc stops)
      (canceled-Honest base loc stops hb)
      (expand-Honest tu base loc m i (drop i stops) (initial_delay tu) hb ht
        (match_updates-Int32 stops tu.stop_time_updates [] hs no_match) (initial-Fits tu ht))

dated-Honest :
    (tu : TripUpdate) (snap : Snapshot) (version_id : ℤ) (ts : TripSchedule) (loc : Location)
    (date : Outcome Text)
    → IsInt32 tu.delay_secs
    → All Int32Update tu.stop_time_updates
    → All Honest (with_date tu snap version_id ts loc date)
unfolding base_event
dated-Honest tu snap version_id ts loc (err e) ht hs = tt
dated-Honest tu snap version_id ts loc (ok date) ht hs =
    trip_events-Honest tu (base_event tu snap version_id ts date) loc ts.stops refl ht hs

-- Every event that reconcileTrip makes of a trip update with 32-bit delays is honest: a delay that
-- it carries, be it taken from an explicit time, stated by the stop's update, stated for the trip
-- or carried over from an earlier stop, is the event's predicted arrival minus its scheduled
-- arrival in whole seconds, and that scheduled arrival is known.
pub reconcile_found-Honest :
    (tu : TripUpdate) (snap : Snapshot) (version_id : ℤ) (ts : TripSchedule) (loc : Location)
    → IsInt32 tu.delay_secs
    → All Int32Update tu.stop_time_updates
    → All Honest (reconcile_found tu snap version_id ts loc)
unfolding reconcile_found
reconcile_found-Honest tu snap version_id ts loc =
    dated-Honest tu snap version_id ts loc (resolve_service_date tu ts.stops loc snap.polled_at)
