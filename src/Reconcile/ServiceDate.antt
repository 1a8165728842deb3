-- ===== src/Reconcile/ServiceDate.antt =====
-- internal/reconcile/process.go: which scheduled stop an update names, and the service date of a
-- trip update.
use ridewatch.Base.{
  ℕ, suc, ℤ, pos, negsuc, ◌+ℤ◌, ◌-ℤ◌, ◌*ℤ◌, ltb_ℤ, eqb_ℤ, saturate64, wrap64, Text, text_eq,
  is_empty, Bool, false, ◌||◌, Option, none, some, List, [], ◌∷◌, if◌then◌else◌, get_elem?, Outcome,
  ok, err, failed, ◌>>=◌,
}
use ridewatch.Domain.Types.{Time, Duration, StopTimeUpdate, TripUpdate, ScheduledStop, best_secs}
use ridewatch.Domain.Calendar.{Location, second_ns}
use ridewatch.Domain.GtfsTime.{parse_service_date, scheduled_time, civil_date, add_days}

-- The index of the first stop that passes a test, counted from `i`.
abbrev pub find_index : (ScheduledStop → Bool) → ℕ → List ScheduledStop → Option ℕ
find_index p i [] = none
find_index p i (stop ∷ stops) =
    let rest = find_index p (suc i) stops in if p stop then some i else rest

-- The stop that an update refers to. `none` is the source's -1.
abbrev pub refers_to : StopTimeUpdate → ScheduledStop → Bool
refers_to stu stop =
    if ltb_ℤ stu.stop_sequence (pos 0)
    then (if is_empty stu.stop_id then false else text_eq stop.stop_id stu.stop_id)
    else eqb_ℤ stop.stop_sequence stu.stop_sequence

unfoldable pub resolve_stop_index : List ScheduledStop → StopTimeUpdate → Option ℕ
resolve_stop_index stops stu =
    if ltb_ℤ stu.stop_sequence (pos 0)
    then if is_empty stu.stop_id
      then none
      else find_index (λ stop. text_eq stop.stop_id stu.stop_id) 0 stops
    else find_index (λ stop. eqb_ℤ stop.stop_sequence stu.stop_sequence) 0 stops

unfoldable pub first_positive : ℤ → ℤ → ℤ
first_positive a b = if ltb_ℤ (pos 0) a then a else b

-- time.Unix(t, 0), counted from the zero time.
unfoldable pub unix_time : ℤ → Time
unix_time t = (t +ℤ pos 62135596800) *ℤ pos second_ns

-- t.Sub(u)
unfoldable pub sub_time : Time → Time → Duration
sub_time t u = saturate64 (t -ℤ u)

abbrev stop_secs : Option ScheduledStop → ℤ
stop_secs none = negsuc 0
stop_secs (some stop) = best_secs stop

-- The loop over the updates that looks for an anchor: seconds of the service day, and the
-- instant that they are compared with.
anchor : List ScheduledStop → List StopTimeUpdate → ℤ × Time → ℤ × Time
unfolding resolve_stop_index first_positive unix_time best_secs
anchor stops [] found = found
anchor stops (stu ∷ stus) (ref_secs, ref_instant) =
    let secs : ℤ = elim (resolve_stop_index stops stu) [
      | none ↦ negsuc 0
      | some idx ↦ stop_secs (get_elem? stops idx)
    ] in
    let t = first_positive stu.arrival_time stu.departure_time in
    let skip = anchor stops stus (ref_secs, ref_instant) in
    let weaker =
      anchor stops stus (if ltb_ℤ ref_secs (pos 0) then secs else ref_secs, ref_instant) in
    if ltb_ℤ secs (pos 0) then skip else if ltb_ℤ (pos 0) t then (secs, unix_time t) else weaker

-- The first scheduled time of the trip, -1 if it has none.
first_secs : List ScheduledStop → ℤ
unfolding best_secs
first_secs [] = negsuc 0
first_secs (stop ∷ stops) =
    let rest = first_secs stops in if ltb_ℤ (best_secs stop) (pos 0) then rest else best_secs stop

-- |scheduled - instant|, with the wrap-around of Go's negation.
unfoldable pub distance : Time → Time → Duration
unfolding sub_time
distance st instant =
    let diff = sub_time st instant in if ltb_ℤ diff (pos 0) then wrap64 (pos 0 -ℤ diff) else diff

-- The loop over the candidate dates.
closest : ℤ → Time → Location → List Text → Text × Duration → Outcome Text
unfolding distance
closest secs instant loc [] (best, best_diff) = ok best
closest secs instant loc (d ∷ ds) (best, best_diff) = scheduled_time d secs loc >>= λ st.
    let diff = distance st instant in
    closest secs instant loc ds
      (if is_empty best || ltb_ℤ diff best_diff then (d, diff) else (best, best_diff))

-- Yesterday or today, whichever puts the anchor nearest to the instant.
unfoldable pub nearest_date : ℤ → Time → Location → Outcome Text
unfolding closest
nearest_date secs instant loc =
    let today = civil_date instant loc in
    add_days today (negsuc 0) >>= λ yesterday.
    closest secs instant loc (yesterday ∷ today ∷ []) ([], pos 0)

unfoldable pub resolve_service_date :
    TripUpdate → List ScheduledStop → Location → Time → Outcome Text
unfolding anchor first_secs nearest_date
resolve_service_date tu stops loc polled_at =
    if is_empty tu.start_date
    then (let (found, instant) = anchor stops tu.stop_time_updates (negsuc 0, polled_at) in
        let secs = (if ltb_ℤ found (pos 0) then first_secs stops else found) in
        if ltb_ℤ secs (pos 0) then err failed else nearest_date secs instant loc)
    else parse_service_date tu.start_date >>= λ _. ok tu.start_date
