-- ===== src/Push/Evaluate.antt =====
-- internal/push/push.go: one pass over the subscriptions. What UpcomingAtStop answers, the names
-- that the queries return and what the push service answers are parameters of a pass; the alerts
-- that were sent are kept in a log beside the tables.
use ridewatch.Base.{
  ℕ, ◌+◌, ◌/◌, ◌%◌, ℤ, pos, ltb_ℤ, eqb_ℤ, abs_ℤ, Text, text_eq, codes, decimal, pad, is_empty, Bool,
  true, false, not, ◌&&◌, ◌||◌, Option, none, some, List, [], ◌∷◌, ◌++◌, leb, ltb, ◌==◌,
  if◌then◌else◌, Outcome, ok, err, Err,
}
use ridewatch.GoMap.{GoMap, text_equality, get, put}
use ridewatch.Domain.Types.{Time, Duration, is_zero, StopEvent, Subscription, key}
use ridewatch.Domain.Calendar.{Location, wall_hour, wall_minute}
use ridewatch.Store.Subscriptions.{PushTables, mark_push_sent, record_push_result}

pub record Payload : Type 0 where
  pub title : Text
  pub body : Text
  pub url : Text

-- What one pass meets outside the package.
pub record World : Type 0 where
  pub now : Time
  pub horizon : Duration
  pub loc : Location
  pub upcoming : Text → Duration → List StopEvent
  -- q.Stop(id).Name and q.Route(id).ShortName
  pub stop_lookup : Text → Outcome Text
  pub route_lookup : Text → Outcome Text
  -- The status of the push service.
  pub send : Subscription → Payload → Outcome ℕ
  -- ctx.Err() before a subscription.
  pub ctx_err : Subscription → Option Err

pub record Alert : Type 0 where
  pub sub : Subscription
  pub event : StopEvent
  pub payload : Payload

pub record Pass : Type 0 where
  pub tables : PushTables
  pub stop_names : GoMap Text Text
  pub route_names : GoMap Text Text
  pub log : List Alert

abbrev found_name : Text → Outcome Text → Text
found_name id (err x) = id
found_name id (ok name) = if is_empty name then id else name

-- stopName and routeName: the name, through a cache.
unfoldable pub name_of : (Text → Outcome Text) → Text → GoMap Text Text → Text × GoMap Text Text
name_of lookup id cache = elim (get id cache) [
  | some name ↦ (name, cache)
  | none ↦ (found_name id (lookup id), put id (found_name id (lookup id)) cache)
]

-- "h:MM AM/PM" of an hour and a minute of the day.
unfoldable pub clock_12 : ℕ → ℕ → Text
clock_12 h m =
    let h12 = (if h % 12 == 0 then 12 else h % 12) in
    decimal h12 ++ codes ":" ++ pad 2 m ++ (if leb 12 h then codes " PM" else codes " AM")

unfoldable pub arrival_clock : Location → StopEvent → Text
unfolding clock_12
arrival_clock loc ev =
    let t = (if is_zero ev.scheduled_arrival then ev.predicted_arrival else ev.scheduled_arrival) in
    if is_zero t then codes "upcoming" else clock_12 (wall_hour t loc) (wall_minute t loc)

-- Seconds rounded to minutes, halves away from zero, as %d prints them.
unfoldable pub minutes_text : ℤ → Text
minutes_text d =
    let minutes = (abs_ℤ d + 30) / 60 in
    if ltb_ℤ d (pos 0) && ltb 0 minutes then b'-' ∷ decimal minutes else decimal minutes

unfoldable pub payload_for : World → Subscription → StopEvent → ℤ → Text → Text → Payload
unfolding arrival_clock minutes_text
payload_for w sub ev delay route_name stop_name = record {
  title = codes "Route " ++ route_name ++ codes " delayed";
  body =
      stop_name
      ++ codes ": "
      ++ arrival_clock w.loc ev
      ++ codes " arrival running "
      ++ minutes_text delay
      ++ codes " min late";
  url = codes "/stop/" ++ sub.stop_id;
}

-- The outcome of a delivery: whether it is ok, and whether the endpoint is gone.
unfoldable pub delivery : Outcome ℕ → Bool × Bool
delivery (err x) = (false, false)
delivery (ok status) =
    if status == 404 || status == 410
    then (false, true)
    else (leb 200 status && ltb status 300, false)

unfoldable pub deliver : World → Subscription → StopEvent → ℤ → Pass → Pass
unfolding name_of payload_for delivery
deliver w sub ev delay p =
    let (route_name, routes) = name_of w.route_lookup ev.route_id p.route_names in
    let (stop_name, stops) = name_of w.stop_lookup sub.stop_id p.stop_names in
    let body = payload_for w sub ev delay route_name stop_name in
    let (is_ok, gone) = delivery (w.send sub body) in
    record {
      tables = record_push_result w.now sub.id is_ok gone p.tables;
      stop_names = stops;
      route_names = routes;
      log = record { sub = sub; event = ev; payload = body } ∷ p.log;
    }

-- The guards of evaluateSubscription; the delay of an event that passes them.
unfoldable pub worth_alerting : Subscription → StopEvent → Option ℤ
worth_alerting sub ev =
    if not (is_empty sub.route_id) && not (text_eq ev.route_id sub.route_id)
    then none
    else if not (ltb_ℤ sub.direction_id (pos 0)) && not (eqb_ℤ ev.direction_id sub.direction_id)
    then none
    else if ev.skipped
    then none
    else elim ev.delay_secs [
      | none ↦ none
      | some d ↦ if ltb_ℤ d sub.threshold_secs then none else some d
    ]

abbrev pub after_mark :
    World → Subscription → StopEvent → ℤ → Outcome Bool × PushTables → Pass → Pass
after_mark w sub ev delay (err x, t) p = record p { tables = t }
after_mark w sub ev delay (ok false, t) p = record p { tables = t }
after_mark w sub ev delay (ok true, t) p = deliver w sub ev delay (record p { tables = t })

abbrev pub consider : World → Subscription → StopEvent → Option ℤ → Pass → Pass
consider w sub ev none p = p
consider w sub ev (some delay) p =
    after_mark w sub ev delay (mark_push_sent sub.id (key ev) p.tables) p

unfoldable pub evaluate_events : World → Subscription → List StopEvent → Pass → Pass
unfolding worth_alerting deliver
evaluate_events w sub [] p = p
evaluate_events w sub (ev ∷ evs) p =
    evaluate_events w sub evs (consider w sub ev (worth_alerting sub ev) p)

unfoldable pub evaluate_subscription : World → Subscription → Pass → Pass
unfolding evaluate_events
evaluate_subscription w sub p = evaluate_events w sub (w.upcoming sub.stop_id w.horizon) p

-- The loop of Evaluate over the subscriptions that AllSubscriptions listed.
unfoldable pub evaluate : World → List Subscription → Pass → Outcome (Unit {0}) × Pass
unfolding evaluate_subscription
evaluate w [] p = (ok tt, p)
evaluate w (sub ∷ subs) p =
    let rest = evaluate w subs (evaluate_subscription w sub p) in
    elim (w.ctx_err sub) [ some x ↦ (err x, p) | none ↦ rest ]
