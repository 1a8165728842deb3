-- ===== src/Push/Once.antt =====
-- No rider gets the same alert twice: every delivery of internal/push/push.go comes after a claim
-- in push_sent that nobody made before.
use mathlib.Core.Path.{subst}
use ridewatch.Base.{
  ℤ, ◌≡◌, refl, sym, inl, inr, Bool, true, false, Option, none, some, List, [], ◌∷◌, All, Outcome,
  ok, err, Option-cases,
}
use ridewatch.Domain.Types.{StopEvent, Subscription, key}
use ridewatch.Store.Rows.{date_from_service_date}
use ridewatch.Store.Subscriptions.{
  Sent, PushTables, insert_sent, row_key_of, mark_dated, mark_push_sent,
}
use ridewatch.Store.Claims.{
  RowsBelow, Kept, Keeps, Keeps-trans, Keeps-result, Keeps-insert, fresh_claim,
}
use ridewatch.Push.Evaluate.{
  World, Payload, Alert, Pass, name_of, payload_for, delivery, deliver, after_mark, consider,
  worth_alerting, evaluate_events, evaluate_subscription, evaluate,
}

abbrev pub Recorded : PushTables → Alert → Type 0
Recorded t a =
    (d : ℤ) × (date_from_service_date (key a.event).service_date ≡ ok d)
    × Kept (a.sub.id, row_key_of (key a.event) d) t

-- Two alerts of one subscription for one event.
abbrev pub Same : Alert → Alert → Type 0
Same a b = (a.sub.id ≡ b.sub.id) × (key a.event ≡ key b.event)

abbrev pub AllDifferent : List Alert → Type 0
AllDifferent [] = Unit
AllDifferent (a ∷ l) = All (λ b. ¬ Same a b) l × AllDifferent l

pub record IsOnce (p : Pass) : Type 0 where
  pub different : AllDifferent p.log
  pub recorded : All (Recorded p.tables) p.log
  pub below : RowsBelow p.tables

All-Recorded :
    {t t' : PushTables} (l : List Alert)
    → RowsBelow t
    → Keeps t t'
    → All (Recorded t) l
    → All (Recorded t') l
All-Recorded [] b k h = tt
All-Recorded (a ∷ l) b k ((d, e, s), h) =
    ((d, e, k.kept b (a.sub.id, row_key_of (key a.event) d) s), All-Recorded l b k h)

-- No alert of the log is for an event whose claim was nobody's.
All-new :
    (t : PushTables) (a : Alert) (d : ℤ) (l : List Alert)
    → date_from_service_date (key a.event).service_date ≡ ok d
    → ¬ Kept (a.sub.id, row_key_of (key a.event) d) t
    → All (Recorded t) l
    → All (λ b. ¬ Same a b) l
All-new t a d [] e fresh h = tt
All-new t a d (b ∷ l) e fresh ((d', e', kept), h) =
    ((λ same. fresh (moved same)), All-new t a d l e fresh h)
  where
    same_date : Same a b → d' ≡ d
    same_date (i, k) = cc

    moved : Same a b → Kept (a.sub.id, row_key_of (key a.event) d) t
    moved (i, k) =
        subst (λ s. Kept s t) (λ x. (sym i x, row_key_of (sym k x) (same_date (i, k) x))) kept

-- What a fresh claim and the delivery after it do.
module _ (w : World) (sub : Subscription) (ev : StopEvent) (delay : ℤ) (p : Pass) where
  deliver-tables :
      (t : PushTables) → Keeps t (deliver w sub ev delay (record p { tables = t })).tables
  unfolding deliver
  deliver-tables t =
      let body = alert_payload in
      Keeps-result w.now sub.id (delivery (w.send sub body)).0 (delivery (w.send sub body)).1 t
    where
      alert_payload : Payload
      alert_payload =
          payload_for w sub ev delay (name_of w.route_lookup ev.route_id p.route_names).0
            (name_of w.stop_lookup sub.stop_id p.stop_names).0

  deliver-log :
      (t : PushTables)
      → (b : Payload) × ((deliver w sub ev delay (record p { tables = t })).log
          ≡ record { sub = sub; event = ev; payload = b } ∷ p.log)
  unfolding deliver
  deliver-log t = (_, refl)

  IsOnce-deliver :
      (d : ℤ) (t : PushTables)
      → IsOnce p
      → date_from_service_date (key ev).service_date ≡ ok d
      → insert_sent sub.id (row_key_of (key ev) d) p.tables ≡ (ok true, t)
      → IsOnce (deliver w sub ev delay (record p { tables = t }))
  IsOnce-deliver d t once e inserted =
      let (b, logged) = deliver-log t in
      let a : Alert = record { sub = sub; event = ev; payload = b } in
      let claim : Sent = (sub.id, row_key_of (key ev) d) in
      let (fresh, stands) = fresh_claim sub.id (row_key_of (key ev) d) p.tables t inserted in
      let first : Keeps p.tables t =
        subst (λ (r : Outcome Bool × PushTables). Keeps p.tables r.1) inserted
          (Keeps-insert sub.id (row_key_of (key ev) d) p.tables) in
      let then_on = deliver-tables t in
      record {
        different = rw logged (All-new p.tables a d p.log e fresh once.recorded, once.different);
        recorded = rw logged (
          (d, e, then_on.kept (first.rows_below once.below) claim stands),
          All-Recorded p.log once.below (Keeps-trans first then_on) once.recorded,
        );
        below = then_on.rows_below (first.rows_below once.below);
      }

  IsOnce-tables : (t : PushTables) → Keeps p.tables t → IsOnce p → IsOnce (record p { tables = t })
  IsOnce-tables t k once = record {
    different = once.different;
    recorded = All-Recorded p.log once.below k once.recorded;
    below = k.rows_below once.below;
  }

  IsOnce-after_mark :
      (d : ℤ) (r : Outcome Bool × PushTables)
      → date_from_service_date (key ev).service_date ≡ ok d
      → insert_sent sub.id (row_key_of (key ev) d) p.tables ≡ r
      → IsOnce p
      → IsOnce (after_mark w sub ev delay r p)
  IsOnce-after_mark d (err x, t) e i once =
      IsOnce-tables t
        (subst (λ (r : Outcome Bool × PushTables). Keeps p.tables r.1) i
          (Keeps-insert sub.id (row_key_of (key ev) d) p.tables))
        once
  IsOnce-after_mark d (ok false, t) e i once =
      IsOnce-tables t
        (subst (λ (r : Outcome Bool × PushTables). Keeps p.tables r.1) i
          (Keeps-insert sub.id (row_key_of (key ev) d) p.tables))
        once
  IsOnce-after_mark d (ok true, t) e i once = IsOnce-deliver d t once e i

  IsOnce-dated :
      (o : Outcome ℤ)
      → date_from_service_date (key ev).service_date ≡ o
      → IsOnce p
      → IsOnce (after_mark w sub ev delay (mark_dated sub.id (key ev) o p.tables) p)
  IsOnce-dated (err x) e once = once
  IsOnce-dated (ok d) e once =
      IsOnce-after_mark d (insert_sent sub.id (row_key_of (key ev) d) p.tables) e refl once

IsOnce-consider :
    (w : World) (sub : Subscription) (ev : StopEvent) (o : Option ℤ) (p : Pass)
    → IsOnce p
    → IsOnce (consider w sub ev o p)
unfolding mark_push_sent
IsOnce-consider w sub ev none p once = once
IsOnce-consider w sub ev (some delay) p once =
    IsOnce-dated w sub ev delay p (date_from_service_date (key ev).service_date) refl once

IsOnce-events :
    (w : World) (sub : Subscription) (evs : List StopEvent) (p : Pass)
    → IsOnce p
    → IsOnce (evaluate_events w sub evs p)
unfolding evaluate_events
IsOnce-events w sub [] p once = once
IsOnce-events w sub (ev ∷ evs) p once =
    IsOnce-events w sub evs (consider w sub ev (worth_alerting sub ev) p)
      (IsOnce-consider w sub ev (worth_alerting sub ev) p once)

-- A pass of Evaluate over any subscriptions, whatever the feed, the queries and the push service
-- answer and wherever it is cancelled, keeps the log free of two alerts of one subscription for
-- one event, keeps the claim of every alert of the log standing unless its subscription is gone,
-- and keeps every id below the next one to be drawn.
pub evaluate-IsOnce :
    (w : World) (subs : List Subscription) (p : Pass) → IsOnce p → IsOnce (evaluate w subs p).1
unfolding evaluate evaluate_subscription
evaluate-IsOnce w [] p once = once
evaluate-IsOnce w (sub ∷ subs) p once = elim (Option-cases (w.ctx_err sub)) [
  | inr (x, e) ↦ rw (e, evaluate) once
  | inl e ↦
      rw (e, evaluate)
        (evaluate-IsOnce w subs (evaluate_subscription w sub p)
          (IsOnce-events w sub (w.upcoming sub.stop_id w.horizon) p once))
]
