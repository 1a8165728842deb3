-- ===== src/Store/Subscriptions.antt =====
-- internal/store/subscriptions.go: push_subscriptions and push_sent, and the statements on them.
-- An id is drawn from a sequence for every INSERT, also for one that ends as an update; deleting
-- a subscription deletes its rows of push_sent (ON DELETE CASCADE), and a row of push_sent needs
-- its subscription (REFERENCES).
use ridewatch.Base.{
  ℤ, pos, ◌+ℤ◌, eqb_ℤ, Text, text_eq, Bool, true, false, not, ◌&&◌, Option, none, some, List, [],
  ◌∷◌, ◌++◌, map, keep, some_entry, if◌then◌else◌, Outcome, ok, err, Err, not_found, failed,
}
use ridewatch.Domain.Types.{Time, EventKey, Subscription}
use ridewatch.Store.Rows.{RowKey, row_key_eq, date_from_service_date}

pub record SubRow : Type 0 where
  pub sub : Subscription
  pub last_success : Option Time

-- A row of push_sent.
abbrev pub Sent : Type 0
Sent = ℤ × RowKey

pub record PushTables : Type 0 where
  pub rows : List SubRow
  pub next_id : ℤ
  pub sent : List Sent

unfoldable pub has_endpoint : Text → SubRow → Bool
has_endpoint endpoint r = text_eq r.sub.endpoint endpoint

unfoldable pub has_id : ℤ → SubRow → Bool
has_id id r = eqb_ℤ r.sub.id id

-- DO UPDATE SET … of SaveSubscription.
unfoldable pub rewatch : Subscription → SubRow → SubRow
rewatch sub r = record r {
  sub = record r.sub {
    p256dh = sub.p256dh;
    auth = sub.auth;
    stop_id = sub.stop_id;
    route_id = sub.route_id;
    direction_id = sub.direction_id;
    threshold_secs = sub.threshold_secs;
    failure_count = pos 0;
  };
}

abbrev update_where : (SubRow → Bool) → (SubRow → SubRow) → List SubRow → List SubRow
update_where p f = map (λ r. if p r then f r else r)

abbrev pub id_of : List SubRow → ℤ → ℤ
id_of [] d = d
id_of (r ∷ rs) d = r.sub.id

-- SaveSubscription: the id of the row that was inserted or updated.
unfoldable pub save_subscription : Time → Subscription → PushTables → Outcome ℤ × PushTables
unfolding has_endpoint rewatch
save_subscription now sub t =
    let next = t.next_id +ℤ pos 1 in
    if some_entry (has_endpoint sub.endpoint) t.rows
    then (
      ok (id_of (keep (has_endpoint sub.endpoint) t.rows) (pos 0)),
      record t {
        rows = update_where (has_endpoint sub.endpoint) (rewatch sub) t.rows;
        next_id = next;
      },
    )
    else (
      ok t.next_id,
      record t {
        rows =
            t.rows
            ++ (record {
              sub = record sub { id = t.next_id; created_at = now; failure_count = pos 0 };
              last_success = none;
            }
                ∷ []);
        next_id = next;
      },
    )

-- DELETE FROM push_subscriptions WHERE …, with the cascade.
unfoldable pub delete_where : (SubRow → Bool) → PushTables → PushTables
unfolding has_id
delete_where p t =
    let gone = keep p t.rows in
    record t {
      rows = keep (λ r. not (p r)) t.rows;
      sent = keep (λ (id, k). not (some_entry (has_id id) gone)) t.sent;
    }

-- DeleteSubscription; the first argument is the error of its statement, where that fails.
unfoldable pub delete_subscription :
    Option Err → Text → PushTables → Outcome (Unit {0}) × PushTables
unfolding has_endpoint delete_where
delete_subscription (some e) endpoint t = (err e, t)
delete_subscription none endpoint t =
    if some_entry (has_endpoint endpoint) t.rows
    then (ok tt, delete_where (has_endpoint endpoint) t)
    else (err not_found, t)

unfoldable pub sent_eq : Sent → Sent → Bool
sent_eq (i, k) (j, l) = eqb_ℤ i j && row_key_eq k l

abbrev pub row_key_of : EventKey → ℤ → RowKey
row_key_of key date = record {
  service_date = date;
  trip_id = key.trip_id;
  start_time = key.start_time;
  stop_sequence = key.stop_sequence;
}

-- The INSERT … ON CONFLICT DO NOTHING of MarkPushSent.
unfoldable pub insert_sent : ℤ → RowKey → PushTables → Outcome Bool × PushTables
unfolding has_id sent_eq
insert_sent id k t =
    if some_entry (has_id id) t.rows
    then if some_entry (sent_eq (id, k)) t.sent
      then (ok false, t)
      else (ok true, record t { sent = (id, k) ∷ t.sent })
    else (err failed, t)

abbrev pub mark_dated : ℤ → EventKey → Outcome ℤ → PushTables → Outcome Bool × PushTables
mark_dated id key (err x) t = (err x, t)
mark_dated id key (ok date) t = insert_sent id (row_key_of key date) t

unfoldable pub mark_push_sent : ℤ → EventKey → PushTables → Outcome Bool × PushTables
unfolding insert_sent
mark_push_sent id key t = mark_dated id key (date_from_service_date key.service_date) t

unfoldable pub record_push_result : Time → ℤ → Bool → Bool → PushTables → PushTables
unfolding delete_where has_id
record_push_result now id ok_status true t = delete_where (has_id id) t
record_push_result now id true false t = record t {
  rows =
      update_where (has_id id)
        (λ r. record r { sub = record r.sub { failure_count = pos 0 }; last_success = some now })
        t.rows;
}
record_push_result now id false false t = record t {
  rows =
      update_where (has_id id)
        (λ r. record r { sub = record r.sub { failure_count = r.sub.failure_count +ℤ pos 1 } })
        t.rows;
}
