-- ===== src/Api/Subscribe.antt =====
-- internal/api/handlers.go: the handlers of push subscriptions. A body arrives as what
-- encoding/json makes of it; url.Parse and the stop query are parameters, as is the instant at
-- which the database inserts a row.
use ridewatch.Base.{
  ℕ, ℤ, pos, negsuc, ltb_ℤ, eqb_ℤ, Text, text_eq, codes, is_empty, Bool, false, not, ◌&&◌, ◌||◌,
  Option, none, some, ◌⊎◌, inl, inr, if◌then◌else◌, Outcome, ok, err, Err, not_found, canceled,
  failed,
}
use ridewatch.Domain.Types.{Time, Subscription}
use ridewatch.Store.Subscriptions.{PushTables, save_subscription, delete_subscription}

-- What json.Decoder and the limit on the body yield.
pub data Body {ℓ} (A : Type ℓ) : Type ℓ where
  decoded : A → Bool → Body A
  too_large : Body A
  malformed : Body A

pub record SubscribeRequest : Type 0 where
  pub endpoint : Text
  pub p256dh : Text
  pub auth : Text
  pub stop_id : Text
  pub route_id : Text
  pub direction_id : Option ℤ
  pub threshold_secs : Option ℤ

pub record Url : Type 0 where
  pub scheme : Text
  pub host : Text

pub record Response : Type 0 where
  pub status : ℕ
  -- The id in the body of a 201.
  pub id : Option ℤ

pub record Server : Type 0 where
  pub parse_url : Text → Outcome Url
  pub stop : Text → Outcome (Unit {0})
  pub now : Time
  -- The errors of the database's statements, where they fail.
  pub save_error : Option Err
  pub delete_error : Option Err

abbrev pub answer : ℕ → Response
answer s = record { status = s; id = none }

-- decodeStrict, and badRequestOrTooLarge for what it refuses: text after the value is refused as
-- a malformed body is.
unfoldable pub decode_strict {ℓ} : {A : Type ℓ} → Body A → Response ⊎ A
decode_strict (decoded a more) = if more then inl (answer 400) else inr a
decode_strict too_large = inl (answer 413)
decode_strict malformed = inl (answer 400)

unfoldable pub is_https : Outcome Url → Bool
is_https (ok u) = text_eq u.scheme (codes "https") && not (is_empty u.host)
is_https (err e) = false

unfoldable pub direction_of : Option ℤ → ℤ
direction_of none = negsuc 0
direction_of (some d) = d

unfoldable pub valid_direction : ℤ → Bool
valid_direction d = eqb_ℤ d (negsuc 0) || eqb_ℤ d (pos 0) || eqb_ℤ d (pos 1)

abbrev min_ℤ : ℤ → ℤ → ℤ
min_ℤ a b = if ltb_ℤ b a then b else a

abbrev max_ℤ : ℤ → ℤ → ℤ
max_ℤ a b = if ltb_ℤ a b then b else a

unfoldable pub threshold_of : Option ℤ → ℤ
threshold_of none = pos 300
threshold_of (some t) = min_ℤ (max_ℤ t (pos 60)) (pos 3600)

-- The status of an error: 404 where the missing row is reported as such, else 500.
unfoldable pub error_status : Err → ℕ
error_status not_found = 404
error_status canceled = 500
error_status failed = 500

unfoldable pub watch_of : SubscribeRequest → Subscription
unfolding direction_of threshold_of
watch_of req = record {
  id = pos 0;
  endpoint = req.endpoint;
  p256dh = req.p256dh;
  auth = req.auth;
  stop_id = req.stop_id;
  route_id = req.route_id;
  direction_id = direction_of req.direction_id;
  threshold_secs = threshold_of req.threshold_secs;
  created_at = pos 0;
  failure_count = pos 0;
}

unfoldable pub saved : Outcome ℤ × PushTables → Response × PushTables
saved (ok id, t) = (record { status = 201; id = some id }, t)
saved (err e, t) = (answer 500, t)

-- SaveSubscription over a database that may fail.
unfoldable pub attempt : Option Err → Outcome ℤ × PushTables → PushTables → Outcome ℤ × PushTables
attempt none r t = r
attempt (some e) r t = (err e, t)

unfoldable pub save : Server → Subscription → PushTables → Response × PushTables
unfolding saved attempt
save w sub t = saved (attempt w.save_error (save_subscription w.now sub t) t)

unfoldable pub at_stop :
    Outcome (Unit {0}) → Server → SubscribeRequest → PushTables → Response × PushTables
unfolding save error_status watch_of
at_stop (ok u) w req t = save w (watch_of req) t
at_stop (err e) w req t = (answer (error_status e), t)

unfoldable pub subscribe : Server → SubscribeRequest → PushTables → Response × PushTables
unfolding is_https direction_of valid_direction at_stop
subscribe w req t =
    if not (is_https (w.parse_url req.endpoint))
    then (answer 400, t)
    else if is_empty req.p256dh || is_empty req.auth
    then (answer 400, t)
    else if is_empty req.stop_id
    then (answer 400, t)
    else if not (valid_direction (direction_of req.direction_id))
    then (answer 400, t)
    else at_stop (w.stop req.stop_id) w req t

unfoldable pub answered {ℓ} :
    {A : Type ℓ}
    → Response ⊎ A
    → (A → PushTables → Response × PushTables)
    → PushTables
    → Response × PushTables
answered (inl r) f t = (r, t)
answered (inr a) f t = f a t

unfoldable pub handle_subscribe :
    Server → Body SubscribeRequest → PushTables → Response × PushTables
unfolding decode_strict subscribe answered
handle_subscribe w body t = answered (decode_strict body) (subscribe w) t

unfoldable pub deleted : Outcome (Unit {0}) × PushTables → Response × PushTables
unfolding error_status
deleted (ok u, t) = (answer 204, t)
deleted (err e, t) = (answer (error_status e), t)

unfoldable pub unsubscribe : Server → Text → PushTables → Response × PushTables
unfolding deleted
unsubscribe w endpoint t =
    if is_empty endpoint
    then (answer 400, t)
    else deleted (delete_subscription w.delete_error endpoint t)

unfoldable pub handle_unsubscribe : Server → Body Text → PushTables → Response × PushTables
unfolding decode_strict unsubscribe answered
handle_unsubscribe w body t = answered (decode_strict body) (unsubscribe w) t
