-- ===== src/Tests/Alerts.antt =====
-- The theorems on internal/push at concrete inputs.
use ridewatch.Base.{◌*◌, pos, negsuc, codes, none, [], ◌∷◌, ok, arith}
use ridewatch.Domain.Types.{Subscription}
use ridewatch.Domain.Calendar.{utc, second_ns}
use ridewatch.Push.Evaluate.{World, Pass, evaluate}
use ridewatch.Push.Once.{IsOnce, evaluate-IsOnce}
use ridewatch.Tests.Samples.{event}

abbrev rider : Subscription
rider = record {
  id = pos 1;
  endpoint = codes "https://push.example/1";
  p256dh = codes "k";
  auth = codes "a";
  stop_id = codes "s";
  route_id = [];
  direction_id = negsuc 0;
  threshold_secs = pos 60;
  created_at = pos 0;
  failure_count = pos 0;
}

abbrev world : World
world = record {
  now = pos 1000;
  horizon = pos (2700 * second_ns);
  loc = utc;
  upcoming = λ stop horizon. event 1 5 ∷ event 1 6 ∷ event 2 5 ∷ [];
  stop_lookup = λ id. ok (codes "Main St");
  route_lookup = λ id. ok (codes "1");
  send = λ sub payload. ok 201;
  ctx_err = λ sub. none;
}

abbrev start : Pass
start = record {
  tables = record {
    rows = record { sub = rider; last_success = none } ∷ [];
    next_id = pos 2;
    sent = [];
  };
  stop_names = [];
  route_names = [];
  log = [];
}

evaluate-IsOnce_example : IsOnce (evaluate world (rider ∷ rider ∷ []) start).1
evaluate-IsOnce_example =
    evaluate-IsOnce world (rider ∷ rider ∷ []) start
      (record { different = tt; recorded = tt; below = (omega arith, tt) })
