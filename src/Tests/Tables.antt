-- ===== src/Tests/Tables.antt =====
-- The theorems on the statements of internal/store at concrete inputs.
use ridewatch.Base.{pos, codes, ◌≡◌, refl, Bool, true, some, List, [], ◌∷◌}
use ridewatch.GoMap.{get}
use ridewatch.Store.Rows.{Row, RowKey, row_key_eq, row_key_equality, exec_batch}
use ridewatch.Store.Settled.{Forward}
use ridewatch.Store.Replay.{
  Op, upserts, finalizes, run_ops, all_upserts, replay_is_noop, run_ops-Forward,
}
use ridewatch.Store.Finality.{IsFaithful, final_rows-IsFaithful}
use ridewatch.Tests.Opened.{opened}
use ridewatch.Tests.Samples.{event}

-- Two polls, a finalization, and a late poll that comes too late.
abbrev history : List Op
history =
    upserts (event 1 5 ∷ event 2 5 ∷ [])
    ∷ upserts (event 1 6 ∷ [])
    ∷ finalizes (pos 5000) (pos 600)
    ∷ upserts (event 2 9 ∷ [])
    ∷ []

abbrev row_key : RowKey
row_key = record {
  service_date = pos 739830;
  trip_id = codes "t1";
  start_time = [];
  stop_sequence = pos 1;
}

abbrev final_row : Row
final_row = record {
  stop_id = codes "s";
  route_id = codes "r1";
  direction_id = pos 0;
  schedule_version_id = pos 1;
  vehicle_id = codes "v1";
  scheduled_arrival = some (pos 1000);
  predicted_arrival = some (pos 1300);
  actual_arrival = some (pos 1300);
  delay_secs = some (pos 300);
  final = true;
  skipped = Bool.false;
  feed_timestamp = pos 6;
  first_seen = pos 900;
  last_updated = pos 5000;
  update_count = 2;
}

finalized : get row_key (run_ops history []) ≡ some final_row
unfolding opened row_key_eq
finalized = refl

replay_is_noop_example :
    exec_batch (all_upserts history) (run_ops history []) ≡ (0, run_ops history [])
replay_is_noop_example = replay_is_noop history []

run_ops-Forward_example : Forward (run_ops history []) (run_ops history (run_ops history []))
run_ops-Forward_example = run_ops-Forward history (run_ops history [])

final_rows-IsFaithful_example : IsFaithful final_row
final_rows-IsFaithful_example = final_rows-IsFaithful history row_key final_row finalized
