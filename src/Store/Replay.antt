-- ===== src/Store/Replay.antt =====
-- Histories of upserts and finalizations of internal/store/events.go, and their replay.
use ridewatch.Base.{
  ◌≡◌, refl, Option, none, some, List, [], ◌∷◌, ◌++◌, All, All-append, Outcome, ok, err, Bool-cases,
  inl, inr, ◌-ℤ◌,
}
use ridewatch.GoMap.{get}
use ridewatch.Domain.Types.{Time, Duration, StopEvent}
use ridewatch.Store.Rows.{
  RowKey, Row, Table, Queued, row_key_eq, row_key_equality, exec_batch, queue_events,
  upsert_stop_events, executed, finalize_row, finalize_rows, finalize_due,
}
use ridewatch.Store.Settled.{
  Moves, Moves-refl, Moves-trans, Forward, IsSettled, AllSettled-Forward, exec_batch-Forward,
  exec_batch-settles, exec_batch-settled, finalize_row-Follows,
}

abbrev pub queued_of : Outcome (List Queued) → List Queued
queued_of (err x) = []
queued_of (ok qs) = qs

-- The statements of a batch of events; none if a service date is bad.
abbrev pub statements : List StopEvent → List Queued
statements events = queued_of (queue_events events)

executed-table :
    (o : Outcome (List Queued)) (t : Table) → (executed t o).1 ≡ (exec_batch (queued_of o) t).1
unfolding exec_batch
executed-table (err x) t = refl
executed-table (ok qs) t = refl

pub upsert-table :
    (events : List StopEvent) (t : Table)
    → (upsert_stop_events events t).1 ≡ (exec_batch (statements events) t).1
unfolding upsert_stop_events
upsert-table events t = executed-table (queue_events events) t

-- What can happen to the table: a batch of upserts, or a finalization.
pub data Op : Type 0 where
  upserts : List StopEvent → Op
  finalizes : Time → Duration → Op

abbrev pub run_op : Op → Table → Table
run_op (upserts events) t = (upsert_stop_events events t).1
run_op (finalizes now grace) t = (finalize_due now grace t).1

abbrev pub run_ops : List Op → Table → Table
run_ops [] t = t
run_ops (op ∷ ops) t = run_ops ops (run_op op t)

-- The statements of all batches of a history.
abbrev pub all_upserts : List Op → List Queued
all_upserts [] = []
all_upserts (upserts events ∷ ops) = statements events ++ all_upserts ops
all_upserts (finalizes now grace ∷ ops) = all_upserts ops

abbrev pub finalized_option : Time → Time → Option Row → Option Row
finalized_option now cutoff none = none
finalized_option now cutoff (some r) = some (finalize_row now cutoff r)

pub get-finalize_rows :
    (now cutoff : Time) (k : RowKey) (t : Table)
    → get k (finalize_rows now cutoff t) ≡ finalized_option now cutoff (get k t)
unfolding finalize_rows get
get-finalize_rows now cutoff k [] = refl
get-finalize_rows now cutoff k ((j, r) ∷ t) = elim (Bool-cases (row_key_eq j k)) [
  | inl e ↦ rw e
  | inr e ↦ rw e (get-finalize_rows now cutoff k t)
]

Moves-finalized : (now cutoff : Time) (o : Option Row) → Moves o (finalized_option now cutoff o)
Moves-finalized now cutoff none = tt
Moves-finalized now cutoff (some r) =
    (finalize_row now cutoff r, refl, finalize_row-Follows now cutoff r)

run_op-Forward : (op : Op) (t : Table) → Forward t (run_op op t)
unfolding finalize_due
run_op-Forward (upserts events) t j =
    rw (upsert-table events t) (exec_batch-Forward (statements events) t j)
run_op-Forward (finalizes now grace) t j =
    rw (get-finalize_rows now (now -ℤ grace) j t) (Moves-finalized now (now -ℤ grace) (get j t))

-- Under any history of upserts and finalizations a row is never lost, its feed timestamp never
-- goes back, and once it is final it never changes in any column.
pub run_ops-Forward : (ops : List Op) (t : Table) → Forward t (run_ops ops t)
run_ops-Forward [] t j = Moves-refl (get j t)
run_ops-Forward (op ∷ ops) t j =
    let t' = run_op op t in
    Moves-trans (get j t) (get j t') (get j (run_ops ops t')) (run_op-Forward op t j)
      (run_ops-Forward ops t' j)

run_ops-settles : (ops : List Op) (t : Table) → All (IsSettled (run_ops ops t)) (all_upserts ops)
run_ops-settles [] t = tt
run_ops-settles (upserts events ∷ ops) t =
    let qs = statements events in
    let t' = (upsert_stop_events events t).1 in
    All-append (IsSettled (run_ops ops t')) qs (all_upserts ops)
      (AllSettled-Forward t' (run_ops ops t') qs (run_ops-Forward ops t')
        (rw (upsert-table events t) (exec_batch-settles qs t)))
      (run_ops-settles ops t')
run_ops-settles (finalizes now grace ∷ ops) t = run_ops-settles ops (finalize_due now grace t).1

-- Replaying the upserts of a whole history, in their order and in one batch, over the table which
-- that history left, finalizations included, affects no row and leaves the table as it is.
pub replay_is_noop :
    (ops : List Op) (t : Table) → exec_batch (all_upserts ops) (run_ops ops t) ≡ (0, run_ops ops t)
replay_is_noop ops t = exec_batch-settled (all_upserts ops) (run_ops ops t) (run_ops-settles ops t)
