-- ===== src/Store/Finality.antt =====
-- What it means for a row of stop_events to be final.
use mathlib.Core.Path.{subst}
use mathlib.Core.Option.{some-injective}
use ridewatch.Base.{
  ◌≡◌, refl, sym, ◌∙◌, true, false, Option, none, some, List, [], ◌∷◌, arith, All, Outcome, ok, err,
  ◌>>=◌, ℤ, ◌-ℤ◌,
}
use ridewatch.GoMap.{get}
use ridewatch.Domain.Types.{Time, StopEvent}
use ridewatch.Store.Rows.{
  RowKey, Row, Table, Queued, row_key_equality, advanced, may_advance, upsert_row, exec_upsert,
  exec_batch, inserted, date_from_service_date, queue_events, finalize_row, finalize_due,
}
use ridewatch.Store.Settled.{get-exec_upsert}
use ridewatch.Store.Replay.{
  Op, upserts, finalizes, run_op, run_ops, get-finalize_rows, statements, queued_of, upsert-table,
  finalized_option,
}

-- A final row has its last prediction as the actual arrival; an open row has no actual arrival.
pub record IsFaithful (r : Row) : Type 0 where
  pub closed : r.final ≡ true → r.actual_arrival ≡ r.predicted_arrival
  pub still_open : r.final ≡ false → r.actual_arrival ≡ none

-- A row as the statement makes it of an event.
abbrev pub IsFresh : Queued → Type 0
IsFresh (k, r) = (r.final ≡ false) × (r.actual_arrival ≡ none)

abbrev pub AllFaithful : Table → Type 0
AllFaithful t = (k : RowKey) (r : Row) → get k t ≡ some r → IsFaithful r

upsert_row-IsFaithful :
    (o : Option Row) (k : RowKey) (new : Row)
    → IsFresh (k, new)
    → ((r : Row) → o ≡ some r → IsFaithful r)
    → IsFaithful (upsert_row o new).0
unfolding upsert_row advanced may_advance
upsert_row-IsFaithful none k new f h = record { closed = λ e. ground arith; still_open = λ e. f.1 }
upsert_row-IsFaithful (some old) k new f h = record {
  closed = λ e. ground (arith, (h old refl).closed, (h old refl).still_open);
  still_open = λ e. ground (arith, (h old refl).closed, (h old refl).still_open);
}

exec_upsert-AllFaithful :
    (q : Queued) (t : Table) → IsFresh q → AllFaithful t → AllFaithful (exec_upsert q t).1
exec_upsert-AllFaithful (k, new) t f h j r found =
    ground (arith, get-exec_upsert k j new t, h j r, upsert_row-IsFaithful (get k t) k new f (h k))

exec_batch-AllFaithful :
    (qs : List Queued) (t : Table)
    → All IsFresh qs
    → AllFaithful t
    → AllFaithful (exec_batch qs t).1
unfolding exec_batch
exec_batch-AllFaithful [] t f h = h
exec_batch-AllFaithful (q ∷ qs) t f h =
    exec_batch-AllFaithful qs (exec_upsert q t).1 f.1 (exec_upsert-AllFaithful q t f.0 h)

queued-IsFresh :
    (d : Outcome ℤ) (k : ℤ → RowKey) (row : Row) (rest : Outcome (List Queued))
    → ((j : RowKey) → IsFresh (j, row))
    → All IsFresh (queued_of rest)
    → All IsFresh (queued_of ((d >>= λ n. ok (k n, row)) >>= λ q. (rest >>= λ qs. ok (q ∷ qs))))
queued-IsFresh (err x) k row rest f h = tt
queued-IsFresh (ok n) k row (err x) f h = tt
queued-IsFresh (ok n) k row (ok qs) f h = (f (k n), h)

queue_events-IsFresh : (events : List StopEvent) → All IsFresh (statements events)
unfolding queue_events inserted
queue_events-IsFresh [] = tt
queue_events-IsFresh (e ∷ es) =
    queued-IsFresh (date_from_service_date e.service_date)
      (λ d. record {
        service_date = d;
        trip_id = e.trip_id;
        start_time = e.start_time;
        stop_sequence = e.stop_sequence;
      })
      (inserted e) (queue_events es) (λ j. (refl, refl)) (queue_events-IsFresh es)

finalize_row-IsFaithful :
    (now cutoff : Time) (r : Row) → IsFaithful r → IsFaithful (finalize_row now cutoff r)
unfolding finalize_row
finalize_row-IsFaithful now cutoff r h = record {
  closed = λ e. ground (arith, h.closed, h.still_open);
  still_open = λ e. ground (arith, h.closed, h.still_open);
}

option-IsFaithful :
    (now cutoff : Time) (o : Option Row) (r : Row)
    → ((q : Row) → o ≡ some q → IsFaithful q)
    → finalized_option now cutoff o ≡ some r
    → IsFaithful r
option-IsFaithful now cutoff none r h e = ground arith
option-IsFaithful now cutoff (some q) r h e =
    subst IsFaithful (some-injective (finalize_row now cutoff q) r e)
      (finalize_row-IsFaithful now cutoff q (h q refl))

run_op-AllFaithful : (op : Op) (t : Table) → AllFaithful t → AllFaithful (run_op op t)
unfolding finalize_due
run_op-AllFaithful (upserts events) t h =
    rw (upsert-table events t)
      (exec_batch-AllFaithful (statements events) t (queue_events-IsFresh events) h)
run_op-AllFaithful (finalizes now grace) t h = λ k r found.
    option-IsFaithful now (now -ℤ grace) (get k t) r (h k)
      (sym (get-finalize_rows now (now -ℤ grace) k t) ∙ found)

run_ops-AllFaithful : (ops : List Op) (t : Table) → AllFaithful t → AllFaithful (run_ops ops t)
run_ops-AllFaithful [] t h = h
run_ops-AllFaithful (op ∷ ops) t h =
    run_ops-AllFaithful ops (run_op op t) (run_op-AllFaithful op t h)

-- After any history of upserts and finalizations of an empty table, every final row has its last
-- prediction as the actual arrival, so none where there never was a prediction, and every open
-- row has no actual arrival.
pub final_rows-IsFaithful :
    (ops : List Op) (k : RowKey) (r : Row) → get k (run_ops ops []) ≡ some r → IsFaithful r
unfolding get
final_rows-IsFaithful ops = run_ops-AllFaithful ops [] (λ k r e. ground arith)
