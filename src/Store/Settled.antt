-- ===== src/Store/Settled.antt =====
-- The guard of the upsert in internal/store/events.go: rows only move forward, and a statement that
-- was applied would change nothing if it were applied again.
use mathlib.Core.Path.{subst}
use ridewatch.Base.{
  ℕ, ◌+◌, ◌≤ℤ◌, ◌≡◌, refl, ◌∙◌, ap, true, false, Option, none, some, List, [], ◌∷◌, arith, All,
  if◌then◌else◌, Bool-cases, inl, inr,
}
use ridewatch.GoMap.{get, get-put, put_same, beq_refl}
use ridewatch.Domain.Types.{Time}
use ridewatch.Store.Rows.{
  RowKey, Row, Table, Queued, row_key_eq, row_key_equality, row_key_eq_iff, advanced, may_advance,
  upsert_row, exec_upsert, exec_batch, finalize_row,
}

-- A later version of a row: no older timestamp, and the same row if it was final.
pub record Follows (old new : Row) : Type 0 where
  pub newer : old.feed_timestamp ≤ℤ new.feed_timestamp
  pub frozen : old.final ≡ true → new ≡ old

Follows-refl : (r : Row) → Follows r r
Follows-refl r = record { newer = omega arith; frozen = λ h. refl }

upsert_row-Follows : (old new : Row) → Follows old (upsert_row (some old) new).0
unfolding upsert_row may_advance advanced
upsert_row-Follows old new = record { newer = ground arith; frozen = λ h. ground arith }

pub finalize_row-Follows : (now cutoff : Time) (r : Row) → Follows r (finalize_row now cutoff r)
unfolding finalize_row
finalize_row-Follows now cutoff r = record { newer = ground arith; frozen = λ h. ground arith }

-- The statement would change nothing under its key.
abbrev pub IsSettled : Table → Queued → Type 0
IsSettled t (k, new) = (old : Row) × (get k t ≡ some old) × (may_advance old new ≡ false)

may_advance-Follows :
    (old later new : Row)
    → Follows old later
    → may_advance old new ≡ false
    → may_advance later new ≡ false
unfolding may_advance
may_advance-Follows old later new f h = ground (arith, f.frozen)

upsert_row-settles : (o : Option Row) (new : Row) → may_advance (upsert_row o new).0 new ≡ false
unfolding upsert_row may_advance advanced
upsert_row-settles none new = ground arith
upsert_row-settles (some old) new = ground arith

-- How the row of one key moves.
abbrev pub Moves : Option Row → Option Row → Type 0
Moves none o = Unit
Moves (some old) o = (new : Row) × (o ≡ some new) × Follows old new

pub Moves-refl : (o : Option Row) → Moves o o
Moves-refl none = tt
Moves-refl (some r) = (r, refl, Follows-refl r)

pub get-exec_upsert :
    (k j : RowKey) (new : Row) (t : Table)
    → get j (exec_upsert (k, new) t).1
      ≡ (if row_key_eq k j then some (upsert_row (get k t) new).0 else get j t)
unfolding exec_upsert
get-exec_upsert k j new t = get-put k j (upsert_row (get k t) new).0 t

Moves-upsert_row : (o : Option Row) (new : Row) → Moves o (some (upsert_row o new).0)
Moves-upsert_row none new = tt
Moves-upsert_row (some old) new = ((upsert_row (some old) new).0, refl, upsert_row-Follows old new)

exec_upsert-Moves :
    (q : Queued) (t : Table) (j : RowKey) → Moves (get j t) (get j (exec_upsert q t).1)
exec_upsert-Moves (k, new) t j =
    rw (get-exec_upsert k j new t) (elim (Bool-cases (row_key_eq k j)) [
      | inl e ↦ rw e (rw ((row_key_eq_iff k j).0 e) (Moves-upsert_row (get j t) new))
      | inr e ↦ rw e (Moves-refl (get j t))
    ])

IsSettled-Moves :
    (t t' : Table) (q : Queued) → Moves (get q.0 t) (get q.0 t') → IsSettled t q → IsSettled t' q
IsSettled-Moves t t' (k, new) moves (old, found, stays) =
    let (later, found', f) = subst (λ o. Moves o (get k t')) found moves in
    (later, found', may_advance-Follows old later new f stays)

exec_upsert-IsSettled : (q : Queued) (t : Table) → IsSettled (exec_upsert q t).1 q
exec_upsert-IsSettled (k, new) t = (
  (upsert_row (get k t) new).0,
  ground (arith, get-exec_upsert k k new t, beq_refl k),
  upsert_row-settles (get k t) new,
)

exec_upsert-settled : (q : Queued) (t : Table) → IsSettled t q → exec_upsert q t ≡ (0, t)
unfolding exec_upsert upsert_row
exec_upsert-settled (k, new) t (old, found, stays) =
    rw found (rw stays (ap (λ (x : Table). (0, x)) (put_same k old t found)))

-- Every row of one table moves forward to the other.
abbrev pub Forward : Table → Table → Type 0
Forward t t' = (j : RowKey) → Moves (get j t) (get j t')

Follows-trans : (a b c : Row) → Follows a b → Follows b c → Follows a c
Follows-trans a b c f g = record {
  newer = omega (arith, f.newer, g.newer);
  frozen = λ h. g.frozen (ap (λ (r : Row). r.final) (f.frozen h) ∙ h) ∙ f.frozen h;
}

pub Moves-trans : (o p q : Option Row) → Moves o p → Moves p q → Moves o q
Moves-trans none p q m n = tt
Moves-trans (some a) p q (b, e, f) n =
    let (c, e', g) = subst (λ x. Moves x q) e n in (c, e', Follows-trans a b c f g)

pub exec_batch-Forward : (qs : List Queued) (t : Table) → Forward t (exec_batch qs t).1
unfolding exec_batch
exec_batch-Forward [] t j = Moves-refl (get j t)
exec_batch-Forward (q ∷ qs) t j =
    let t' = (exec_upsert q t).1 in
    Moves-trans (get j t) (get j t') (get j (exec_batch qs t').1) (exec_upsert-Moves q t j)
      (exec_batch-Forward qs t' j)

pub AllSettled-Forward :
    (t t' : Table) (qs : List Queued) → Forward t t' → All (IsSettled t) qs → All (IsSettled t') qs
AllSettled-Forward t t' [] f h = tt
AllSettled-Forward t t' (q ∷ qs) f h =
    (IsSettled-Moves t t' q (f q.0) h.0, AllSettled-Forward t t' qs f h.1)

pub exec_batch-settles : (qs : List Queued) (t : Table) → All (IsSettled (exec_batch qs t).1) qs
unfolding exec_batch
exec_batch-settles [] t = tt
exec_batch-settles (q ∷ qs) t =
    let t' = (exec_upsert q t).1 in
    (
      IsSettled-Moves t' (exec_batch qs t').1 q (exec_batch-Forward qs t' q.0)
          (exec_upsert-IsSettled q t),
      exec_batch-settles qs t',
    )

abbrev then_batch : List Queued → ℕ × Table → ℕ × Table
then_batch qs (n, t) = let (m, t') = exec_batch qs t in (n + m, t')

exec_batch-cons :
    (q : Queued) (qs : List Queued) (t : Table)
    → exec_batch (q ∷ qs) t ≡ then_batch qs (exec_upsert q t)
unfolding exec_batch
exec_batch-cons q qs t = refl

pub exec_batch-settled :
    (qs : List Queued) (t : Table) → All (IsSettled t) qs → exec_batch qs t ≡ (0, t)
exec_batch-settled [] t h = unfold exec_batch in refl
exec_batch-settled (q ∷ qs) t h =
    exec_batch-cons q qs t
    ∙ ap (then_batch qs) (exec_upsert-settled q t h.0)
    ∙ ap (λ (p : ℕ × Table). (0 + p.0, p.1)) (exec_batch-settled qs t h.1)
