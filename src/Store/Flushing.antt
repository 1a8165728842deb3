-- ===== src/Store/Flushing.antt =====
-- The flush of all tables in Commit of internal/store/scheduleload.go: it leaves no row in a buffer.
use ridewatch.Base.{
  ◌≡◌, refl, sym, ap, subst, ◌∙◌, fun_ext, append-nil, ◌⊎◌, inl, inr, In, here, there, Option, none,
  some, List, [], ◌∷◌, ◌++◌, ◌==◌, arith, Outcome, ok, err, Err, if-elim,
}
use ridewatch.Store.Versions.{TableName, Stored, Db, tag, set_at}
use ridewatch.Store.Versions
use ridewatch.Store.ScheduleLoad.{
  Faults, Load, copied, flush_rows, flush, next_flush, flush_all, copy_tables,
}
use ridewatch.Store.Direct.{whole, IsWritten, IsWritten-≡, flush-IsWritten}

-- No row of the table is in its buffer, where the load goes on.
abbrev IsEmptyAt : TableName → Outcome (Unit {0}) × Load → Type 0
IsEmptyAt u (ok v, l) = l.buffers u ≡ []
IsEmptyAt u (err e, l) = Unit

set_at-same : {A : Type 0} (t : TableName) (v : A) (f : TableName → A) → set_at t v f t ≡ v
set_at-same t v f = ground arith

set_at-empty : (t u : TableName) (g : TableName → List Stored) → g u ≡ [] → set_at t [] g u ≡ []
set_at-empty t u g h = if-elim (λ b. b ≡ []) (tag t == tag u) [] (g u) refl h

module _ (f : Faults) where
  flush_rows-empties :
      (t : TableName) (rs : List Stored) (l : Load)
      → l.buffers t ≡ rs
      → IsEmptyAt t (flush_rows f t rs l)
  flush_rows-empties t [] l h = h
  flush_rows-empties t (r ∷ rs) l h = copied_empty (f.copy t (r ∷ rs))
    where
      copied_empty : (o : Option Err) → IsEmptyAt t (copied o t (r ∷ rs) l)
      copied_empty (some e) = tt
      copied_empty none = set_at-same t [] l.buffers

  flush_rows-keeps_empty :
      (t u : TableName) (rs : List Stored) (l : Load)
      → l.buffers u ≡ []
      → IsEmptyAt u (flush_rows f t rs l)
  flush_rows-keeps_empty t u [] l h = h
  flush_rows-keeps_empty t u (r ∷ rs) l h = copied_empty (f.copy t (r ∷ rs))
    where
      copied_empty : (o : Option Err) → IsEmptyAt u (copied o t (r ∷ rs) l)
      copied_empty (some e) = tt
      copied_empty none = set_at-empty t u l.buffers h

  -- After the flush of several tables a buffer is empty that was, and so is that of each of them.
  flush_all-empty :
      (ts : List TableName) (u : TableName) (l : Load)
      → In u ts ⊎ (l.buffers u ≡ [])
      → IsEmptyAt u (flush_all f ts l)
  unfolding flush_all flush
  flush_all-empty [] u l (inr h) = h
  flush_all-empty [] u l (inl i) = elim i [ ]
  flush_all-empty (t ∷ ts) u l h = next (flush f t l) (flush_all-empty ts u) (flushed h)
    where
      After : Outcome (Unit {0}) × Load → Type 0
      After (ok v, k) = In u ts ⊎ (k.buffers u ≡ [])
      After (err e, k) = Unit

      emptied : (r : Outcome (Unit {0}) × Load) → IsEmptyAt u r → After r
      emptied (ok v, k) e = inr e
      emptied (err e, k) i = tt

      still : (r : Outcome (Unit {0}) × Load) → In u ts → After r
      still (ok v, k) i = inl i
      still (err e, k) i = tt

      flushed : In u (t ∷ ts) ⊎ (l.buffers u ≡ []) → After (flush f t l)
      flushed (inr e) = emptied _ (flush_rows-keeps_empty t u (l.buffers t) l e)
      flushed (inl (here e)) = emptied _ (
          subst (λ v. IsEmptyAt v (flush f t l)) (sym e)
            (flush_rows-empties t (l.buffers t) l refl))
      flushed (inl (there i)) = still _ i

      next :
          (r : Outcome (Unit {0}) × Load)
          → ((k : Load) → In u ts ⊎ (k.buffers u ≡ []) → IsEmptyAt u (flush_all f ts k))
          → After r
          → IsEmptyAt u (next_flush r (flush_all f ts))
      next (ok v, k) ih a = ih k a
      next (err e, k) ih a = tt

  flush_all-IsWritten : (ts : List TableName) (l : Load) → IsWritten (whole l) (flush_all f ts l)
  unfolding flush_all
  flush_all-IsWritten [] l = refl
  flush_all-IsWritten (t ∷ ts) l =
      next (flush f t l) (flush_all-IsWritten ts) (flush-IsWritten f t l)
    where
      next :
          (r : Outcome (Unit {0}) × Load)
          → ((k : Load) → IsWritten (whole k) (flush_all f ts k))
          → IsWritten (whole l) r
          → IsWritten (whole l) (next_flush r (flush_all f ts))
      next (err e, k) ih h = tt
      next (ok u, k) ih h = IsWritten-≡ f (flush_all f ts k) _ _ (ih k) h

  In-copy_tables : (t : TableName) → In t copy_tables
  In-copy_tables Versions.routes = here refl
  In-copy_tables Versions.stops = there (here refl)
  In-copy_tables Versions.trips = there (there (here refl))
  In-copy_tables Versions.stop_times = there (there (there (here refl)))
  In-copy_tables Versions.calendar = there (there (there (there (here refl))))
  In-copy_tables Versions.calendar_dates = there (there (there (there (there (here refl)))))

  -- The transaction holds what the load has written, where the load goes on.
  abbrev pub IsFlushed : Db → Outcome (Unit {0}) × Load → Type 0
  IsFlushed db (ok u, k) = k.tx ≡ db
  IsFlushed db (err e, k) = Unit

  pub flush_all-IsFlushed : (l : Load) → IsFlushed (whole l) (flush_all f copy_tables l)
  flush_all-IsFlushed l =
      all_empty (flush_all f copy_tables l) (flush_all-IsWritten copy_tables l)
        (λ t. flush_all-empty copy_tables t l (inl (In-copy_tables t)))
    where
      all_empty :
          (r : Outcome (Unit {0}) × Load)
          → IsWritten (whole l) r
          → ((t : TableName) → IsEmptyAt t r)
          → IsFlushed (whole l) r
      all_empty (err e, k) w empty = tt
      all_empty (ok u, k) w empty =
          (λ i. record k.tx {
            rows =
                fun_ext (λ t. sym (ap (λ b. k.tx.rows t ++ b) (empty t) ∙ append-nil (k.tx.rows t)))
                  i;
          })
          ∙ w
