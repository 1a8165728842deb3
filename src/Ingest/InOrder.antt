-- ===== src/Ingest/InOrder.antt =====
-- What Replay of internal/ingest/replay.go does with the blobs of an archive.
use ridewatch.Base.{
  ℤ, ◌≤◌, Text, text_ltb, text_ltb-asym, text_ltb-negtrans, ◌≡◌, refl, sym, ap, ◌∙◌, ◌↔◌, ◌⊎◌, inl,
  inr, true, false, Option, none, some, List, [], ◌∷◌, ◌++◌, keep, length, In, here, there, arith,
  Bool-cases, Outcome, ok, err, Err,
}
use ridewatch.Base.Sorting.{
  Pairwise, Pairwise-Sorted, IsOrder, Sorted-sort_by, In-sort_by→, In-sort_by←,
}
use ridewatch.Domain.Types.{Snapshot}
use ridewatch.Ingest.Decode.{gather, prepend}
use ridewatch.Ingest.BlobPath.{BlobRef, parse_blob_path}
use ridewatch.Ingest.Replay.{
  before, discover_blobs, Sink, Replayed, in_range, counted, after_sink, after_read, after_ctx,
  replay_blobs, replay,
}

before-asym : (x y : BlobRef) → before x y ≡ true → before y x ≡ false
unfolding before
before-asym x y h = ground (arith, text_ltb-asym x.rel_path y.rel_path)

before-negtrans : (x y z : BlobRef) → before y x ≡ false → before z y ≡ false → before z x ≡ false
unfolding before
before-negtrans x y z h k = ground (arith, text_ltb-negtrans x.rel_path y.rel_path z.rel_path)

before-IsOrder : IsOrder before
before-IsOrder = record { asym = before-asym; negtrans = before-negtrans }

module _ {B : Type 0} where
  In-prepend→ : (b : B) (o : Option B) (ys : List B) → In b (prepend o ys) → (o ≡ some b) ⊎ In b ys
  In-prepend→ b none ys h = inr h
  In-prepend→ b (some y) ys (here e) = inl (ap some (sym e))
  In-prepend→ b (some y) ys (there q) = inr q

  In-prepend_tail : (b : B) (o : Option B) (ys : List B) → In b ys → In b (prepend o ys)
  In-prepend_tail b none ys h = h
  In-prepend_tail b (some y) ys h = there h

  In-prepend_head : (b : B) (o : Option B) (ys : List B) → o ≡ some b → In b (prepend o ys)
  In-prepend_head b o ys e = rw e (here refl)

module _ {A B : Type 0} (f : A → Option B) where
  In-gather→ : (b : B) (xs : List A) → In b (gather f xs) → (a : A) × In a xs × (f a ≡ some b)
  In-gather→ b [] h = elim h [ ]
  In-gather→ b (x ∷ xs) h = elim (In-prepend→ b (f x) (gather f xs) h) [
    | inl e ↦ (x, here refl, e)
    | inr q ↦ let (a, i, e) = In-gather→ b xs q in (a, there i, e)
  ]

  In-gather← : (b : B) (a : A) (xs : List A) → In a xs → f a ≡ some b → In b (gather f xs)
  In-gather← b a [] h e = elim h [ ]
  In-gather← b a (x ∷ xs) (here p) e = In-prepend_head b (f x) (gather f xs) (ap f (sym p) ∙ e)
  In-gather← b a (x ∷ xs) (there q) e =
      In-prepend_tail b (f x) (gather f xs) (In-gather← b a xs q e)

-- The first is no later than the second, and goes by path where their timestamps are equal.
pub record Earlier (a b : BlobRef) : Type 0 where
  pub no_later : a.unix ≤ b.unix
  pub by_path : a.unix ≡ b.unix → text_ltb b.rel_path a.rel_path ≡ false

before-Earlier : (a b : BlobRef) → before b a ≡ false → Earlier a b
unfolding before
before-Earlier a b h = record { no_later = ground (arith, h); by_path = λ e. ground (arith, h, e) }

-- The blobs that are discovered are those that some path of the walk parses to, and they stand
-- in ascending order: of two of them the earlier one has no later timestamp, and where the
-- timestamps are equal no greater path.
pub discover_blobs-Earlier :
    (paths : List Text)
    → Pairwise Earlier (discover_blobs paths)
      × ((b : BlobRef)
          → In b (discover_blobs paths) ↔ ((p : Text) × In p paths × (parse_blob_path p ≡ some b)))
unfolding discover_blobs
discover_blobs-Earlier paths =
    let blobs = gather parse_blob_path paths in
    (
      Pairwise-Sorted before Earlier _ before-Earlier (Sorted-sort_by before before-IsOrder blobs),
      λ b. (
        λ i. In-gather→ parse_blob_path b paths (In-sort_by→ before b blobs i),
        λ (p, i, e). In-sort_by← before b blobs (In-gather← parse_blob_path b p paths i e),
      ),
    )

abbrev decoded : Outcome Snapshot → Option Snapshot
decoded (ok s) = some s
decoded (err e) = none

module _ {S : Type 0} (sink : Sink S) (read : BlobRef → Outcome Snapshot)
    (ctx_err : BlobRef → Option Err) (from to : ℤ) where
  -- The snapshots of a list of blobs: those in the range that can be read and decoded.
  abbrev pub readable : List BlobRef → List Snapshot
  readable bs = gather (λ b. decoded (read b)) (keep (in_range from to) bs)

  -- The sink took the first snapshots of a list, counted, and all of them where nothing failed.
  pub record IsPrefix (all : List Snapshot) (r : Replayed S) : Type 0 where
    pub rest : List Snapshot
    pub split : r.taken ++ rest ≡ all
    pub counts : r.count ≡ length r.taken
    pub complete : r.error ≡ none → rest ≡ []

  stopped-IsPrefix :
      (all : List Snapshot) (e : Err) (s : S)
      → IsPrefix all (record { count = 0; error = some e; state = s; taken = [] })
  stopped-IsPrefix all e s = record { rest = all; split = refl; counts = refl; complete = λ h. cc }

  counted-IsPrefix :
      (all : List Snapshot) (snap : Snapshot) (r : Replayed S)
      → IsPrefix all r
      → IsPrefix (snap ∷ all) (counted sink read ctx_err from to snap r)
  unfolding counted
  counted-IsPrefix all snap r p = record {
    rest = p.rest;
    split = ap (λ l. snap ∷ l) p.split;
    counts = omega (arith, p.counts);
    complete = p.complete;
  }

  -- From here on: what is left to do, from any state of the sink.
  Continues : List Snapshot → (S → Replayed S) → Type 0
  Continues all rest = (s : S) → IsPrefix all (rest s)

  after_sink-IsPrefix :
      (all : List Snapshot) (snap : Snapshot) (o : Outcome (Unit {0}) × S) (rest : S → Replayed S)
      → Continues all rest
      → IsPrefix (snap ∷ all) (after_sink sink read ctx_err from to snap o rest)
  unfolding after_sink Continues
  after_sink-IsPrefix all snap (err e, s) rest h = stopped-IsPrefix (snap ∷ all) e s
  after_sink-IsPrefix all snap (ok u, s) rest h = counted-IsPrefix all snap (rest s) (h s)

  after_read-IsPrefix :
      (all : List Snapshot) (o : Outcome Snapshot) (rest : S → Replayed S)
      → Continues all rest
      → Continues (prepend (decoded o) all) (after_read sink read ctx_err from to o rest)
  unfolding after_read Continues
  after_read-IsPrefix all (err e) rest h s = h s
  after_read-IsPrefix all (ok snap) rest h s = after_sink-IsPrefix all snap (sink snap s) rest h

  after_ctx-IsPrefix :
      (all : List Snapshot) (o : Option Err) (b : BlobRef) (rest : S → Replayed S)
      → Continues all rest
      → Continues (prepend (decoded (read b)) all) (after_ctx sink read ctx_err from to o b rest)
  unfolding after_ctx Continues
  after_ctx-IsPrefix all (some e) b rest h s = stopped-IsPrefix (prepend (decoded (read b)) all) e s
  after_ctx-IsPrefix all none b rest h s = after_read-IsPrefix all (read b) rest h s

  replay_blobs-IsPrefix :
      (bs : List BlobRef) → Continues (readable bs) (replay_blobs sink read ctx_err from to bs)
  unfolding replay_blobs Continues
  replay_blobs-IsPrefix [] s = record {
    rest = [];
    split = refl;
    counts = refl;
    complete = λ h. refl;
  }
  replay_blobs-IsPrefix (b ∷ bs) s = elim (Bool-cases (in_range from to b)) [
    | inl e ↦
        rw (e, keep)
          (after_ctx-IsPrefix (readable bs) (ctx_err b) b
            (replay_blobs sink read ctx_err from to bs) (replay_blobs-IsPrefix bs) s)
    | inr e ↦ rw (e, keep) (replay_blobs-IsPrefix bs s)
  ]

  -- Replay hands the sink a first part of the snapshots that can be read from the blobs in the
  -- range, in the order of the blobs, and counts it; the whole of them where it returns no error.
  -- This holds for any sink, for any blobs that cannot be read and for any cancellation.
  pub replay-IsPrefix :
      (paths : List Text) (s : S)
      → IsPrefix (readable (discover_blobs paths)) (replay sink read ctx_err from to (ok paths) s)
  unfolding replay Continues
  replay-IsPrefix paths s = replay_blobs-IsPrefix (discover_blobs paths) s
