-- ===== src/Ingest/Durable.antt =====
-- The archive is the system of record: what a poll cycle of internal/ingest/ingest.go leaves on
-- disk and in the index, and that a replay finds it.
use ridewatch.Base.{
  ℕ, ◌<◌, ℤ, pos, Text, text_eq, text_eq_iff, ◌≡◌, refl, sym, ap, ◌∙◌, ◌⊎◌, inl, inr, false, some,
  List, [], ◌∷◌, ◌++◌, map, take, length, All, All-append, In, here, there, if-elim, Bool-cases,
  Outcome, ok, err, ◌>>=◌,
}
use ridewatch.GoMap.{GoMap, get, put, get-put, get-put_self, text_equality}
use ridewatch.Domain.Types.{Snapshot, feed_trip_updates, feed_vehicle_positions}
use ridewatch.Ingest.Decode.{Bytes, decode_feed}
use ridewatch.Ingest.BlobPath.{unix, blob_path, BlobRef}
use ridewatch.Ingest.PathTrip.{IsHex, parse_blob_path-blob_path}
use ridewatch.Ingest.Archive.{
  RawPoll, Station, Config, Cycle, raw_poll, to_sink, after_index, after_write, is_unchanged,
  after_fetch, poll_once,
}
use ridewatch.Ingest.Replay.{discover_blobs, read_blob, unix_time}
use ridewatch.Ingest.InOrder.{discover_blobs-Earlier}

-- There is a file at the path.
abbrev pub OnDisk : GoMap Text Bytes → Text → Type 0
OnDisk files path = (raw : Bytes) × (get path files ≡ some raw)

OnDisk-put :
    (path : Text) (raw : Bytes) (files : GoMap Text Bytes) (p : Text)
    → OnDisk files p
    → OnDisk (put path raw files) p
OnDisk-put path raw files p (old, e) = elim (Bool-cases (text_eq path p)) [
  | inl t ↦ (raw, get-put path p raw files ∙ rw t refl)
  | inr f ↦ (old, get-put path p raw files ∙ rw f e)
]

-- The snapshot came from a blob that the index knows.
abbrev pub Indexed : List RawPoll → Snapshot → Type 0
Indexed index snap =
    (r : RawPoll) × In r index × (r.path ≡ snap.raw_path) × (r.sha256 ≡ snap.raw_sha256)

-- Every indexed blob is on disk, and every snapshot the sink took is indexed.
pub record IsDurable (s : Station) : Type 0 where
  pub on_disk : All (λ (r : RawPoll). OnDisk s.files r.path) s.index
  pub indexed : All (Indexed s.index) s.sunk

In-append_left {ℓ} : {A : Type ℓ} (x : A) (xs ys : List A) → In x xs → In x (xs ++ ys)
In-append_left x [] ys h = elim h [ ]
In-append_left x (y ∷ xs) ys (here e) = here e
In-append_left x (y ∷ xs) ys (there q) = there (In-append_left x xs ys q)

In-append_last {ℓ} : {A : Type ℓ} (x : A) (xs : List A) → In x (xs ++ (x ∷ []))
In-append_last x [] = here refl
In-append_last x (y ∷ xs) = there (In-append_last x xs)

All-mono {ℓ κ} :
    {A : Type ℓ} {P Q : A → Type κ} → ((a : A) → P a → Q a) → (xs : List A) → All P xs → All Q xs
All-mono f [] h = tt
All-mono f (x ∷ xs) h = (f x h.0, All-mono f xs h.1)

put-IsDurable :
    (path : Text) (raw : Bytes) (s : Station)
    → IsDurable s
    → IsDurable (record s { files = put path raw s.files })
put-IsDurable path raw s d = record {
  on_disk = All-mono (λ (r : RawPoll) h. OnDisk-put path raw s.files r.path h) s.index d.on_disk;
  indexed = d.indexed;
}

append-IsDurable :
    (r : RawPoll) (s : Station)
    → OnDisk s.files r.path
    → IsDurable s
    → IsDurable (record s { index = s.index ++ (r ∷ []) })
append-IsDurable r s o d = record {
  on_disk = All-append (λ (r : RawPoll). OnDisk s.files r.path) s.index _ d.on_disk (o, tt);
  indexed =
      All-mono (λ snap (q, i, e, f). (q, In-append_left q s.index _ i, e, f)) s.sunk d.indexed;
}

to_sink-IsDurable :
    (c : Cycle) (snap : Snapshot) (o : Outcome (Unit {0})) (s : Station)
    → Indexed s.index snap
    → IsDurable s
    → IsDurable (to_sink c snap o s).1
unfolding to_sink
to_sink-IsDurable c snap (err e) s i d = d
to_sink-IsDurable c snap (ok u) s i d = record { on_disk = d.on_disk; indexed = (i, d.indexed) }

after_index-IsDurable :
    (c : Cycle) (sha path : Text) (o : Outcome Snapshot) (r : RawPoll) (s : Station)
    → In r s.index
    → r.path ≡ path
    → r.sha256 ≡ sha
    → IsDurable s
    → IsDurable (after_index c sha path o s).1
unfolding after_index
after_index-IsDurable c sha path (err e) r s i p q d = d
after_index-IsDurable c sha path (ok snap) r s i p q d =
    let full : Snapshot = record snap { raw_sha256 = sha; raw_path = path } in
    to_sink-IsDurable c full (c.sink full) s (r, i, p, q) d

after_write-IsDurable :
    (cfg : Config) (c : Cycle) (raw : Bytes) (path : Text) (w : Outcome ℤ) (s : Station)
    → IsDurable s
    → IsDurable (after_write cfg c raw path w s).1
unfolding after_write raw_poll
after_write-IsDurable cfg c raw path (err e) s d = d
after_write-IsDurable cfg c raw path (ok size) s d =
    let snap = decode_feed cfg.bindings cfg.feed raw c.start in
    let r = raw_poll cfg.feed c.start snap (cfg.sha256_hex raw) path size in
    let written : Station = record s { files = put path raw s.files } in
    let on_disk = put-IsDurable path raw s d in
    if-elim (λ (o : Outcome (Unit {0}) × Station). IsDurable o.1) c.index_fails _ _ on_disk
      (after_index-IsDurable c (cfg.sha256_hex raw) path snap r
        (record written { index = s.index ++ (r ∷ []) }) (In-append_last r s.index) refl refl
        (append-IsDurable r written (raw, get-put_self path raw s.files) on_disk))

after_fetch-IsDurable :
    (cfg : Config) (c : Cycle) (o : Outcome Bytes) (s : Station)
    → IsDurable s
    → IsDurable (after_fetch cfg c o s).1
unfolding after_fetch
after_fetch-IsDurable cfg c (err e) s d =
    if-elim (λ (o : Outcome (Unit {0}) × Station). IsDurable o.1) c.ctx_done _ _ d d
after_fetch-IsDurable cfg c (ok raw) s d =
    if-elim (λ (o : Outcome (Unit {0}) × Station). IsDurable o.1) (is_unchanged cfg c raw s) _ _ d
      (after_write-IsDurable cfg c raw _ c.written s d)

abbrev pub poll_all : Config → List Cycle → Station → Station
poll_all cfg [] s = s
poll_all cfg (c ∷ cs) s = poll_all cfg cs (poll_once cfg c s).1

-- The archive is ahead of what was acted on: after any cycles, whatever fails in them, every blob
-- of the index is on disk and every snapshot that the sink took has its path and hash in the
-- index, where this held before.
pub poll_all-IsDurable :
    (cfg : Config) (cs : List Cycle) (s : Station) → IsDurable s → IsDurable (poll_all cfg cs s)
unfolding poll_once
poll_all-IsDurable cfg [] s d = d
poll_all-IsDurable cfg (c ∷ cs) s d =
    poll_all-IsDurable cfg cs (poll_once cfg c s).1 (after_fetch-IsDurable cfg c c.fetched s d)

files-to_sink :
    (c : Cycle) (snap : Snapshot) (o : Outcome (Unit {0})) (s : Station)
    → (to_sink c snap o s).1.files ≡ s.files
unfolding to_sink
files-to_sink c snap (err e) s = refl
files-to_sink c snap (ok u) s = refl

files-after_index :
    (c : Cycle) (sha path : Text) (o : Outcome Snapshot) (s : Station)
    → (after_index c sha path o s).1.files ≡ s.files
unfolding after_index
files-after_index c sha path (err e) s = refl
files-after_index c sha path (ok snap) s =
    let full : Snapshot = record snap { raw_sha256 = sha; raw_path = path } in
    files-to_sink c full (c.sink full) s

files-after_write :
    (cfg : Config) (c : Cycle) (raw : Bytes) (path : Text) (size : ℤ) (s : Station)
    → (after_write cfg c raw path (ok size) s).1.files ≡ put path raw s.files
unfolding after_write
files-after_write cfg c raw path size s =
    if-elim (λ (o : Outcome (Unit {0}) × Station). o.1.files ≡ put path raw s.files) c.index_fails _
      _ refl (files-after_index c _ path _ _)

In-get :
    (k : Text) (v : Bytes) (m : GoMap Text Bytes) → get k m ≡ some v → In k (map (λ (j, w). j) m)
unfolding get
In-get k v [] h = cc
In-get k v ((j, w) ∷ m) h = elim (Bool-cases (text_eq j k)) [
  | inl t ↦ here (sym ((text_eq_iff j k).0 t))
  | inr f ↦ there (In-get k v m (rw (f, get) at h))
]

stored_at :
    (cfg : Config) (c : Cycle) (s : Station) (raw : Bytes) (size : ℤ)
    → c.fetched ≡ ok raw
    → is_unchanged cfg c raw s ≡ false
    → c.written ≡ ok size
    → get (blob_path cfg.feed c.start (cfg.sha256_hex raw)) (poll_once cfg c s).1.files ≡ some raw
unfolding poll_once after_fetch
stored_at cfg c s raw size fetched changed written =
    let path = blob_path cfg.feed c.start (cfg.sha256_hex raw) in
    ap (λ o. get path (after_fetch cfg c o s).1.files) fetched
    ∙ rw changed (
        ap (λ w. get path (after_write cfg c raw path w s).1.files) written
        ∙ ap (get path) (files-after_write cfg c raw path size s)
        ∙ get-put_self path raw s.files)

-- A response that differs from the last one archived and can be written to disk is archived and
-- can be replayed, whatever its decoding, the index and the sink come to: for either feed, an
-- instant from 1970 on and a hash of eight hexadecimal digits or more, the walk finds the blob, and
-- reading it decodes the response as of the whole second of the poll.
pub discover_blobs-poll_once :
    (cfg : Config) (c : Cycle) (s : Station) (raw : Bytes) (size : ℤ) (u : ℕ)
    → (cfg.feed ≡ feed_trip_updates) ⊎ (cfg.feed ≡ feed_vehicle_positions)
    → c.fetched ≡ ok raw
    → is_unchanged cfg c raw s ≡ false
    → c.written ≡ ok size
    → unix c.start ≡ pos u
    → u < 0x8000000000000000
    → IsHex (take 8 (cfg.sha256_hex raw))
    → length (take 8 (cfg.sha256_hex raw)) ≡ 8
    → let path = blob_path cfg.feed c.start (cfg.sha256_hex raw) in
      let b : BlobRef = record { feed = cfg.feed; unix = u; rel_path = path } in
      let files = (poll_once cfg c s).1.files in
      In b (discover_blobs (map (λ (p, raw). p) files))
      × (read_blob cfg files b ≡ (
          decode_feed cfg.bindings cfg.feed raw (unix_time u) >>= λ snap.
          ok (record snap { raw_sha256 = cfg.sha256_hex raw; raw_path = path })))
unfolding poll_once read_blob
discover_blobs-poll_once cfg c s raw size u feed fetched changed written at_u small hex eight =
    let path = blob_path cfg.feed c.start (cfg.sha256_hex raw) in
    let found = stored_at cfg c s raw size fetched changed written in
    (
      ((discover_blobs-Earlier _).1 _).1 (
        path,
        In-get path raw _ found,
        parse_blob_path-blob_path cfg.feed c.start u _ feed at_u small hex eight,
      ),
      rw found refl,
    )
