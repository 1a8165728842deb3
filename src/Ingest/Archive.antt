-- ===== src/Ingest/Archive.antt =====
-- internal/ingest/ingest.go and internal/store/rawarchive.go: one poll cycle, with the archive on
-- disk and its index, the table raw_polls. What a cycle meets outside (the response, errors of the
-- file system, the database and the sink) is a parameter of the cycle; the hash is the library's.
-- A file stands for what its gzip stream decompresses to.
use ridewatch.Base.{
  ℕ, ◌+◌, ℤ, ltb_ℤ, floor_ℤ, to_int64, Text, text_eq, is_empty, Bool, not, ◌&&◌, Option, none, some,
  List, [], ◌∷◌, ◌++◌, length, ◌==◌, if◌then◌else◌, Outcome, ok, err, canceled, failed,
}
use ridewatch.GoMap.{GoMap, put, text_equality}
use ridewatch.Domain.Types.{Time, Snapshot}
use ridewatch.Ingest.Decode.{Bytes, Bindings, decode_feed}
use ridewatch.Ingest.BlobPath.{blob_path}

-- A row of raw_polls, its polled_at in microseconds as the database keeps it.
pub record RawPoll : Type 0 where
  pub feed : Text
  pub polled_at : ℤ
  pub feed_timestamp : Option ℤ
  pub sha256 : Text
  pub path : Text
  pub size : ℤ
  pub entities : ℕ

-- The archive with its index in the order of ids, what the poller remembers, and the snapshots
-- that the sink took, the newest first.
pub record Station : Type 0 where
  pub files : GoMap Text Bytes
  pub index : List RawPoll
  pub last_feed_ts : ℕ
  pub sunk : List Snapshot

pub record Config : Type 0 where
  pub feed : Text
  pub sha256_hex : Bytes → Text
  pub bindings : Bindings

pub record Cycle : Type 0 where
  pub start : Time
  pub fetched : Outcome Bytes
  pub ctx_done : Bool
  pub lookup_fails : Bool
  -- The size on disk, or why the blob could not be written.
  pub written : Outcome ℤ
  pub index_fails : Bool
  pub sink : Snapshot → Outcome (Unit {0})

-- The row of the feed that was polled last, the one of the highest id among equals.
unfoldable pub newest : Text → List RawPoll → Option RawPoll → Option RawPoll
newest feed [] best = best
newest feed (r ∷ rs) none =
    if text_eq r.feed feed then newest feed rs (some r) else newest feed rs none
newest feed (r ∷ rs) (some b) =
    if text_eq r.feed feed && not (ltb_ℤ r.polled_at b.polled_at)
    then newest feed rs (some r)
    else newest feed rs (some b)

abbrev sha_of : Option RawPoll → Text
sha_of none = []
sha_of (some r) = r.sha256

unfoldable pub last_sha : Text → List RawPoll → Text
unfolding newest
last_sha feed index = sha_of (newest feed index none)

abbrev pub stored_timestamp : ℕ → Option ℤ
stored_timestamp ts = if ts == 0 then none else some (to_int64 ts)

abbrev pub timestamp_of : Outcome Snapshot → ℕ
timestamp_of (ok s) = s.feed_timestamp
timestamp_of (err e) = 0

abbrev pub entities_of : Outcome Snapshot → ℕ
entities_of (ok s) = length s.trip_updates + length s.vehicles
entities_of (err e) = 0

unfoldable pub raw_poll : Text → Time → Outcome Snapshot → Text → Text → ℤ → RawPoll
raw_poll feed at snap sha path size = record {
  feed = feed;
  polled_at = floor_ℤ at 1000;
  feed_timestamp = stored_timestamp (timestamp_of snap);
  sha256 = sha;
  path = path;
  size = size;
  entities = entities_of snap;
}

-- After the blob is written and indexed: the snapshot goes to the sink.
unfoldable pub to_sink :
    Cycle → Snapshot → Outcome (Unit {0}) → Station → Outcome (Unit {0}) × Station
to_sink c snap (err e) s = (err e, s)
to_sink c snap (ok u) s =
    (ok tt, record s { last_feed_ts = snap.feed_timestamp; sunk = snap ∷ s.sunk })

unfoldable pub after_index :
    Cycle → Text → Text → Outcome Snapshot → Station → Outcome (Unit {0}) × Station
unfolding to_sink
after_index c sha path (err e) s = (err e, s)
after_index c sha path (ok snap) s =
    let full = record snap { raw_sha256 = sha; raw_path = path } in to_sink c full (c.sink full) s

unfoldable pub after_write :
    Config → Cycle → Bytes → Text → Outcome ℤ → Station → Outcome (Unit {0}) × Station
unfolding raw_poll after_index
after_write cfg c raw path (err e) s = (err e, s)
after_write cfg c raw path (ok size) s =
    let sha = cfg.sha256_hex raw in
    let snap = decode_feed cfg.bindings cfg.feed raw c.start in
    let written = record s { files = put path raw s.files } in
    if c.index_fails
    then (err failed, written)
    else after_index c sha path snap
        (record written { index = s.index ++ (raw_poll cfg.feed c.start snap sha path size ∷ []) })

-- The hash is the one of the blob that was archived last.
unfoldable pub is_unchanged : Config → Cycle → Bytes → Station → Bool
unfolding last_sha
is_unchanged cfg c raw s =
    let last = (if c.lookup_fails then [] else last_sha cfg.feed s.index) in
    not (is_empty last) && text_eq last (cfg.sha256_hex raw)

unfoldable pub after_fetch : Config → Cycle → Outcome Bytes → Station → Outcome (Unit {0}) × Station
after_fetch cfg c (err e) s = if c.ctx_done then (err canceled, s) else (err e, s)
after_fetch cfg c (ok raw) s =
    if is_unchanged cfg c raw s
    then (ok tt, s)
    else after_write cfg c raw (blob_path cfg.feed c.start (cfg.sha256_hex raw)) c.written s

unfoldable pub poll_once : Config → Cycle → Station → Outcome (Unit {0}) × Station
poll_once cfg c s = after_fetch cfg c c.fetched s
