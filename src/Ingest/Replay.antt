-- ===== src/Ingest/Replay.antt =====
-- internal/ingest/replay.go: finding, replaying and pruning the blobs of the archive. The walk
-- over the directory is a list of the paths of its files; the sink and its state, the context and
-- the failures of the file system are parameters.
use ridewatch.Base.{
  ℕ, ◌+◌, ◌*◌, ℤ, pos, ltb_ℤ, Text, text_ltb, Bool, false, not, ◌&&◌, Option, none, some, List, [],
  ◌∷◌, ltb, ◌==◌, if◌then◌else◌, Outcome, ok, err, Err, not_found, failed, ◌>>=◌,
}
use ridewatch.Base.Sorting.{sort_by}
use ridewatch.GoMap.{GoMap, get, text_equality}
use ridewatch.Domain.Types.{Time, Snapshot}
use ridewatch.Domain.Calendar.{second_ns}
use ridewatch.Ingest.Decode.{Bytes, decode_feed, gather}
use ridewatch.Ingest.BlobPath.{unix, BlobRef, parse_blob_path, name_time}
use ridewatch.Ingest.Archive.{Config}

-- Ascending by timestamp, then by path.
unfoldable pub before : BlobRef → BlobRef → Bool
before a b = if a.unix == b.unix then text_ltb a.rel_path b.rel_path else ltb a.unix b.unix

unfoldable pub discover_blobs : List Text → List BlobRef
unfolding before
discover_blobs paths = sort_by before (gather parse_blob_path paths)

abbrev file : Option Bytes → Outcome Bytes
file none = err not_found
file (some raw) = ok raw

-- time.Unix(u, 0).
abbrev pub unix_time : ℕ → Time
unix_time u = pos ((62135596800 + u) * second_ns)

unfoldable pub read_blob : Config → GoMap Text Bytes → BlobRef → Outcome Snapshot
read_blob cfg files b = do
  raw ← file (get b.rel_path files)
  snap ← decode_feed cfg.bindings b.feed raw (unix_time b.unix)
  ok (record snap { raw_sha256 = cfg.sha256_hex raw; raw_path = b.rel_path })

-- The sink with its state.
abbrev pub Sink : Type 0 → Type 0
Sink S = Snapshot → S → Outcome (Unit {0}) × S

-- What Replay returns, with the state of the sink and the snapshots that it took.
pub record Replayed (S : Type 0) : Type 0 where
  pub count : ℕ
  pub error : Option Err
  pub state : S
  pub taken : List Snapshot

unfoldable pub in_range : ℤ → ℤ → BlobRef → Bool
in_range from to b = not (ltb_ℤ (pos b.unix) from) && not (ltb_ℤ to (pos b.unix))

module _ {S : Type 0} (sink : Sink S) (read : BlobRef → Outcome Snapshot)
    (ctx_err : BlobRef → Option Err) (from to : ℤ) where
  -- One more snapshot was taken.
  unfoldable pub counted : Snapshot → Replayed S → Replayed S
  counted snap r = record r { count = r.count + 1; taken = snap ∷ r.taken }

  abbrev stopped : Err → S → Replayed S
  stopped e s = record { count = 0; error = some e; state = s; taken = [] }

  unfoldable pub after_sink : Snapshot → Outcome (Unit {0}) × S → (S → Replayed S) → Replayed S
  unfolding counted
  after_sink snap (err e, s) rest = stopped e s
  after_sink snap (ok u, s) rest = counted snap (rest s)

  unfoldable pub after_read : Outcome Snapshot → (S → Replayed S) → S → Replayed S
  unfolding after_sink
  after_read (err e) rest s = rest s
  after_read (ok snap) rest s = after_sink snap (sink snap s) rest

  unfoldable pub after_ctx : Option Err → BlobRef → (S → Replayed S) → S → Replayed S
  unfolding after_read
  after_ctx (some e) b rest s = stopped e s
  after_ctx none b rest s = after_read (read b) rest s

  unfoldable pub replay_blobs : List BlobRef → S → Replayed S
  replay_blobs [] s = record { count = 0; error = none; state = s; taken = [] }
  replay_blobs (b ∷ bs) s =
      let rest = replay_blobs bs in
      if not (in_range from to b) then rest s else after_ctx (ctx_err b) b rest s

  unfoldable pub replay : Outcome (List Text) → S → Replayed S
  unfolding discover_blobs replay_blobs
  replay (err e) s = stopped e s
  replay (ok paths) s = replay_blobs (discover_blobs paths) s

-- A file that PruneArchive removes: a blob, by its name, from before the cutoff.
abbrev pub is_before : ℤ → Option ℕ → Bool
is_before cutoff none = false
is_before cutoff (some u) = ltb_ℤ (pos u) cutoff

unfoldable pub is_stale : ℤ → Text → Bool
is_stale cutoff rel = is_before cutoff (name_time rel)

pub record Pruned : Type 0 where
  pub removed : ℕ
  pub error : Option Err
  pub files : List Text

-- The walk of PruneArchive over the files, ended by a file that cannot be removed.
unfoldable pub prune_files : (Text → Bool) → ℤ → List Text → Pruned
prune_files stuck cutoff [] = record { removed = 0; error = none; files = [] }
prune_files stuck cutoff (f ∷ fs) =
    let rest = prune_files stuck cutoff fs in
    if not (is_stale cutoff f)
    then record rest { files = f ∷ rest.files }
    else if stuck f
    then record { removed = 0; error = some failed; files = f ∷ fs }
    else record rest { removed = rest.removed + 1 }

unfoldable pub prune_archive : (Text → Bool) → Time → List Text → Pruned
unfolding prune_files
prune_archive stuck older_than paths = prune_files stuck (unix older_than) paths
