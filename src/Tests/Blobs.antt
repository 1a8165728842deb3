-- ===== src/Tests/Blobs.antt =====
-- The theorems on internal/ingest at concrete inputs.
use ridewatch.Base.{
  ◌<◌, length, ℕ, ◌≤ℤ◌, ◌⊎◌, ◌*◌, ◌+◌, pos, Text, codes, ◌≡◌, refl, ◌↔◌, inl, false, none, some,
  List, [], ◌∷◌, Outcome, ◌>>=◌, ok, err, failed, arith, map, In, take, print_ℤ,
}
use ridewatch.Base.Sorting.{Pairwise}
use ridewatch.Domain.Types.{Time, Snapshot, feed_trip_updates}
use ridewatch.Domain.Calendar.{second_ns}
use ridewatch.Ingest.Decode.{Bindings, decode_feed}
use ridewatch.Ingest.BlobPath.{
  name_time, unix, blob_path, BlobRef, parse_blob_path, blob_dir, blob_name, blob_digits,
  split_digits, hex_then,
}
use ridewatch.Ingest.PathTrip.{IsHex, parse_blob_path-blob_path}
use ridewatch.Ingest.Archive.{Station, Config, Cycle, is_unchanged, last_sha, newest, poll_once}
use ridewatch.Ingest.Replay.{discover_blobs, read_blob, replay, prune_archive, unix_time}
use ridewatch.Ingest.InOrder.{Earlier, discover_blobs-Earlier, IsPrefix, readable, replay-IsPrefix}
use ridewatch.Ingest.Pruning.{IsOld, prune_archive-IsOld}
use ridewatch.Ingest.Durable.{IsDurable, poll_all, poll_all-IsDurable, discover_blobs-poll_once}
use ridewatch.Tests.Opened.{opened}
use ridewatch.Base.Texts.{base_name}

abbrev sha : Text
sha = codes "0123abcd4567"

-- 1000 seconds and a half into 1970.
abbrev noon : Time
noon = pos ((62135596800 + 1000) * second_ns + 500_000_000)

abbrev path : Text
path = codes "trip_updates/1970/01/01/00/1000_0123abcd.pb.gz"

written_path : blob_path feed_trip_updates noon sha ≡ path
unfolding opened blob_path unix blob_dir blob_name print_ℤ
written_path = refl

foreign : parse_blob_path (codes "trip_updates/1970/1000_0123abcd.pb") ≡ none
unfolding opened parse_blob_path base_name blob_digits split_digits hex_then
foreign = refl

sha-IsHex : IsHex (take 8 sha)
sha-IsHex = (refl, (refl, (refl, (refl, (refl, (refl, (refl, (refl, tt))))))))

parse_blob_path-blob_path_example :
    parse_blob_path (blob_path feed_trip_updates noon sha)
    ≡ some (record {
      feed = feed_trip_updates;
      unix = 1000;
      rel_path = blob_path feed_trip_updates noon sha;
    })
unfolding opened unix
parse_blob_path-blob_path_example =
    parse_blob_path-blob_path feed_trip_updates noon 1000 sha (inl refl) refl (omega arith)
      sha-IsHex refl

abbrev paths : List Text
paths =
    codes "vehicle_positions/a/2000_0123abcd.pb.gz"
    ∷ path
    ∷ codes "trip_updates/a/2000_0123abcd.pb.gz"
    ∷ codes "notes.txt"
    ∷ []

abbrev bindings : Bindings
bindings = record {
  unmarshal = λ raw. ok (record { timestamp = some 990; entity = [] });
  trip_relationship_name = λ n. codes "SCHEDULED";
  stop_relationship_name = λ n. codes "SCHEDULED";
  status_name = λ n. codes "STOPPED_AT";
}

abbrev config : Config
config = record { feed = feed_trip_updates; sha256_hex = λ raw. sha; bindings = bindings }

abbrev cycle : Cycle
cycle = record {
  start = noon;
  fetched = ok (1 ∷ 2 ∷ []);
  ctx_done = false;
  lookup_fails = false;
  written = ok (pos 2);
  index_fails = false;
  sink = λ snap. err failed;
}

abbrev empty : Station
empty = record { files = []; index = []; last_feed_ts = 0; sunk = [] }

poll_all-IsDurable_example : IsDurable (poll_all config (cycle ∷ cycle ∷ []) empty)
poll_all-IsDurable_example =
    poll_all-IsDurable config (cycle ∷ cycle ∷ []) empty (record { on_disk = tt; indexed = tt })

discover_blobs-Earlier_example :
    Pairwise Earlier (discover_blobs paths)
    × ((b : BlobRef)
        → In b (discover_blobs paths) ↔ ((p : Text) × In p paths × (parse_blob_path p ≡ some b)))
discover_blobs-Earlier_example = discover_blobs-Earlier paths

-- Every blob reads as the same response; the sink counts.
abbrev read_any : BlobRef → Outcome Snapshot
read_any b = ok (record {
  feed = b.feed;
  polled_at = unix_time b.unix;
  feed_timestamp = 990;
  raw_sha256 = sha;
  raw_path = b.rel_path;
  trip_updates = [];
  vehicles = [];
})

replay-IsPrefix_example :
    IsPrefix
      (λ snap n. (ok tt, n + 1))
      read_any
      (λ b. none)
      (pos 1000)
      (pos 1500)
      (readable
        (λ snap n. (ok tt, n + 1))
        read_any
        (λ b. none)
        (pos 1000)
        (pos 1500)
        (discover_blobs paths))
      (replay (λ snap n. (ok tt, n + 1)) read_any (λ b. none) (pos 1000) (pos 1500) (ok paths) 0)
replay-IsPrefix_example =
    replay-IsPrefix (λ snap n. (ok tt, n + 1)) read_any (λ b. none) (pos 1000) (pos 1500) paths 0

prune_archive-IsOld_example :
    ((f : Text)
      → In f paths
      → In f (prune_archive (λ f. false) noon paths).files ⊎ IsOld (unix noon) f)
    × ((prune_archive (λ f. false) noon paths).error ≡ none
        → (f : Text) → In f (prune_archive (λ f. false) noon paths).files
        → In f paths × ((u : ℕ) → name_time f ≡ some u → unix noon ≤ℤ pos u))
    × ((feed : Text) (t : Time) (u : ℕ) (sha : Text)
        → unix t ≡ pos u
        → u < 0x8000000000000000
        → IsHex (take 8 sha)
        → length (take 8 sha) ≡ 8
        → (unix noon ≤ℤ pos u
            → In (blob_path feed t sha) paths
            → In (blob_path feed t sha) (prune_archive (λ f. false) noon paths).files)
          × ((prune_archive (λ f. false) noon paths).error ≡ none
              → In (blob_path feed t sha) (prune_archive (λ f. false) noon paths).files
              → unix noon ≤ℤ pos u))
prune_archive-IsOld_example = prune_archive-IsOld (λ f. false) noon paths

-- The sink refuses the snapshot; the blob is archived all the same.
discover_blobs-poll_once_example :
    let path = blob_path feed_trip_updates noon sha in
    let b : BlobRef = record { feed = feed_trip_updates; unix = 1000; rel_path = path } in
    let files = (poll_once config cycle empty).1.files in
    In b (discover_blobs (map (λ (p, raw). p) files))
    × (read_blob config files b ≡ (
        decode_feed bindings feed_trip_updates (1 ∷ 2 ∷ []) (unix_time 1000) >>= λ snap.
        ok (record snap { raw_sha256 = sha; raw_path = path })))
unfolding opened is_unchanged last_sha newest unix
discover_blobs-poll_once_example =
    discover_blobs-poll_once config cycle empty (1 ∷ 2 ∷ []) (pos 2) 1000 (inl refl) refl refl refl
      refl (omega arith) sha-IsHex refl
