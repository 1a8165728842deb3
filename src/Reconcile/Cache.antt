-- ===== src/Reconcile/Cache.antt =====
-- internal/reconcile/cache.go, and the lookup through it of internal/reconcile/engine.go.
-- Which entry a full cache evicts is the one that `range` visits first: the parameter `first`.
use ridewatch.Base.{
  ℕ, ℤ, eqb_ℤ, Text, Bool, true, false, not, ◌&&◌, Option, none, some, [], leb, if◌then◌else◌,
  length, Outcome, ok, err, not_found, canceled, failed,
}
use ridewatch.GoMap.{GoMap, text_equality, get, put, delete}
use ridewatch.Domain.Types.{TripSchedule}

-- A cached `nil` is `none`: the schedule does not know the trip.
pub record TripCache : Type 0 where
  pub max : ℕ
  pub version : ℤ
  pub entries : GoMap Text (Option TripSchedule)

abbrev pub trip_cache_max : ℕ
trip_cache_max = 20000

unfoldable pub new_trip_cache : ℕ → TripCache
new_trip_cache max = record { max = max; version = ℤ.pos 0; entries = [] }

unfoldable pub set_version : ℤ → TripCache → TripCache
set_version v c = if eqb_ℤ c.version v then c else record c { version = v; entries = [] }

-- `none` is a miss.
unfoldable pub cached : ℤ → Text → TripCache → Option (Option TripSchedule)
cached version trip_id c = if eqb_ℤ c.version version then get trip_id c.entries else none

abbrev has_entry : Option (Option TripSchedule) → Bool
has_entry none = false
has_entry (some _) = true

abbrev pub Visit : Type 0
Visit = GoMap Text (Option TripSchedule) → Option Text

-- Deletes the key that is visited first.
unfoldable pub evict : Visit → GoMap Text (Option TripSchedule) → GoMap Text (Option TripSchedule)
evict first m = elim (first m) [ none ↦ m | some k ↦ delete k m ]

unfoldable pub cache_put : Visit → ℤ → Text → Option TripSchedule → TripCache → TripCache
unfolding evict
cache_put first version trip_id ts c =
    if eqb_ℤ c.version version
    then (let room =
          (if not (has_entry (get trip_id c.entries)) && leb c.max (length c.entries)
            then evict first c.entries
            else c.entries) in
        record c { entries = put trip_id ts room })
    else c

-- What the repository answered, put into the cache unless the lookup failed.
unfoldable pub remember :
    Visit → ℤ → Text → Outcome TripSchedule → TripCache → Outcome TripSchedule × TripCache
unfolding cache_put
remember first version trip_id (ok ts) c = (ok ts, cache_put first version trip_id (some ts) c)
remember first version trip_id (err not_found) c =
    (err not_found, cache_put first version trip_id none c)
remember first version trip_id (err canceled) c = (err canceled, c)
remember first version trip_id (err failed) c = (err failed, c)

-- The answer of a cached entry.
abbrev pub answer : Option TripSchedule → Outcome TripSchedule
answer none = err not_found
answer (some ts) = ok ts

-- Engine.tripSchedule, over the repository's lookup.
unfoldable pub trip_schedule :
    Visit
    → (ℤ → Text → Outcome TripSchedule)
    → ℤ
    → Text
    → TripCache
    → Outcome TripSchedule × TripCache
unfolding cached remember
trip_schedule first repo version trip_id c = elim (cached version trip_id c) [
  | some o ↦ (answer o, c)
  | none ↦ remember first version trip_id (repo version trip_id) c
]
