-- ===== src/Tests/Lookups.antt =====
-- The theorems on the reads of the store at concrete inputs.
use ridewatch.Base.{
  pos, Text, codes, text_eq, text_eq_refl, ◌≡◌, ◌≤◌, length, In, text_ltb, true, refl, ◌++◌, none,
  some, [], ◌∷◌, ok, arith,
}
use ridewatch.GoMap.{get, text_equality}
use ridewatch.Domain.Types.{TripSchedule}
use ridewatch.Store.Schedules.{
  Cache, FirstKey, VisitsKey, Section, Sections, IsSoundCache, begin_lookup, trip_schedule,
  trip_schedule-IsSoundCache,
}
use ridewatch.Store.Like.{like, like_from, like_escape, contains, like-like_escape}
use ridewatch.Base.Texts.{has_prefix}
use ridewatch.Base.Texts.{trim_space, is_space}
use ridewatch.Domain.Static.{Stop}
use ridewatch.Store.Versions.{Row, Db, of_version}
use ridewatch.Store.Reads.{active_version_id, version_stops, rows_of}
use ridewatch.Store.Search.{
  Texts, IsFound, needle, searched, listed_before, search_rows, search_stops, search_stops-IsFound,
}
use ridewatch.Tests.Opened.{opened}
use ridewatch.Tests.Samples.{schedule, repository}

unfoldable visited : FirstKey
visited [] = none
visited ((k, ts) ∷ m) = some k

visited-VisitsKey : VisitsKey visited
unfolding visited get
visited-VisitsKey [] full = absurd (full refl)
visited-VisitsKey ((k, ts) ∷ m) full = (k, ts, refl, ground (arith, text_eq_refl k))

-- A cache with one trip of version 1.
abbrev one_trip : Cache
one_trip = record { version = pos 1; entries = (codes "t", schedule) ∷ [] }

one_trip-IsSoundCache : IsSoundCache visited repository one_trip
unfolding get text_eq
one_trip-IsSoundCache = record { entries_loaded = found; bounded = omega arith }
  where
    found :
        (k : Text) (ts : TripSchedule)
        → get k one_trip.entries ≡ some ts
        → repository (pos 1) k ≡ ok ts
    found [] ts h = ground arith
    found (c ∷ k) ts h = ground arith

-- A lookup of another version begins during the query.
abbrev other_version : Cache → Cache
other_version d = (begin_lookup (pos 2) (codes "u") d).1

trip_schedule-IsSoundCache_example :
    ((trip_schedule visited repository other_version (pos 1) (codes "v") one_trip).0
      ≡ repository (pos 1) (codes "v"))
    × IsSoundCache visited repository
        (trip_schedule visited repository other_version (pos 1) (codes "v") one_trip).1
trip_schedule-IsSoundCache_example =
    trip_schedule-IsSoundCache visited repository other_version (pos 1) (codes "v") one_trip
      visited-VisitsKey
      (λ d.
        Sections.next d (other_version d) (other_version d) (Section.begins (pos 2) (codes "u") d)
          (Sections.done (other_version d)))
      one_trip-IsSoundCache

like-like_escape_example :
    (like (b'%' ∷ (like_escape (codes "5%_") ++ (b'%' ∷ []))) (codes "a 5%_ off")
      ≡ contains (codes "5%_") (codes "a 5%_ off"))
    × (like (like_escape (codes "5%_") ++ (b'%' ∷ [])) (codes "a 5%_ off")
        ≡ has_prefix (codes "5%_") (codes "a 5%_ off"))
like-like_escape_example = like-like_escape (codes "5%_") (codes "a 5%_ off")

abbrev texts : Texts
texts = record { lower = λ s. s; to_lower = λ s. s; text_less = text_ltb }

abbrev park : Stop
park = record {
  stop_id = codes "p";
  name = codes "park st";
  lat = 0;
  lon = 0;
  parent_station = [];
  location_type = pos 0;
  platform_code = [];
}

-- One active version with one stop.
abbrev one_stop : Db
one_stop = record {
  versions =
      record {
        id = pos 1;
        sha256 = codes "a";
        feed_version = [];
        agency_tz = codes "UTC";
        fetched_at = pos 5;
        loaded_at = some (pos 6);
        active = true;
      }
      ∷ [];
  next_id = pos 2;
  rows = λ t. (pos 1, Row.stop_row park) ∷ [];
}

park_active : active_version_id none one_stop ≡ ok (pos 1)
unfolding active_version_id
park_active = refl

park_found : search_stops texts none none (codes "park") 10 one_stop ≡ ok (park ∷ [])
unfolding opened active_version_id search_stops search_rows searched listed_before needle like
    like_from like_escape version_stops rows_of of_version trim_space is_space
park_found = refl

search_stops-IsFound_example :
    (length (park ∷ []) ≤ 10)
    × ((s : Stop)
        → In s (park ∷ [])
        → In s (version_stops (pos 1) one_stop) × IsFound texts (codes "park") s)
search_stops-IsFound_example =
    search_stops-IsFound texts none none (codes "park") 10 one_stop (pos 1) (park ∷ []) park_active
      park_found
