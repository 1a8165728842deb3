-- ===== src/Reconcile/Coherence.antt =====
-- The schedule cache of internal/reconcile/cache.go answers as the repository does, and stays
-- within its bound, whichever entries it evicts.
use ridewatch.Base.{
  ◌+◌, ◌≤◌, ◌<◌, ℤ, eqb_ℤ_iff, Text, text_eq_iff, ◌≡◌, ◌≢◌, refl, Option, none, some, [], arith,
  length, Outcome, ok, err, not_found, canceled, failed, Option-cases, inl, inr,
}
use ridewatch.GoMap.{GoMap, text_equality, get, get-put, get-delete, length-put, length-delete_hit}
use ridewatch.Domain.Types.{TripSchedule}
use ridewatch.Reconcile.Cache.{
  TripCache, Visit, set_version, cached, evict, cache_put, remember, trip_schedule, answer,
}

-- Every cached entry is what the repository answers for the version of the cache.
abbrev pub IsCoherent : (ℤ → Text → Outcome TripSchedule) → TripCache → Type 0
IsCoherent repo c =
    (k : Text) (o : Option TripSchedule) → get k c.entries ≡ some o → answer o ≡ repo c.version k

-- Some entry is visited first, unless there is none.
abbrev pub VisitsSome : Visit → Type 0
VisitsSome first =
    (m : GoMap Text (Option TripSchedule))
    → m ≢ []
    → (k : Text) × (o : Option TripSchedule) × (first m ≡ some k) × (get k m ≡ some o)

get-evict :
    (first : Visit) (m : GoMap Text (Option TripSchedule)) (k : Text) (o : Option TripSchedule)
    → get k (evict first m) ≡ some o
    → get k m ≡ some o
unfolding evict
get-evict first m k o h = elim (Option-cases (first m)) [
  | inl e ↦ rw (e, evict) at h
  | inr (j, e) ↦ ground (arith, get-delete j k m)
]

cache_put-IsCoherent :
    (first : Visit) (repo : ℤ → Text → Outcome TripSchedule) (version : ℤ) (k : Text)
    (o : Option TripSchedule) (c : TripCache)
    → answer o ≡ repo version k
    → IsCoherent repo c
    → IsCoherent repo (cache_put first version k o c)
unfolding cache_put
cache_put-IsCoherent first repo version k o c fits h j p found = ground (
  arith,
  get-put k j o c.entries,
  get-put k j o (evict first c.entries),
  get-evict first c.entries j p,
  text_eq_iff k j,
  eqb_ℤ_iff c.version version,
  h j p,
)

remember-IsCoherent :
    (first : Visit) (repo : ℤ → Text → Outcome TripSchedule) (version : ℤ) (k : Text)
    (r : Outcome TripSchedule) (c : TripCache)
    → r ≡ repo version k
    → IsCoherent repo c
    → ((remember first version k r c).0 ≡ r) × IsCoherent repo (remember first version k r c).1
unfolding remember
remember-IsCoherent first repo version k (ok ts) c e h =
    (refl, cache_put-IsCoherent first repo version k (some ts) c e h)
remember-IsCoherent first repo version k (err not_found) c e h =
    (refl, cache_put-IsCoherent first repo version k none c e h)
remember-IsCoherent first repo version k (err canceled) c e h = (refl, h)
remember-IsCoherent first repo version k (err failed) c e h = (refl, h)

-- Over a coherent cache a lookup, hit or miss, answers exactly what the repository would for that
-- version and trip, and leaves the cache coherent.
pub trip_schedule-IsCoherent :
    (first : Visit) (repo : ℤ → Text → Outcome TripSchedule) (version : ℤ) (k : Text)
    (c : TripCache)
    → IsCoherent repo c
    → ((trip_schedule first repo version k c).0 ≡ repo version k)
      × IsCoherent repo (trip_schedule first repo version k c).1
unfolding trip_schedule
trip_schedule-IsCoherent first repo version k c h = elim (Option-cases (cached version k c)) [
  | inl e ↦
      rw (e, trip_schedule) (remember-IsCoherent first repo version k (repo version k) c refl h)
  | inr (o, e) ↦
      rw (e, trip_schedule)
        (unfold cached in (ground (arith, h k o, eqb_ℤ_iff c.version version), h))
]

-- Pinning the cache to another version keeps it coherent.
pub set_version-IsCoherent :
    (repo : ℤ → Text → Outcome TripSchedule) (v : ℤ) (c : TripCache)
    → IsCoherent repo c
    → IsCoherent repo (set_version v c)
unfolding set_version get
set_version-IsCoherent repo v c h k o found = ground (arith, h k o)

length-evict :
    (first : Visit) (m : GoMap Text (Option TripSchedule))
    → VisitsSome first
    → m ≢ []
    → length (evict first m) + 1 ≤ length m
unfolding evict
length-evict first m visits full =
    let (k, o, e, found) = visits m full in rw (e, evict) (length-delete_hit k m o found)

-- Storing an answer never takes the cache above its bound.
pub cache_put-le-max :
    (first : Visit) (version : ℤ) (k : Text) (o : Option TripSchedule) (c : TripCache)
    → VisitsSome first
    → 0 < c.max
    → length c.entries ≤ c.max
    → length (cache_put first version k o c).entries ≤ c.max
unfolding cache_put
cache_put-le-max first version k o c visits room h = ground (
  arith,
  length-put k o c.entries,
  length-put k o (evict first c.entries),
  get-evict first c.entries k,
  length-evict first c.entries visits,
)
