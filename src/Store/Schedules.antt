-- ===== src/Store/Schedules.antt =====
-- internal/store/schedulerepo.go: TripSchedule with its cache. The mutex is held in two sections,
-- and other lookups may run between them; the query runs outside of both.
use ridewatch.Base.{
  ℕ, ◌+◌, ◌≤◌, ◌<◌, ℤ, eqb_ℤ, eqb_ℤ_iff, Text, text_eq_iff, ◌≡◌, ◌≢◌, refl, sym, ap, ◌∙◌, text_eq,
  if-split, Bool, true, false, Option, none, some, [], leb, if◌then◌else◌, if-elim, length, arith,
  Outcome, ok, err,
}
use ridewatch.GoMap.{
  GoMap, text_equality, get, put, delete, get-put, get-delete, length-put, length-delete_hit,
}
use ridewatch.Domain.Types.{TripSchedule}

-- tripCacheVersion and tripCache.
pub record Cache : Type 0 where
  pub version : ℤ
  pub entries : GoMap Text TripSchedule

abbrev pub trip_cache_cap : ℕ
trip_cache_cap = 20000

-- The cache of one version.
unfoldable pub pin : ℤ → Cache → Cache
pin v c = if eqb_ℤ c.version v then c else record { version = v; entries = [] }

-- The first section: the entry, where there is one.
unfoldable pub begin_lookup : ℤ → Text → Cache → Option TripSchedule × Cache
unfolding pin
begin_lookup v trip_id c = (get trip_id (pin v c).entries, pin v c)

-- The key that `range` visits first.
abbrev pub FirstKey : Type 0
FirstKey = GoMap Text TripSchedule → Option Text

abbrev pub evicted : Option Text → GoMap Text TripSchedule → GoMap Text TripSchedule
evicted none m = m
evicted (some k) m = delete k m

unfoldable pub make_room : FirstKey → GoMap Text TripSchedule → GoMap Text TripSchedule
make_room first m = if leb trip_cache_cap (length m) then evicted (first m) m else m

-- The second section.
unfoldable pub end_lookup : FirstKey → ℤ → Text → TripSchedule → Cache → Cache
unfolding make_room
end_lookup first v trip_id ts c =
    if eqb_ℤ c.version v
    then record c { entries = put trip_id ts (make_room first c.entries) }
    else c

abbrev pub after_load :
    FirstKey → ℤ → Text → Outcome TripSchedule → Cache → Outcome TripSchedule × Cache
after_load first v trip_id (err e) c = (err e, c)
after_load first v trip_id (ok ts) c = (ok ts, end_lookup first v trip_id ts c)

abbrev pub after_begin :
    FirstKey
    → (ℤ → Text → Outcome TripSchedule)
    → (Cache → Cache)
    → ℤ
    → Text
    → Option TripSchedule × Cache
    → Outcome TripSchedule × Cache
after_begin first load meanwhile v trip_id (some ts, c) = (ok ts, c)
after_begin first load meanwhile v trip_id (none, c) =
    after_load first v trip_id (load v trip_id) (meanwhile c)

-- TripSchedule, where other lookups change the cache during the query.
unfoldable pub trip_schedule :
    FirstKey
    → (ℤ → Text → Outcome TripSchedule)
    → (Cache → Cache)
    → ℤ
    → Text
    → Cache
    → Outcome TripSchedule × Cache
unfolding begin_lookup end_lookup
trip_schedule first load meanwhile v trip_id c =
    after_begin first load meanwhile v trip_id (begin_lookup v trip_id c)

module _ (first : FirstKey) (load : ℤ → Text → Outcome TripSchedule) where
  -- Entries are what the query yields for the version of the cache, and no more than the bound.
  pub record IsSoundCache (c : Cache) : Type 0 where
    pub entries_loaded :
        (k : Text) (ts : TripSchedule) → get k c.entries ≡ some ts → load c.version k ≡ ok ts
    pub bounded : length c.entries ≤ trip_cache_cap

  -- A section of some lookup: the first one, or the second after its query.
  pub data Section : Cache → Cache → Type 0 where
    begins : (v : ℤ) (trip_id : Text) (c : Cache) → Section c (begin_lookup v trip_id c).1
    ends :
        (v : ℤ) (trip_id : Text) (ts : TripSchedule) (c : Cache)
        → load v trip_id ≡ ok ts
        → Section c (end_lookup first v trip_id ts c)

  -- Sections one after another.
  pub data Sections : Cache → Cache → Type 0 where
    done : (c : Cache) → Sections c c
    next : (a b c : Cache) → Section a b → Sections b c → Sections a c

  pub pin-IsSoundCache : (v : ℤ) (c : Cache) → IsSoundCache c → IsSoundCache (pin v c)
  unfolding pin get
  pin-IsSoundCache v c s =
      if-elim IsSoundCache (eqb_ℤ c.version v) c (record { version = v; entries = [] }) s
        (record { entries_loaded = λ k ts h. absurd (ground arith); bounded = omega arith })

-- `range` over a map that is not empty visits a key that is there.
abbrev pub VisitsKey : FirstKey → Type 0
VisitsKey first =
    (m : GoMap Text TripSchedule)
    → m ≢ []
    → (k : Text) × (ts : TripSchedule) × (first m ≡ some k) × (get k m ≡ some ts)

module _ (first : FirstKey) (load : ℤ → Text → Outcome TripSchedule) where
  get-evicted :
      (o : Option Text) (m : GoMap Text TripSchedule) (j : Text) (ts : TripSchedule)
      → get j (evicted o m) ≡ some ts
      → get j m ≡ some ts
  get-evicted none m j ts h = h
  get-evicted (some k) m j ts h = ground (arith, get-delete k j m)

  get-make_room :
      (m : GoMap Text TripSchedule) (j : Text) (ts : TripSchedule)
      → get j (make_room first m) ≡ some ts
      → get j m ≡ some ts
  unfolding make_room
  get-make_room m j ts =
      if-elim (λ (r : GoMap Text TripSchedule). get j r ≡ some ts → get j m ≡ some ts)
        (leb trip_cache_cap (length m)) (evicted (first m) m) m (get-evicted (first m) m j ts)
        (λ h. h)

  length-evicted :
      (m : GoMap Text TripSchedule)
      → VisitsKey first
      → 0 < length m
      → length (evicted (first m) m) + 1 ≤ length m
  length-evicted m visits n =
      let (k, ts, e, found) = visits m (λ q. omega (arith, n, ap length q)) in
      rw e (length-delete_hit k m ts found)

  length-make_room :
      (m : GoMap Text TripSchedule)
      → VisitsKey first
      → length m ≤ trip_cache_cap
      → length (make_room first m) + 1 ≤ trip_cache_cap
  unfolding make_room
  length-make_room m visits h = ground (arith, length-evicted m visits)

  end_lookup-IsSoundCache :
      (v : ℤ) (trip_id : Text) (ts : TripSchedule) (c : Cache)
      → VisitsKey first
      → load v trip_id ≡ ok ts
      → IsSoundCache first load c
      → IsSoundCache first load (end_lookup first v trip_id ts c)
  unfolding end_lookup
  end_lookup-IsSoundCache v trip_id ts c visits e s =
      if-split (IsSoundCache first load) (eqb_ℤ c.version v) _ c written (λ q. s)
    where
      room : GoMap Text TripSchedule
      room = make_room first c.entries

      entry :
          (k : Text) (b : Bool)
          → eqb_ℤ c.version v ≡ true
          → text_eq trip_id k ≡ b
          → (o : TripSchedule) → (if b then some ts else get k room) ≡ some o
          → load c.version k ≡ ok o
      entry k true q t o h =
          let version : c.version ≡ v = (eqb_ℤ_iff c.version v).0 q in
          let trip : k ≡ trip_id = sym ((text_eq_iff trip_id k).0 t) in
          let same : ts ≡ o = ground arith in (λ i. load (version i) (trip i)) ∙ e ∙ ap ok same
      entry k false q t o h = s.entries_loaded k o (get-make_room c.entries k o h)

      written :
          eqb_ℤ c.version v ≡ true
          → IsSoundCache first load (record c { entries = put trip_id ts room })
      written q = record {
        entries_loaded =
            λ k o h. entry k (text_eq trip_id k) q refl o (sym (get-put trip_id k ts room) ∙ h);
        bounded =
            ground (arith, length-put trip_id ts room, length-make_room c.entries visits s.bounded);
      }

  -- A section keeps the cache sound.
  Section-IsSoundCache :
      {c d : Cache}
      → VisitsKey first
      → Section first load c d
      → IsSoundCache first load c
      → IsSoundCache first load d
  unfolding begin_lookup
  Section-IsSoundCache visits (begins v k c) s = pin-IsSoundCache first load v c s
  Section-IsSoundCache visits (ends v k ts c e) s = end_lookup-IsSoundCache v k ts c visits e s

  Sections-IsSoundCache :
      {c d : Cache}
      → VisitsKey first
      → Sections first load c d
      → IsSoundCache first load c
      → IsSoundCache first load d
  Sections-IsSoundCache visits (done c) s = s
  Sections-IsSoundCache visits (next a b c x xs) s =
      Sections-IsSoundCache visits xs (Section-IsSoundCache visits x s)

  pin-version : (v : ℤ) (c : Cache) → (pin v c).version ≡ v
  unfolding pin
  pin-version v c = ground (arith, eqb_ℤ_iff c.version v)

  -- Whatever sections of other lookups run during its query, TripSchedule answers as the query does
  -- for that version and trip, and leaves in the cache only what the query yields for the cache's
  -- version, within its bound. The query yields the same each time.
  pub trip_schedule-IsSoundCache :
      (meanwhile : Cache → Cache) (v : ℤ) (trip_id : Text) (c : Cache)
      → VisitsKey first
      → ((d : Cache) → Sections first load d (meanwhile d))
      → IsSoundCache first load c
      → ((trip_schedule first load meanwhile v trip_id c).0 ≡ load v trip_id)
        × IsSoundCache first load (trip_schedule first load meanwhile v trip_id c).1
  unfolding trip_schedule begin_lookup
  trip_schedule-IsSoundCache meanwhile v trip_id c visits other s =
      begun (get trip_id (pin v c).entries) refl
    where
      pinned : IsSoundCache first load (pin v c)
      pinned = pin-IsSoundCache first load v c s

      loaded :
          (o : Outcome TripSchedule)
          → o ≡ load v trip_id
          → ((after_load first v trip_id o (meanwhile (pin v c))).0 ≡ load v trip_id)
            × IsSoundCache first load (after_load first v trip_id o (meanwhile (pin v c))).1
      loaded (err e) q = (q, Sections-IsSoundCache visits (other (pin v c)) pinned)
      loaded (ok ts) q = (
        q,
        end_lookup-IsSoundCache v trip_id ts (meanwhile (pin v c)) visits (sym q)
            (Sections-IsSoundCache visits (other (pin v c)) pinned),
      )

      begun :
          (o : Option TripSchedule)
          → get trip_id (pin v c).entries ≡ o
          → ((after_begin first load meanwhile v trip_id (o, pin v c)).0 ≡ load v trip_id)
            × IsSoundCache first load (after_begin first load meanwhile v trip_id (o, pin v c)).1
      begun (some ts) q = (
        sym (ap (λ w. load w trip_id) (sym (pin-version v c)) ∙ pinned.entries_loaded trip_id ts q),
        pinned,
      )
      begun none q = loaded (load v trip_id) refl
