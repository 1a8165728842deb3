-- ===== src/Store/SoundCommit.antt =====
-- NewScheduleLoad and the updates of Commit of internal/store/scheduleload.go keep the versions
-- sound.
use ridewatch.Base.{
  ℤ, Text, eqb_ℤ, eqb_ℤ_iff, ◌≡◌, refl, ◌∙◌, Bool, true, false, Option, none, some, List, [], ◌∷◌,
  map, All, All-weaken, arith, if-split, if◌then◌else◌, Err,
}
use ridewatch.Domain.Types.{Time}
use ridewatch.Store.Versions.{
  Version, Db, has_id, set_loaded, deactivate, activate, insert_version, insert_unless,
  delete_version,
}
use ridewatch.Store.ScheduleLoad.{
  Faults, Opened, opened, exists, refused, unless, begin_load, inserted, fresh_version, old_version,
  found_version, new_schedule_load,
}
use ridewatch.Store.Direct.{publish_version}
use ridewatch.Store.Published.{is_loaded, IdsApart}
use ridewatch.Store.Sound.{
  OneActive, IsSound, delete_version-IsSound, insert_unless-IsSound, known-last,
}
use ridewatch.Store.SoundLoad.{Below-map, IdsApart-map, known-map, updated, IsReady}

abbrev Inactive : List Version → Type 0
Inactive = All (λ (v : Version). v.active ≡ false)

-- The steps of the three updates on one version.
abbrev marked : ℤ → Time → Version → Version
marked id now v = if has_id id v then record v { loaded_at = some now } else v

deactivated : Version → Version
deactivated v = if v.active then record v { active = false } else v

abbrev activated : ℤ → Version → Version
activated id v = if has_id id v then record v { active = true } else v

deactivated-inactive : (v : Version) → (deactivated v).active ≡ false
unfolding deactivated
deactivated-inactive v =
    if-split (λ w. w.active ≡ false) v.active (record v { active = false }) v (λ e. refl) (λ e. e)

deactivated-Inactive : (vs : List Version) → Inactive (map deactivated vs)
deactivated-Inactive [] = tt
deactivated-Inactive (v ∷ vs) = (deactivated-inactive v, deactivated-Inactive vs)

marked-id : (id : ℤ) (now : Time) (v : Version) → (marked id now v).id ≡ v.id
marked-id id now = updated (λ v. v.id) (has_id id) _ (λ v. refl)

deactivated-id : (v : Version) → (deactivated v).id ≡ v.id
unfolding deactivated
deactivated-id = updated (λ v. v.id) (λ v. v.active) _ (λ v. refl)

activated-id : (id : ℤ) (v : Version) → (activated id v).id ≡ v.id
activated-id id = updated (λ v. v.id) (has_id id) _ (λ v. refl)

activated-OneActive :
    (id : ℤ) (vs : List Version) → Inactive vs → IdsApart vs → OneActive (map (activated id) vs)
unfolding has_id
activated-OneActive id [] n a = tt
activated-OneActive id (v ∷ vs) (n, ns) (a, as_) =
    (rest (eqb_ℤ v.id id) refl, activated-OneActive id vs ns as_)
  where
    others :
        eqb_ℤ v.id id ≡ true
        → (ws : List Version) → All (λ (w : Version). eqb_ℤ w.id v.id ≡ false) ws
        → Inactive ws
        → Inactive (map (activated id) ws)
    others e [] h k = tt
    others e (w ∷ ws) (h, hs) (k, ks) = (
      ground (arith, e, h, k, eqb_ℤ_iff v.id id, eqb_ℤ_iff w.id id, eqb_ℤ_iff w.id v.id),
      others e ws hs ks,
    )

    rest :
        (b : Bool)
        → eqb_ℤ v.id id ≡ b
        → (if b then record v { active = true } else v).active ≡ true
        → Inactive (map (activated id) vs)
    rest true e t = others e vs a ns
    rest false e t = absurd (ground (arith, n, t))

-- The version of the id is loaded.
abbrev LoadedAt : ℤ → Version → Type 0
LoadedAt id v = has_id id v ≡ true → is_loaded v ≡ true

marked-LoadedAt : (id : ℤ) (now : Time) (v : Version) → LoadedAt id (marked id now v)
unfolding has_id
marked-LoadedAt id now v = ground arith

deactivated-LoadedAt : (id : ℤ) (v : Version) → LoadedAt id v → LoadedAt id (deactivated v)
unfolding deactivated has_id
deactivated-LoadedAt id v h = ground (arith, h)

activated-loaded :
    (id : ℤ) (v : Version)
    → v.active ≡ false
    → LoadedAt id v
    → (activated id v).active ≡ true
    → is_loaded (activated id v) ≡ true
unfolding has_id
activated-loaded id v n h e = ground (arith, n, h, e)

published-loaded :
    (id : ℤ) (now : Time) (vs : List Version)
    → All
        (λ (v : Version). v.active ≡ true → is_loaded v ≡ true)
        (map (activated id) (map deactivated (map (marked id now) vs)))
published-loaded id now [] = tt
published-loaded id now (v ∷ vs) = (
  activated-loaded id _ (deactivated-inactive (marked id now v))
      (deactivated-LoadedAt id (marked id now v) (marked-LoadedAt id now v)),
  published-loaded id now vs,
)

pub publish_version-IsSound :
    (now : Time) (id : ℤ) (db : Db) → IsSound db → IsSound (publish_version now id db)
unfolding publish_version activate deactivate set_loaded deactivated
publish_version-IsSound now id db s =
    let vs = map (marked id now) db.versions in
    let below = Below-map (marked id now) (marked-id id now) db.next_id db.versions s.below in
    let apart = IdsApart-map (marked id now) (marked-id id now) db.versions s.apart in
    let below' = Below-map deactivated deactivated-id db.next_id vs below in
    let apart' = IdsApart-map deactivated deactivated-id vs apart in
    let ws = map deactivated vs in
    record {
      below = Below-map (activated id) (activated-id id) db.next_id ws below';
      apart = IdsApart-map (activated id) (activated-id id) ws apart';
      one_active = activated-OneActive id ws (deactivated-Inactive vs) apart';
      active_loaded = published-loaded id now db.versions;
      rows_known = λ t.
          All-weaken _ _ (db.rows t)
            (λ (i, r) k.
              known-map (activated id) (activated-id id) ws i
              ∙ known-map deactivated deactivated-id vs i
              ∙ known-map (marked id now) (marked-id id now) db.versions i
              ∙ k)
            (s.rows_known t);
    }

-- Sound tables, that know the version where one is opened.
abbrev pub IsOpenSound : Opened × Db → Type 0
IsOpenSound (opened l, db) = IsReady l.id db
IsOpenSound (exists, db) = IsSound db
IsOpenSound (refused e, db) = IsSound db

unless-IsOpenSound :
    (o : Option Err) (db : Db) (k : Opened × Db)
    → IsSound db
    → IsOpenSound k
    → IsOpenSound (unless o db k)
unless-IsOpenSound (some e) db k s h = s
unless-IsOpenSound none db k s h = h

inserted-IsOpenSound :
    (f : Faults) (b : Bool) (v : Version) (db : Db)
    → v.id ≡ db.next_id
    → v.active ≡ false
    → IsSound db
    → IsOpenSound (inserted f (insert_unless b v db))
unfolding begin_load
inserted-IsOpenSound f true v db i n s = insert_unless-IsSound true v db i n s
inserted-IsOpenSound f false v db i n s =
    unless-IsOpenSound f.begin _ _ (insert_unless-IsSound false v db i n s)
      (insert_unless-IsSound false v db i n s, known-last v db.versions)

fresh_version-IsOpenSound :
    (f : Faults) (sha : Text) (at : Time) (db : Db)
    → IsSound db
    → IsOpenSound (fresh_version f sha at db)
unfolding fresh_version insert_version
fresh_version-IsOpenSound f sha at db s =
    unless-IsOpenSound f.insert db _ s (inserted-IsOpenSound f _ _ db refl refl s)

pub new_schedule_load-IsOpenSound :
    (f : Faults) (sha : Text) (at : Time) (db : Db)
    → IsSound db
    → IsOpenSound (new_schedule_load f sha at db)
unfolding new_schedule_load found_version
new_schedule_load-IsOpenSound f sha at db s = unless-IsOpenSound f.lookup db _ s (found _)
  where
    old : (o : Option Time) (id : ℤ) → IsOpenSound (old_version f sha at o id db)
    old (some t) id = s
    old none id =
        unless-IsOpenSound f.delete_crashed db _ s (
          fresh_version-IsOpenSound f sha at (delete_version id db)
            (delete_version-IsSound id db s))

    found : (vs : List Version) → IsOpenSound (found_version f sha at vs db)
    found [] = fresh_version-IsOpenSound f sha at db s
    found (v ∷ vs) = old v.loaded_at v.id
