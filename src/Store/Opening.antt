-- ===== src/Store/Opening.antt =====
-- NewScheduleLoad of internal/store/scheduleload.go and what readers see of the schedules.
use ridewatch.Base.{
  ℤ, eqb_ℤ, eqb_ℤ_iff, Text, ◌≡◌, refl, ap, subst, ◌∙◌, Bool, true, false, Bool-cases, Option, none,
  some, List, [], ◌∷◌, keep, All, arith, Err, inl, inr,
}
use ridewatch.Domain.Types.{Time}
use ridewatch.Store.Versions.{
  Version, Db, has_id, has_sha, delete_version, insert_version, insert_unless,
}
use ridewatch.Store.ScheduleLoad.{
  Faults, Opened, opened, exists, refused, unless, begin_load, inserted, fresh_version, old_version,
  found_version, new_schedule_load,
}
use ridewatch.Store.Published.{
  is_loaded, loaded_id, published, Below, IdsApart, delete_version-published,
  insert_unless-published, loaded_id_unloaded,
}

-- Readers see what they saw, and nothing of the version that is being loaded.
abbrev pub IsUnseen : Db → Opened × Db → Type 0
IsUnseen db (opened l, db') = (published db' ≡ published db) × (loaded_id db'.versions l.id ≡ false)
IsUnseen db (exists, db') = published db' ≡ published db
IsUnseen db (refused e, db') = published db' ≡ published db

Below-loaded_id : (next : ℤ) (vs : List Version) → Below next vs → loaded_id vs next ≡ false
unfolding has_id
Below-loaded_id next [] h = refl
Below-loaded_id next (v ∷ vs) h = ground (arith, Below-loaded_id next vs, eqb_ℤ_iff v.id next)

apart-loaded_id :
    (id : ℤ) (vs : List Version)
    → All (λ (w : Version). eqb_ℤ w.id id ≡ false) vs
    → loaded_id vs id ≡ false
unfolding has_id
apart-loaded_id id [] h = refl
apart-loaded_id id (v ∷ vs) h = ground (arith, apart-loaded_id id vs)

All-keep :
    (P : Version → Type 0) (p : Version → Bool) (vs : List Version) → All P vs → All P (keep p vs)
All-keep P p [] h = tt
All-keep P p (v ∷ vs) h = ground (arith, All-keep P p vs)

apart-first :
    (v : Version) (vs ws : List Version) (p : Version → Bool)
    → keep p ws ≡ v ∷ vs
    → v.loaded_at ≡ none
    → IdsApart ws
    → loaded_id ws v.id ≡ false
unfolding has_id
apart-first v vs [] p e h apart = ground arith
apart-first v vs (w ∷ ws) p e h (apart, rest) = elim (Bool-cases (p w)) [
  | inl y ↦
      let same : w ≡ v = ground arith in
      let unloaded : w.loaded_at ≡ none = ap (λ u. u.loaded_at) same ∙ h in
      let unseen : loaded_id (w ∷ ws) w.id ≡ false =
        ground (arith, apart-loaded_id w.id ws apart) in
      subst (λ (u : Version). loaded_id (w ∷ ws) u.id ≡ false) same unseen
  | inr n ↦
      let kept : keep p ws ≡ v ∷ vs = ground arith in
      let other : eqb_ℤ v.id w.id ≡ false = kept_apart (keep p ws) kept (All-keep _ p ws apart) in
      ground
        (arith, apart-first v vs ws p kept h rest, other, eqb_ℤ_iff w.id v.id, eqb_ℤ_iff v.id w.id)
]
  where
    kept_apart :
        (us : List Version)
        → us ≡ v ∷ vs
        → All (λ (u : Version). eqb_ℤ u.id w.id ≡ false) us
        → eqb_ℤ v.id w.id ≡ false
    kept_apart us q a = (subst (All (λ (u : Version). eqb_ℤ u.id w.id ≡ false)) q a).0

unless-IsUnseen :
    (fault : Option Err) (db₀ db : Db) (k : Opened × Db)
    → published db ≡ published db₀
    → IsUnseen db₀ k
    → IsUnseen db₀ (unless fault db k)
unless-IsUnseen (some e) db₀ db k h g = h
unless-IsUnseen none db₀ db k h g = g

begin_load-IsUnseen :
    (fault : Option Err) (id : ℤ) (db₀ db : Db)
    → published db ≡ published db₀
    → loaded_id db.versions id ≡ false
    → IsUnseen db₀ (begin_load fault id db)
unfolding begin_load
begin_load-IsUnseen (some e) id db₀ db h g = h
begin_load-IsUnseen none id db₀ db h g = (h, g)

inserted-IsUnseen :
    (f : Faults) (b : Bool) (v : Version) (db₀ db : Db)
    → published db ≡ published db₀
    → is_loaded v ≡ false
    → loaded_id db.versions v.id ≡ false
    → IsUnseen db₀ (inserted f (insert_unless b v db))
inserted-IsUnseen f true v db₀ db h g a = insert_unless-published true v db g ∙ h
inserted-IsUnseen f false v db₀ db h g a =
    begin_load-IsUnseen f.begin v.id db₀ _ (insert_unless-published false v db g ∙ h)
      (loaded_id_unloaded db.versions v v.id g ∙ a)

fresh_version-IsUnseen :
    (f : Faults) (sha : Text) (at : Time) (db₀ db : Db)
    → published db ≡ published db₀
    → Below db.next_id db.versions
    → IsUnseen db₀ (fresh_version f sha at db)
unfolding fresh_version insert_version
fresh_version-IsUnseen f sha at db₀ db h b =
    unless-IsUnseen f.insert db₀ db _ h
      (inserted-IsUnseen f _ _ db₀ db h refl (Below-loaded_id db.next_id db.versions b))

found_version-IsUnseen :
    (f : Faults) (sha : Text) (at : Time) (vs : List Version) (db : Db)
    → Below db.next_id db.versions
    → IdsApart db.versions
    → keep (has_sha sha) db.versions ≡ vs
    → IsUnseen db (found_version f sha at vs db)
unfolding found_version
found_version-IsUnseen f sha at [] db b apart e = fresh_version-IsUnseen f sha at db db refl b
found_version-IsUnseen f sha at (v ∷ vs) db b apart e = found v.loaded_at refl
  where
    found : (o : Option Time) → v.loaded_at ≡ o → IsUnseen db (old_version f sha at o v.id db)
    found (some t) h = refl
    found none h =
        let unseen = apart-first v vs db.versions (has_sha sha) e h apart in
        unless-IsUnseen f.delete_crashed db db _ refl (
          fresh_version-IsUnseen f sha at db (delete_version v.id db)
            (delete_version-published v.id db unseen)
            (unfold delete_version in All-keep _ _ db.versions b))

pub new_schedule_load-IsUnseen :
    (f : Faults) (sha : Text) (at : Time) (db : Db)
    → Below db.next_id db.versions
    → IdsApart db.versions
    → IsUnseen db (new_schedule_load f sha at db)
unfolding new_schedule_load
new_schedule_load-IsUnseen f sha at db b apart =
    unless-IsUnseen f.lookup db db _ refl (found_version-IsUnseen f sha at _ db b apart refl)
