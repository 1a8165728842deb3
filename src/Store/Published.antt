-- ===== src/Store/Published.antt =====
-- What readers see of the static schedules, the versions that are loaded with their rows, and that
-- a load of internal/store/scheduleload.go which is not committed leaves it as it was.
use ridewatch.Base.{
  ℤ, pos_part, neg_part, ◌+◌, ◌<◌, eqb_ℤ, eqb_ℤ_iff, ◌≡◌, refl, ap, fun_ext, Bool, true, false, not,
  ◌&&◌, Option, none, some, List, [], ◌∷◌, ◌++◌, keep, some_entry, All, arith,
}
use ridewatch.Store.Versions.{
  Version, TableName, Stored, Db, has_id, of_version, delete_version, insert_unless,
}

abbrev pub is_some {ℓ} : {A : Type ℓ} → Option A → Bool
is_some none = false
is_some (some a) = true

abbrev pub is_loaded : Version → Bool
is_loaded v = is_some v.loaded_at

-- A version of the id is loaded.
abbrev pub loaded_id : List Version → ℤ → Bool
loaded_id vs id = some_entry (λ v. is_loaded v && has_id id v) vs

pub record View : Type 0 where
  pub versions : List Version
  pub rows : TableName → List Stored

unfoldable pub published : Db → View
published db = record {
  versions = keep is_loaded db.versions;
  rows = λ t. keep (λ (id, r). loaded_id db.versions id) (db.rows t);
}

-- Ids are below the next one, and two versions have two ids.
abbrev pub Below : ℤ → List Version → Type 0
Below next = All (λ (v : Version). pos_part v.id + neg_part next < pos_part next + neg_part v.id)

abbrev pub IdsApart : List Version → Type 0
IdsApart [] = Unit
IdsApart (v ∷ vs) = All (λ (w : Version). eqb_ℤ w.id v.id ≡ false) vs × IdsApart vs

keep_less :
    (id : ℤ) (vs : List Version)
    → loaded_id vs id ≡ false
    → keep is_loaded (keep (λ v. not (has_id id v)) vs) ≡ keep is_loaded vs
keep_less id [] h = refl
keep_less id (v ∷ vs) h = ground (arith, keep_less id vs)

loaded_id-keep :
    (id i : ℤ) (vs : List Version)
    → loaded_id vs id ≡ false
    → loaded_id (keep (λ v. not (has_id id v)) vs) i ≡ loaded_id vs i
unfolding has_id
loaded_id-keep id i [] h = refl
loaded_id-keep id i (v ∷ vs) h =
    ground (arith, loaded_id-keep id i vs, eqb_ℤ_iff v.id i, eqb_ℤ_iff v.id id)

rows_less :
    (id : ℤ) (vs vs' : List Version) (rs : List Stored)
    → loaded_id vs id ≡ false
    → ((i : ℤ) → loaded_id vs' i ≡ loaded_id vs i)
    → keep (λ (i, r). loaded_id vs' i) (keep (λ r. not (of_version id r)) rs)
      ≡ keep (λ (i, r). loaded_id vs i) rs
unfolding of_version
rows_less id vs vs' [] h e = refl
rows_less id vs vs' ((i, r) ∷ rs) h e =
    ground (arith, rows_less id vs vs' rs, e i, eqb_ℤ_iff i id, e id)

pub delete_version-published :
    (id : ℤ) (db : Db)
    → loaded_id db.versions id ≡ false
    → published (delete_version id db) ≡ published db
unfolding published delete_version has_id of_version
delete_version-published id db h = λ i. record {
  versions = keep_less id db.versions h i;
  rows =
      fun_ext
        (λ t.
          rows_less id db.versions (keep (λ v. not (has_id id v)) db.versions) (db.rows t) h
            (λ j. loaded_id-keep id j db.versions h))
        i;
}

keep_unloaded :
    (vs : List Version) (v : Version)
    → is_loaded v ≡ false
    → keep is_loaded (vs ++ (v ∷ [])) ≡ keep is_loaded vs
keep_unloaded [] v h = ground arith
keep_unloaded (w ∷ vs) v h = ground (arith, keep_unloaded vs v)

pub loaded_id_unloaded :
    (vs : List Version) (v : Version) (i : ℤ)
    → is_loaded v ≡ false
    → loaded_id (vs ++ (v ∷ [])) i ≡ loaded_id vs i
loaded_id_unloaded [] v i h = ground arith
loaded_id_unloaded (w ∷ vs) v i h = ground (arith, loaded_id_unloaded vs v i)

pub insert_unless-published :
    (b : Bool) (v : Version) (db : Db)
    → is_loaded v ≡ false
    → published (insert_unless b v db).1 ≡ published db
unfolding published
insert_unless-published true v db h = refl
insert_unless-published false v db h = λ i. record {
  versions = keep_unloaded db.versions v h i;
  rows =
      fun_ext
        (λ t.
          ap (λ (p : ℤ → Bool). keep (λ ((j, r) : Stored). p j) (db.rows t))
            (fun_ext (λ j. loaded_id_unloaded db.versions v j h)))
        i;
}
