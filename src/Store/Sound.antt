-- ===== src/Store/Sound.antt =====
-- The versions of the static schedules, and that the statements of internal/store/scheduleload.go
-- keep them sound.
use ridewatch.Base.{
  ℤ, pos, pos_part, neg_part, ◌+◌, ◌<◌, ◌+ℤ◌, +ℤ_parts, eqb_ℤ, eqb_ℤ_iff, ◌≡◌, refl, sym, subst,
  Bool, true, false, not, List, [], ◌∷◌, ◌++◌, keep, some_entry, All, All-keep, All-append,
  All-weaken, arith, if-elim, if◌then◌else◌,
}
use ridewatch.Store.Versions.{
  Version, TableName, Stored, Db, has_id, of_version, delete_version, insert_unless,
}
use ridewatch.Store.Published.{is_loaded, Below, IdsApart}

abbrev pub OneActive : List Version → Type 0
OneActive [] = Unit
OneActive (v ∷ vs) = (v.active ≡ true → All (λ (w : Version). w.active ≡ false) vs) × OneActive vs

-- A version of the id is there.
abbrev pub known : List Version → ℤ → Bool
known vs id = some_entry (has_id id) vs

-- At most one version is active, one that is loaded; ids are those of one version and below the
-- next; and each row is of a version.
pub record IsSound (db : Db) : Type 0 where
  pub below : Below db.next_id db.versions
  pub apart : IdsApart db.versions
  pub one_active : OneActive db.versions
  pub active_loaded : All (λ (v : Version). v.active ≡ true → is_loaded v ≡ true) db.versions
  pub rows_known :
      (t : TableName) → All (λ ((i, r) : Stored). known db.versions i ≡ true) (db.rows t)

-- A test of the versions that keeps the rows known.
abbrev Known : List Version → List Stored → Type 0
Known vs = All (λ ((i, r) : Stored). known vs i ≡ true)

IdsApart-keep : (p : Version → Bool) (vs : List Version) → IdsApart vs → IdsApart (keep p vs)
IdsApart-keep p [] h = tt
IdsApart-keep p (v ∷ vs) (a, h) =
    if-elim IdsApart (p v) (v ∷ keep p vs) (keep p vs) (All-keep _ p vs a, IdsApart-keep p vs h)
      (IdsApart-keep p vs h)

OneActive-keep : (p : Version → Bool) (vs : List Version) → OneActive vs → OneActive (keep p vs)
OneActive-keep p [] h = tt
OneActive-keep p (v ∷ vs) (a, h) =
    if-elim OneActive (p v) (v ∷ keep p vs) (keep p vs)
      ((λ e. All-keep _ p vs (a e)), OneActive-keep p vs h) (OneActive-keep p vs h)

known-keep :
    (id i : ℤ) (vs : List Version)
    → known vs i ≡ true
    → eqb_ℤ i id ≡ false
    → known (keep (λ v. not (has_id id v)) vs) i ≡ true
unfolding has_id
known-keep id i [] h n = h
known-keep id i (v ∷ vs) h n =
    ground (arith, known-keep id i vs, eqb_ℤ_iff v.id i, eqb_ℤ_iff v.id id)

Known-keep :
    (id : ℤ) (vs : List Version) (rs : List Stored)
    → Known vs rs
    → Known (keep (λ v. not (has_id id v)) vs) (keep (λ r. not (of_version id r)) rs)
unfolding of_version
Known-keep id vs [] h = tt
Known-keep id vs ((i, r) ∷ rs) (k, h) = row (eqb_ℤ i id) refl (Known-keep id vs rs h)
  where
    row :
        (b : Bool)
        → eqb_ℤ i id ≡ b
        → Known (keep (λ v. not (has_id id v)) vs) (keep (λ r. not (of_version id r)) rs)
        → Known (keep (λ v. not (has_id id v)) vs) (
            if not b
            then (i, r) ∷ keep (λ r. not (of_version id r)) rs
            else keep (λ r. not (of_version id r)) rs)
    row true e rest = rest
    row false e rest = (known-keep id i vs k e, rest)

pub delete_version-IsSound : (id : ℤ) (db : Db) → IsSound db → IsSound (delete_version id db)
unfolding delete_version
delete_version-IsSound id db s = record {
  below = All-keep _ _ db.versions s.below;
  apart = IdsApart-keep _ db.versions s.apart;
  one_active = OneActive-keep _ db.versions s.one_active;
  active_loaded = All-keep _ _ db.versions s.active_loaded;
  rows_known = λ t. Known-keep id db.versions (db.rows t) (s.rows_known t);
}

IdsApart-append :
    (v : Version) (vs : List Version) → Below v.id vs → IdsApart vs → IdsApart (vs ++ (v ∷ []))
IdsApart-append v [] b h = (tt, tt)
IdsApart-append v (w ∷ ws) (b, bs) (a, h) =
    (All-append _ ws (v ∷ []) a (other, tt), IdsApart-append v ws bs h)
  where
    other : eqb_ℤ v.id w.id ≡ false
    other = ground (arith, eqb_ℤ_iff v.id w.id)

OneActive-append :
    (v : Version) (vs : List Version) → v.active ≡ false → OneActive vs → OneActive (vs ++ (v ∷ []))
OneActive-append v [] n h = ((λ e. tt), tt)
OneActive-append v (w ∷ ws) n (a, h) =
    ((λ e. All-append _ ws (v ∷ []) (a e) (n, tt)), OneActive-append v ws n h)

known-append :
    (v : Version) (vs : List Version) (i : ℤ) → known vs i ≡ true → known (vs ++ (v ∷ [])) i ≡ true
known-append v [] i h = ground arith
known-append v (w ∷ ws) i h = ground (arith, known-append v ws i)

pub known-last : (v : Version) (vs : List Version) → known (vs ++ (v ∷ [])) v.id ≡ true
unfolding has_id
known-last v [] = ground (arith, eqb_ℤ_iff v.id v.id)
known-last v (w ∷ ws) = ground (arith, known-last v ws)

Below-next : (next : ℤ) (vs : List Version) → Below next vs → Below (next +ℤ pos 1) vs
Below-next next vs = All-weaken _ _ vs (λ v h. omega (arith, h, +ℤ_parts next (pos 1)))

pub insert_unless-IsSound :
    (b : Bool) (v : Version) (db : Db)
    → v.id ≡ db.next_id
    → v.active ≡ false
    → IsSound db
    → IsSound (insert_unless b v db).1
insert_unless-IsSound true v db i n s = record {
  below = Below-next db.next_id db.versions s.below;
  apart = s.apart;
  one_active = s.one_active;
  active_loaded = s.active_loaded;
  rows_known = s.rows_known;
}
insert_unless-IsSound false v db i n s = record {
  below = All-append _ db.versions (v ∷ []) (Below-next db.next_id db.versions s.below) (next, tt);
  apart = IdsApart-append v db.versions (subst (λ n. Below n db.versions) (sym i) s.below) s.apart;
  one_active = OneActive-append v db.versions n s.one_active;
  active_loaded =
      All-append _ db.versions (v ∷ []) s.active_loaded ((λ e. absurd (ground (arith, n, e))), tt);
  rows_known =
      λ t. All-weaken _ _ (db.rows t) (λ (i, r) k. known-append v db.versions i k) (s.rows_known t);
}
  where
    next :
        pos_part v.id + neg_part (db.next_id +ℤ pos 1)
        < pos_part (db.next_id +ℤ pos 1) + neg_part v.id
    next = ground (arith, +ℤ_parts db.next_id (pos 1), i)
