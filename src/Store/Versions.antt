-- ===== src/Store/Versions.antt =====
-- internal/store: schedule_versions and the tables of a static schedule, whose rows belong to a
-- version (ON DELETE CASCADE), with the statements of scheduleload.go on them. Ids are drawn from
-- a sequence, and sha256 is unique.
use ridewatch.Base.{
  ℕ, ℤ, pos, eqb_ℤ, ◌+ℤ◌, Text, text_eq, Bool, true, false, not, Option, none, some, List, [], ◌∷◌,
  ◌++◌, map, keep, some_entry, ◌==◌, if◌then◌else◌, Outcome, ok, err, failed,
}
use ridewatch.Domain.Types.{Time}
use ridewatch.Domain.Static.{Route, Stop, Trip, StopTime}

pub record Version : Type 0 where
  pub id : ℤ
  pub sha256 : Text
  pub feed_version : Text
  pub agency_tz : Text
  pub fetched_at : Time
  pub loaded_at : Option Time
  pub active : Bool

pub data TableName : Type 0 where
  routes stops trips stop_times calendar calendar_dates : TableName

-- A row of a table, without its version: the dates of the calendars as day numbers.
pub data Row : Type 0 where
  route_row : Route → Row
  stop_row : Stop → Row
  trip_row : Trip → Row
  stop_time_row : StopTime → Row
  calendar_row : Text → List Bool → ℤ → ℤ → Row
  calendar_date_row : Text → ℤ → ℤ → Row

-- A row with the id of its version.
abbrev pub Stored : Type 0
Stored = ℤ × Row

pub record Db : Type 0 where
  pub versions : List Version
  pub next_id : ℤ
  pub rows : TableName → List Stored

abbrev pub tag : TableName → ℕ
tag routes = 0
tag stops = 1
tag trips = 2
tag stop_times = 3
tag calendar = 4
tag calendar_dates = 5

-- A value for one table, and the old one for the others.
abbrev pub set_at {ℓ} : {A : Type ℓ} → TableName → A → (TableName → A) → TableName → A
set_at t v f u = if tag t == tag u then v else f u

unfoldable pub has_id : ℤ → Version → Bool
has_id id v = eqb_ℤ v.id id

unfoldable pub has_sha : Text → Version → Bool
has_sha sha v = text_eq v.sha256 sha

unfoldable pub of_version : ℤ → Stored → Bool
of_version id (v, r) = eqb_ℤ v id

-- DELETE FROM schedule_versions WHERE id = $1, with the cascade.
unfoldable pub delete_version : ℤ → Db → Db
delete_version id db = record db {
  versions = keep (λ v. not (has_id id v)) db.versions;
  rows = λ t. keep (λ r. not (of_version id r)) (db.rows t);
}

abbrev pub new_version : ℤ → Text → Time → Version
new_version id sha fetched_at = record {
  id = id;
  sha256 = sha;
  feed_version = [];
  agency_tz = [];
  fetched_at = fetched_at;
  loaded_at = none;
  active = false;
}

abbrev pub insert_unless : Bool → Version → Db → Outcome ℤ × Db
insert_unless true v db = (err failed, record db { next_id = db.next_id +ℤ pos 1 })
insert_unless false v db =
    (ok v.id, record db { versions = db.versions ++ (v ∷ []); next_id = db.next_id +ℤ pos 1 })

-- INSERT INTO schedule_versions … RETURNING id, refused where the hash is there.
unfoldable pub insert_version : Text → Time → Db → Outcome ℤ × Db
unfolding has_sha
insert_version sha fetched_at db =
    insert_unless (some_entry (has_sha sha) db.versions) (new_version db.next_id sha fetched_at) db

-- UPDATE schedule_versions SET … WHERE …
abbrev pub update_versions : (Version → Bool) → (Version → Version) → Db → Db
update_versions p f db = record db { versions = map (λ v. if p v then f v else v) db.versions }

abbrev pub set_meta : Text → Text → Version → Version
set_meta version tz v = record v { feed_version = version; agency_tz = tz }

-- The three updates of Commit.
unfoldable pub set_loaded : Time → ℤ → Db → Db
unfolding has_id
set_loaded now id = update_versions (has_id id) (λ v. record v { loaded_at = some now })

unfoldable pub deactivate : Db → Db
deactivate = update_versions (λ v. v.active) (λ v. record v { active = false })

unfoldable pub activate : ℤ → Db → Db
unfolding has_id
activate id = update_versions (has_id id) (λ v. record v { active = true })
