-- ===== src/Ingest/BlobPath.antt =====
-- internal/ingest/ingest.go and replay.go: the layout of the archive. A path of a blob is written
-- by blobPath and read back by parseBlobPath.
use ridewatch.Base.{
  ℕ, zero, suc, ℤ, pos, pos_part, abs_ℤ, ltb_ℤ, floor_ℤ, ◌-ℤ◌, Text, text_eq, codes, is_empty,
  is_digit, pad, print_ℤ, value, Bool, false, not, ◌&&◌, ◌||◌, Option, none, some, [], ◌∷◌, ◌++◌,
  take, ltb, leb, ◌==◌, if◌then◌else◌,
}
use ridewatch.Base.Texts.{base_name, has_prefix}
use ridewatch.Domain.Types.{Time, feed_trip_updates, feed_vehicle_positions}
use ridewatch.Domain.Calendar.{utc, second_ns, civil_day, wall_day, wall_hour}

-- time.Time.Unix: the Unix epoch lies 62135596800 seconds after the zero time.
unfoldable pub unix : Time → ℤ
unix t = floor_ℤ t second_ns -ℤ pos 62135596800

-- %04d of a year.
year_text : ℤ → Text
year_text y = if ltb_ℤ y (pos 0) then b'-' ∷ pad 3 (abs_ℤ y) else pad 4 (pos_part y)

abbrev pub blob_suffix : Text
blob_suffix = codes ".pb.gz"

-- {unix}_{sha8}.pb.gz
unfoldable pub blob_name : ℤ → Text → Text
blob_name u sha = print_ℤ u ++ (b'_' ∷ take 8 sha ++ blob_suffix)

unfoldable pub blob_dir : Time → Text
unfolding year_text
blob_dir t =
    let c = civil_day (wall_day t utc) in
    (b'/' ∷ year_text c.year)
    ++ (b'/' ∷ pad 2 c.month)
    ++ (b'/' ∷ pad 2 c.day)
    ++ (b'/' ∷ pad 2 (wall_hour t utc))

unfoldable pub blob_path : Text → Time → Text → Text
unfolding unix blob_name blob_dir
blob_path feed t sha = feed ++ blob_dir t ++ (b'/' ∷ blob_name (unix t) sha)

-- The longest prefix of digits, and what follows it.
unfoldable pub split_digits : Text → Text × Text
split_digits [] = ([], [])
split_digits (c ∷ s) =
    let rest = split_digits s in if is_digit c then (c ∷ rest.0, rest.1) else ([], c ∷ s)

abbrev pub is_hex : ℕ → Bool
is_hex c = is_digit c || leb b'a' c && leb c b'f'

-- n characters of [0-9a-f] and then the suffix.
unfoldable pub hex_then : ℕ → Text → Text → Bool
hex_then zero suffix s = text_eq s suffix
hex_then (suc n) suffix [] = false
hex_then (suc n) suffix (c ∷ s) = let rest = hex_then n suffix s in if is_hex c then rest else false

abbrev pub after_digits : Text → Bool
after_digits [] = false
after_digits (c ∷ s) = if c == b'_' then hex_then 8 blob_suffix s else false

-- The digits that blobNameRe finds in a name.
unfoldable pub blob_digits : Text → Option Text
unfolding split_digits hex_then
blob_digits name =
    let (ds, rest) = split_digits name in
    if not (is_empty ds) && after_digits rest then some ds else none

-- strconv.ParseInt of digits, in base 10 and 64 bits.
unfoldable pub parse_int64 : Text → Option ℕ
parse_int64 ds = if ltb (value 0 ds) 0x8000000000000000 then some (value 0 ds) else none

unfoldable pub feed_of_path : Text → Option Text
unfolding has_prefix
feed_of_path rel =
    if has_prefix (feed_trip_updates ++ codes "/") rel
    then some feed_trip_updates
    else if has_prefix (feed_vehicle_positions ++ codes "/") rel
    then some feed_vehicle_positions
    else none

pub record BlobRef : Type 0 where
  pub feed : Text
  pub unix : ℕ
  pub rel_path : Text

infixl 5 ◌>>=◌
abbrev ◌>>=◌ {ℓ κ} : {A : Type ℓ} {B : Type κ} → Option A → (A → Option B) → Option B
none >>= f = none
some a >>= f = f a

-- The timestamp in the name of a blob.
unfoldable pub name_time : Text → Option ℕ
name_time rel = do ds ← blob_digits (base_name rel); parse_int64 ds

unfoldable pub parse_blob_path : Text → Option BlobRef
parse_blob_path rel = do
  ds ← blob_digits (base_name rel)
  feed ← feed_of_path rel
  u ← parse_int64 ds
  some (record { feed = feed; unix = u; rel_path = rel })
