-- ===== src/Ingest/PathTrip.antt =====
-- A path that blobPath writes is read back by parseBlobPath as the same feed and second.
use ridewatch.Base.{
  ℕ, zero, suc, ◌<◌, pos, Text, text_eq_refl, print_ℤ, IsDigits, decimal, decimal-IsDigits, lt→ltb,
  value-decimal, is_empty-decimal, ◌≡◌, refl, ap, ◌∙◌, ◌⊎◌, inl, inr, true, false, some, [], ◌∷◌,
  ◌++◌, some_entry, All, length, take, arith,
}
use ridewatch.Base.Texts.{base_name, has_prefix, is_slash}
use ridewatch.Domain.Types.{Time, feed_trip_updates, feed_vehicle_positions}
use ridewatch.Ingest.BlobPath.{
  unix, blob_name, blob_dir, blob_path, blob_suffix, split_digits, hex_then, blob_digits,
  parse_int64, feed_of_path, name_time, parse_blob_path, is_hex,
}

some-append : (xs ys : Text) → some_entry is_slash (xs ++ (b'/' ∷ ys)) ≡ true
some-append [] ys = refl
some-append (x ∷ xs) ys = ground (arith, some-append xs ys)

base_name-append :
    (xs ys : Text) → some_entry is_slash ys ≡ false → base_name (xs ++ (b'/' ∷ ys)) ≡ ys
unfolding base_name
base_name-append [] ys h = rw h refl
base_name-append (x ∷ xs) ys h = rw (some-append xs ys) (base_name-append xs ys h)

no_slash-append :
    (xs ys : Text)
    → some_entry is_slash xs ≡ false
    → some_entry is_slash ys ≡ false
    → some_entry is_slash (xs ++ ys) ≡ false
no_slash-append [] ys h k = k
no_slash-append (x ∷ xs) ys h k = ground (arith, no_slash-append xs ys)

no_slash-digits : (ds : Text) → IsDigits ds → some_entry is_slash ds ≡ false
no_slash-digits [] h = refl
no_slash-digits (d ∷ ds) h = ground (arith, h.0, no_slash-digits ds h.1)

abbrev pub IsHex : Text → Type 0
IsHex = All (λ c. is_hex c ≡ true)

no_slash-hex : (s : Text) → IsHex s → some_entry is_slash s ≡ false
no_slash-hex [] h = refl
no_slash-hex (d ∷ ds) h = ground (arith, h.0, no_slash-hex ds h.1)

split_digits-append :
    (ds rest : Text) → IsDigits ds → split_digits (ds ++ (b'_' ∷ rest)) ≡ (ds, b'_' ∷ rest)
unfolding split_digits
split_digits-append [] rest h = refl
split_digits-append (d ∷ ds) rest h = rw (h.0, split_digits-append ds rest h.1) refl

hex_then-append :
    (n : ℕ) (suffix s : Text) → IsHex s → length s ≡ n → hex_then n suffix (s ++ suffix) ≡ true
unfolding hex_then
hex_then-append zero suffix [] h l = text_eq_refl suffix
hex_then-append zero suffix (c ∷ s) h l = ground (arith, l)
hex_then-append (suc n) suffix [] h l = ground (arith, l)
hex_then-append (suc n) suffix (c ∷ s) h l =
    rw h.0 (hex_then-append n suffix s h.1 (ground (arith, l)))

has_prefix-append : (p s : Text) → has_prefix p (p ++ s) ≡ true
unfolding has_prefix
has_prefix-append [] s = refl
has_prefix-append (c ∷ p) s = ground (arith, has_prefix-append p s)

-- A blob's digits are those of its second.
blob_digits-name :
    (u : ℕ) (sha : Text)
    → IsHex (take 8 sha)
    → length (take 8 sha) ≡ 8
    → blob_digits (blob_name (pos u) sha) ≡ some (decimal u)
unfolding blob_digits blob_name print_ℤ
blob_digits-name u sha h l =
    rw
      (
        split_digits-append (decimal u) (take 8 sha ++ blob_suffix) (decimal-IsDigits u),
        is_empty-decimal u,
        hex_then-append 8 blob_suffix (take 8 sha) h l,
      )
      refl

no_slash-name :
    (u : ℕ) (sha : Text) → IsHex (take 8 sha) → some_entry is_slash (blob_name (pos u) sha) ≡ false
unfolding blob_name print_ℤ
no_slash-name u sha h =
    no_slash-append (decimal u) (b'_' ∷ take 8 sha ++ blob_suffix)
      (no_slash-digits (decimal u) (decimal-IsDigits u))
      (no_slash-append (take 8 sha) blob_suffix (no_slash-hex (take 8 sha) h) refl)

module _ (t : Time) (u : ℕ) (sha : Text) (at_u : unix t ≡ pos u) (small : u < 0x8000000000000000)
    (hex : IsHex (take 8 sha)) (eight : length (take 8 sha) ≡ 8) where
  base-path :
      (dir : Text) → base_name (dir ++ (b'/' ∷ blob_name (unix t) sha)) ≡ blob_name (pos u) sha
  base-path dir =
      ap (λ z. base_name (dir ++ (b'/' ∷ blob_name z sha))) at_u
      ∙ base_name-append dir (blob_name (pos u) sha) (no_slash-name u sha hex)

  digits-path :
      (dir rel : Text)
      → rel ≡ dir ++ (b'/' ∷ blob_name (unix t) sha)
      → blob_digits (base_name rel) ≡ some (decimal u)
  digits-path dir rel e =
      ap blob_digits (ap base_name e ∙ base-path dir) ∙ blob_digits-name u sha hex eight

  parse_int64-decimal : parse_int64 (decimal u) ≡ some u
  unfolding parse_int64
  parse_int64-decimal = rw (value-decimal u, lt→ltb u 0x8000000000000000 small) refl

  parsed :
      (feed dir rel : Text)
      → rel ≡ dir ++ (b'/' ∷ blob_name (unix t) sha)
      → feed_of_path rel ≡ some feed
      → parse_blob_path rel ≡ some (record { feed = feed; unix = u; rel_path = rel })
  unfolding parse_blob_path
  parsed feed dir rel e f = rw (digits-path dir rel e, f, parse_int64-decimal) refl

  trip_updates-path :
      parse_blob_path (blob_path feed_trip_updates t sha)
      ≡ some (record {
        feed = feed_trip_updates;
        unix = u;
        rel_path = blob_path feed_trip_updates t sha;
      })
  unfolding blob_path feed_of_path
  trip_updates-path = parsed feed_trip_updates (feed_trip_updates ++ blob_dir t) _ refl refl

  vehicles-path :
      parse_blob_path (blob_path feed_vehicle_positions t sha)
      ≡ some (record {
        feed = feed_vehicle_positions;
        unix = u;
        rel_path = blob_path feed_vehicle_positions t sha;
      })
  unfolding blob_path feed_of_path
  vehicles-path = parsed feed_vehicle_positions (feed_vehicle_positions ++ blob_dir t) _ refl refl

  -- The second that PruneArchive reads from the name.
  pub name_time-blob_path : (feed : Text) → name_time (blob_path feed t sha) ≡ some u
  unfolding name_time blob_path
  name_time-blob_path feed = rw (digits-path (feed ++ blob_dir t) _ refl) parse_int64-decimal

-- The round trip of the archive's layout: for either feed, at an instant from 1970 on whose second
-- fits an int64, and for a hash that starts with eight lower-case hexadecimal digits,
-- parseBlobPath reads from blobPath's path the feed, the second and the path.
pub parse_blob_path-blob_path :
    (feed : Text) (t : Time) (u : ℕ) (sha : Text)
    → (feed ≡ feed_trip_updates) ⊎ (feed ≡ feed_vehicle_positions)
    → unix t ≡ pos u
    → u < 0x8000000000000000
    → IsHex (take 8 sha)
    → length (take 8 sha) ≡ 8
    → parse_blob_path (blob_path feed t sha)
      ≡ some (record { feed = feed; unix = u; rel_path = blob_path feed t sha })
parse_blob_path-blob_path feed t u sha (inl e) a s h l = rw e (trip_updates-path t u sha a s h l)
parse_blob_path-blob_path feed t u sha (inr e) a s h l = rw e (vehicles-path t u sha a s h l)
