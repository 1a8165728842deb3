-- ===== src/Base/Texts.antt =====
-- What the program uses of the packages strings, path and strconv.
use Prim.Native.Nat.{ℕ}
use mathlib.Core.Bool.{Bool, true, false, ◌&&◌, ◌||◌, not}
use mathlib.Core.Option.{Option, none, some}
use mathlib.Core.List.{List, [], ◌∷◌}
use ridewatch.Base.Tests.{ltb, leb, ◌==◌, if◌then◌else◌}
use ridewatch.Base.Lists.{some_entry}
use ridewatch.Base.Int.{ℤ, pos, neg_ℤ}
use ridewatch.Base.Strings.{Text, is_empty, is_digit, value}
use ridewatch.Base.Results.{Outcome, ok, err, failed}

abbrev pub is_slash : ℕ → Bool
is_slash c = c == b'/'

-- path.Base of a path of a file: what follows the last slash.
unfoldable pub base_name : Text → Text
base_name [] = []
base_name (c ∷ s) =
    let rest = base_name s in
    if some_entry is_slash s then rest else if is_slash c then s else c ∷ s

unfoldable pub has_prefix : Text → Text → Bool
has_prefix [] s = true
has_prefix (c ∷ p) [] = false
has_prefix (c ∷ p) (d ∷ s) = let rest = has_prefix p s in if c == d then rest else false

-- What follows a prefix.
unfoldable pub strip : Text → Text → Option Text
strip [] s = some s
strip (c ∷ p) [] = none
strip (c ∷ p) (d ∷ s) = let rest = strip p s in if c == d then rest else none

-- unicode.IsSpace, which is the white space of package fmt as well.
unfoldable pub is_space : ℕ → Bool
is_space c =
    leb 9 c && leb c 13
    || c == 32
    || c == 0x85
    || c == 0xa0
    || c == 0x1680
    || leb 0x2000 c && leb c 0x200a
    || leb 0x2028 c && leb c 0x2029
    || c == 0x202f
    || c == 0x205f
    || c == 0x3000

trim_left : Text → Text
trim_left [] = []
trim_left (c ∷ s) = let rest = trim_left s in if is_space c then rest else c ∷ s

trim_right : Text → Text
trim_right [] = []
trim_right (c ∷ s) = let rest = trim_right s in if is_empty rest && is_space c then [] else c ∷ rest

unfoldable pub trim_space : Text → Text
unfolding is_space trim_left trim_right
trim_space s = trim_right (trim_left s)

-- strings.Split at a separator of one character: there is always a first part.
abbrev pub to_head : ℕ → List Text → List Text
to_head c [] = (c ∷ []) ∷ []
to_head c (p ∷ ps) = (c ∷ p) ∷ ps

unfoldable pub split_at : ℕ → Text → List Text
split_at sep [] = [] ∷ []
split_at sep (c ∷ s) = let rest = split_at sep s in if c == sep then [] ∷ rest else to_head c rest

unfoldable pub all_digits : Text → Bool
all_digits [] = true
all_digits (c ∷ s) = is_digit c && all_digits s

-- strconv.Atoi of the digits after the sign.
unfoldable pub atoi_digits : Bool → Text → Outcome ℤ
unfolding all_digits value
atoi_digits negative s =
    if is_empty s || not (all_digits s)
    then err failed
    else if negative && leb (value 0 s) 0x8000000000000000
    then ok (neg_ℤ (value 0 s))
    else if not negative && ltb (value 0 s) 0x8000000000000000
    then ok (pos (value 0 s))
    else err failed

unfoldable pub atoi : Text → Outcome ℤ
unfolding atoi_digits
atoi [] = err failed
atoi (c ∷ s) =
    if c == b'-'
    then atoi_digits true s
    else if c == b'+'
    then atoi_digits false s
    else atoi_digits false (c ∷ s)
