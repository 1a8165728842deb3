-- ===== src/Domain/Scan.antt =====
-- What internal/domain/gtfstime.go uses of fmt.Sscanf: %d with and without a width, and a literal
-- character. Like Sscanf it skips white space before a number, takes a sign, refuses a number
-- that does not fit an int64, and leaves the rest of the input unread.
use ridewatch.Base.Texts.{is_space}
use ridewatch.Base.{
  ℕ, zero, suc, ◌+◌, ◌-◌, ◌*◌, ◌^◌, ℤ, pos, neg_ℤ, Text, is_digit, Bool, true, false, [], ◌∷◌, ltb,
  leb, ◌==◌, if◌then◌else◌, Outcome, ok, err, failed, ◌>>=◌,
}

-- A newline is white space, but an error to Sscanf.
skip_space : Text → Outcome Text
unfolding is_space
skip_space [] = ok []
skip_space (c ∷ s) =
    let rest = skip_space s in
    if c == 10 then err failed else if is_space c then rest else ok (c ∷ s)

-- The longest run of digits within the width, and what is left.
scan_digits : ℕ → ℕ → Text → ℕ × Text
scan_digits w n [] = (n, [])
scan_digits zero n (c ∷ s) = (n, c ∷ s)
scan_digits (suc w) n (c ∷ s) =
    let rest = scan_digits w (n * 10 + (c - 48)) s in if is_digit c then rest else (n, c ∷ s)

in_int64 : Bool → ℕ → Outcome ℤ
in_int64 true n = if leb n 0x8000000000000000 then ok (neg_ℤ n) else err failed
in_int64 false n = if ltb n 0x8000000000000000 then ok (pos n) else err failed

abbrev is_empty_number : ℕ → Text → Bool
is_empty_number w [] = true
is_empty_number zero (c ∷ s) = true
is_empty_number (suc w) (c ∷ s) = if is_digit c then false else true

scan_unsigned : Bool → ℕ → Text → Outcome (ℤ × Text)
unfolding scan_digits in_int64
scan_unsigned negative w s =
    if is_empty_number w s
    then err failed
    else let (n, rest) = scan_digits w 0 s in (in_int64 negative n >>= λ v. ok (v, rest))

scan_signed : ℕ → Text → Outcome (ℤ × Text)
unfolding scan_unsigned
scan_signed w [] = err failed
scan_signed w (c ∷ s) =
    if c == b'-'
    then scan_unsigned true (w - 1) s
    else if c == b'+'
    then scan_unsigned false (w - 1) s
    else scan_unsigned false w (c ∷ s)

-- %wd, and %d with the width of fmt's hugeWid.
unfoldable pub scan_int : ℕ → Text → Outcome (ℤ × Text)
unfolding skip_space scan_signed
scan_int w s = skip_space s >>= scan_signed w

abbrev pub huge_width : ℕ
huge_width = 2 ^ 30

unfoldable pub scan_literal : ℕ → Text → Outcome Text
scan_literal c [] = err failed
scan_literal c (d ∷ s) = if d == c then ok s else err failed
