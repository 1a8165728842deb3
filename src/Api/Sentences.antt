-- ===== src/Api/Sentences.antt =====
-- internal/api/sentences.go: the reliability sentences of a stop. Shares are float32 numbers from
-- 0 to 1 and sums are float64 numbers that are not negative: a number is its multiple of 2^-149
-- or 2^-1074, and every operation of IEEE 754 is the exact result rounded to 24 or 53 bits, ties
-- to even.
use Prim.Native.Nat.{ℕ, zero, suc, ◌+◌, ◌-◌, ◌*◌, ◌/◌, ◌%◌, ◌^◌}
use ridewatch.Base.{
  ℤ, pos, negsuc, pos_part, ltb_ℤ, eqb_ℤ, quot_ℤ, Text, text_eq, codes, is_empty, decimal, pad,
  print_ℤ, Bool, not, Option, none, some, List, [], ◌∷◌, ◌++◌, map, take, keep, ltb, ◌==◌,
  if◌then◌else◌,
}
use ridewatch.Base.Sorting.{sort_by}
use ridewatch.GoMap.{GoMap, get, text_equality}

-- A float32 in units of 2^-149, a float64 in units of 2^-1074.
abbrev pub Float32 : Type 0
Float32 = ℕ

abbrev pub Float64 : Type 0
Float64 = ℕ

abbrev pub one32 : Float32
one32 = 2 ^ 149

abbrev pub one64 : Float64
one64 = 2 ^ 1074

-- The number of binary digits of n, on fuel; the numbers here have fewer than 4096.
unfoldable pub bit_length : ℕ → ℕ → ℕ
bit_length zero n = 0
bit_length (suc fuel) n = let rest = bit_length fuel (n / 2) in if n == 0 then 0 else suc rest

-- n / d to the nearest whole number, ties to even.
unfoldable pub nearest_even : ℕ → ℕ → ℕ
nearest_even n d =
    let q = n / d in
    let r = n % d in if ltb (r * 2) d then q else if ltb d (r * 2) then q + 1 else q + q % 2

-- n / d with at most `bits` significant binary digits.
unfoldable pub round_to : ℕ → ℕ → ℕ → ℕ
unfolding bit_length nearest_even
round_to bits n d =
    let unit = 2 ^ (bit_length 4096 (n / d) - bits) in nearest_even n (d * unit) * unit

unfoldable pub float64_of_int : ℕ → Float64
unfolding round_to
float64_of_int n = round_to 53 (n * one64) 1

-- float64(x) is exact.
unfoldable pub float64_of_32 : Float32 → Float64
float64_of_32 x = x * 2 ^ 925

unfoldable pub float32_of_64 : Float64 → Float32
unfolding round_to
float32_of_64 x = round_to 24 x (2 ^ 925)

unfoldable pub mul64 : Float64 → Float64 → Float64
unfolding round_to
mul64 x y = round_to 53 (x * y) one64

unfoldable pub add64 : Float64 → Float64 → Float64
unfolding round_to
add64 x y = round_to 53 (x + y) 1

unfoldable pub div64 : Float64 → Float64 → Float64
unfolding round_to
div64 x y = round_to 53 (x * one64) y

-- math.Round of what is not negative: halves go up.
unfoldable pub round64 : Float64 → ℕ
round64 x = (x * 2 + one64) / (2 * one64)

pub record DepartureStat : Type 0 where
  pub route_id : Text
  pub stop_id : Text
  pub direction_id : ℤ
  pub scheduled_secs : ℤ
  pub day_class : Text
  pub n : ℤ
  pub p50_delay_secs : Option ℤ
  pub p90_delay_secs : Option ℤ
  pub late5_pct : Float32

pub record HourlyStat : Type 0 where
  pub route_id : Text
  pub stop_id : Text
  pub direction_id : ℤ
  pub hour_of_week : ℤ
  pub n : ℤ
  pub p50_delay_secs : Option ℤ
  pub p90_delay_secs : Option ℤ
  pub late5_pct : Float32
  pub early_pct : Float32

abbrev pub min_observations : ℕ
min_observations = 10

unfoldable pub pct : Float32 → ℕ
unfolding float64_of_32 float64_of_int mul64 round64
pct share = round64 (mul64 (float64_of_32 share) (float64_of_int 100))

-- a % k of Go, with the sign of a.
unfoldable pub rem_ℤ : ℤ → ℕ → ℤ
rem_ℤ (pos n) k = pos (n % k)
rem_ℤ (negsuc n) k = if (n + 1) % k == 0 then pos 0 else negsuc ((n + 1) % k - 1)

-- %02d, where the sign counts as a digit.
unfoldable pub pad_ℤ : ℤ → Text
pad_ℤ (pos n) = pad 2 n
pad_ℤ (negsuc n) = b'-' ∷ decimal (n + 1)

abbrev pub hour_12 : ℤ → ℤ
hour_12 h = let r = rem_ℤ h 12 in if eqb_ℤ r (pos 0) then pos 12 else r

unfoldable pub format_clock_12 : ℤ → Text
unfolding rem_ℤ print_ℤ pad_ℤ
format_clock_12 secs =
    let h = rem_ℤ (quot_ℤ secs 3600) 24 in
    print_ℤ (hour_12 h)
    ++ codes ":"
    ++ pad_ℤ (quot_ℤ (rem_ℤ secs 3600) 60)
    ++ codes " "
    ++ (if ltb_ℤ h (pos 12) then codes "AM" else codes "PM")

unfoldable pub time_of_day_bucket : ℤ → Text
time_of_day_bucket secs =
    if ltb_ℤ secs (pos (12 * 3600))
    then codes "morning"
    else if ltb_ℤ secs (pos (17 * 3600))
    then codes "afternoon"
    else if ltb_ℤ secs (pos (21 * 3600))
    then codes "evening"
    else codes "night"

unfoldable pub day_phrase : Text → Text
day_phrase c =
    if text_eq c (codes "weekday")
    then codes "weekday"
    else if text_eq c (codes "saturday")
    then codes "Saturday"
    else if text_eq c (codes "sunday")
    then codes "Sunday"
    else c

abbrev pub name_or : Text → Option Text → Text
name_or fallback none = fallback
name_or fallback (some name) = if is_empty name then fallback else name

unfoldable pub route_display_name : Text → GoMap Text Text → Text
route_display_name id names = name_or (codes "Route " ++ id) (get id names)

-- The order of the departures: the worst first, among these the best observed, then by time.
unfoldable pub worse : DepartureStat → DepartureStat → Bool
worse a b =
    if not (a.late5_pct == b.late5_pct)
    then ltb b.late5_pct a.late5_pct
    else if not (eqb_ℤ a.n b.n)
    then ltb_ℤ b.n a.n
    else ltb_ℤ a.scheduled_secs b.scheduled_secs

unfoldable pub eligible : DepartureStat → Bool
eligible d = not (ltb_ℤ d.n (pos min_observations))

unfoldable pub shown_departures : List DepartureStat → List DepartureStat
unfolding worse eligible
shown_departures departures = take 5 (sort_by worse (keep eligible departures))

unfoldable pub departure_sentence : GoMap Text Text → DepartureStat → Text
unfolding format_clock_12 route_display_name pct day_phrase time_of_day_bucket
departure_sentence names d =
    codes "The "
    ++ format_clock_12 d.scheduled_secs
    ++ codes " "
    ++ route_display_name d.route_id names
    ++ codes " departure is 5+ minutes late on "
    ++ decimal (pct d.late5_pct)
    ++ codes "% of "
    ++ day_phrase d.day_class
    ++ codes " "
    ++ time_of_day_bucket d.scheduled_secs
    ++ codes "s."

-- The sums over the hourly rows: observations, and late shares weighted by them.
unfoldable pub tally : List HourlyStat → ℕ → Float64 → ℕ × Float64
unfolding float64_of_int float64_of_32 mul64 add64
tally [] n weighted = (n, weighted)
tally (h ∷ hs) n weighted =
    if ltb_ℤ h.n (pos min_observations)
    then tally hs n weighted
    else tally hs (n + pos_part h.n)
        (add64 weighted (mul64 (float64_of_int (pos_part h.n)) (float64_of_32 h.late5_pct)))

unfoldable pub overall_sentence : ℕ × Float64 → List Text
unfolding pct div64 float32_of_64 float64_of_int
overall_sentence (n, weighted) =
    if ltb 0 n
    then (codes "Overall, "
        ++ decimal (pct (float32_of_64 (div64 weighted (float64_of_int n))))
        ++ codes "% of tracked arrivals here run 5+ minutes late.")
      ∷ []
    else []

unfoldable pub reliability_sentences :
    List HourlyStat → List DepartureStat → GoMap Text Text → List Text
unfolding shown_departures departure_sentence tally overall_sentence
reliability_sentences hourly departures names =
    map (departure_sentence names) (shown_departures departures)
    ++ overall_sentence (tally hourly 0 0)
