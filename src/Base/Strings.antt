-- ===== src/Base/Strings.antt =====
-- Go strings as the lists of their code points, with `==`, `<` and the decimal forms that fmt
-- prints.
use Prim.Native.Nat.{ℕ, zero, suc, ◌+◌, ◌*◌, ◌-◌, ◌/◌, ◌%◌, ◌<◌}
use Prim.Native.Char.{code}
use Prim.Native.String.{String}
use mathlib.Core.Path.{◌≡◌, refl}
use mathlib.Core.Logic.{◌↔◌}
use mathlib.Core.Bool.{Bool, true, false, ◌&&◌}
use mathlib.Core.List.{List, [], ◌∷◌}
use native.Mathlib.Omega.{arith}
use ridewatch.Base.Tests.{ltb, leb, ◌==◌, if◌then◌else◌, if-split, if-elim}
use ridewatch.Base.Lists.{All}
use ridewatch.Base.Int.{ℤ, pos, negsuc}

abbrev pub Text : Type 0
Text = List ℕ

abbrev pub codes : String → Text
codes String.[] = []
codes (String.◌∷◌ c s) = code c ∷ codes s

unfoldable pub text_eq : Text → Text → Bool
text_eq [] [] = true
text_eq (a ∷ s) (b ∷ t) = a == b && text_eq s t
text_eq _ _ = false

abbrev pub is_empty : Text → Bool
is_empty [] = true
is_empty (_ ∷ _) = false

-- The order of strings, by code points as by the bytes of their UTF-8 forms.
unfoldable pub text_ltb : Text → Text → Bool
text_ltb s [] = false
text_ltb [] (b ∷ t) = true
text_ltb (a ∷ s) (b ∷ t) = if a == b then text_ltb s t else ltb a b

pub text_eq_iff : (s t : Text) → (text_eq s t ≡ true) ↔ (s ≡ t)
unfolding text_eq
text_eq_iff [] [] = ground arith
text_eq_iff (a ∷ s) (b ∷ t) = ground (arith, text_eq_iff s t)
text_eq_iff [] (b ∷ t) = ground arith
text_eq_iff (a ∷ s) [] = ground arith

pub text_eq_refl : (s : Text) → text_eq s s ≡ true
text_eq_refl s = (text_eq_iff s s).1 refl

-- The digits of n before `acc`, on fuel; `n` is fuel enough.
digits_from : ℕ → ℕ → Text → Text
digits_from zero n acc = acc
digits_from (suc fuel) n acc =
    let rest = digits_from fuel (n / 10) ((48 + n % 10) ∷ acc) in
    if ltb n 10 then (48 + n) ∷ acc else rest

-- %d of a number that is not negative.
unfoldable pub decimal : ℕ → Text
unfolding digits_from
decimal n = digits_from (suc n) n []

-- A text with zeros before it, up to a width.
zero_fill : ℕ → Text → Text
zero_fill zero s = s
zero_fill (suc w) s = 48 ∷ zero_fill w s

text_length : Text → ℕ
text_length [] = 0
text_length (c ∷ s) = suc (text_length s)

-- %0wd of a number that is not negative.
unfoldable pub pad : ℕ → ℕ → Text
unfolding decimal zero_fill text_length
pad w n = zero_fill (w - text_length (decimal n)) (decimal n)

-- %d.
unfoldable pub print_ℤ : ℤ → Text
unfolding decimal
print_ℤ (pos n) = decimal n
print_ℤ (negsuc n) = b'-' ∷ decimal (n + 1)

abbrev pub is_digit : ℕ → Bool
is_digit c = leb 48 c && leb c 57

-- The number that the digits of a text continue.
unfoldable pub value : ℕ → Text → ℕ
value n [] = n
value n (c ∷ s) = value (n * 10 + (c - 48)) s

abbrev pub IsDigits : Text → Type 0
IsDigits = All (λ c. is_digit c ≡ true)

digits_from-IsDigits : (fuel n : ℕ) (acc : Text) → IsDigits acc → IsDigits (digits_from fuel n acc)
unfolding digits_from
digits_from-IsDigits zero n acc h = h
digits_from-IsDigits (suc fuel) n acc h =
    if-split IsDigits (ltb n 10) _ _ (λ l. (ground (arith, l), h))
      (λ l. digits_from-IsDigits fuel (n / 10) ((48 + n % 10) ∷ acc) (ground arith, h))

value-digits_from :
    (fuel n : ℕ) (acc : Text) → n < fuel → value 0 (digits_from fuel n acc) ≡ value n acc
unfolding digits_from value
value-digits_from zero n acc h = ground arith
value-digits_from (suc fuel) n acc h =
    ground (arith, value-digits_from fuel (n / 10) ((48 + n % 10) ∷ acc))

-- The decimal form of a number has digits only, at least one, and gives the number back.
pub decimal-IsDigits : (n : ℕ) → IsDigits (decimal n)
unfolding decimal
decimal-IsDigits n = digits_from-IsDigits (suc n) n [] tt

pub value-decimal : (n : ℕ) → value 0 (decimal n) ≡ n
unfolding decimal value
value-decimal n = value-digits_from (suc n) n [] (omega arith)

grows : (fuel n : ℕ) (acc : Text) → is_empty acc ≡ false → is_empty (digits_from fuel n acc) ≡ false
unfolding digits_from
grows zero n acc h = h
grows (suc fuel) n acc h =
    if-elim (λ s. is_empty s ≡ false) (ltb n 10) _ _ refl
      (grows fuel (n / 10) ((48 + n % 10) ∷ acc) refl)

pub is_empty-decimal : (n : ℕ) → is_empty (decimal n) ≡ false
unfolding decimal digits_from
is_empty-decimal n =
    if-elim (λ s. is_empty s ≡ false) (ltb n 10) _ _ refl
      (grows n (n / 10) ((48 + n % 10) ∷ []) refl)

pub text_ltb-asym : (s t : Text) → text_ltb s t ≡ true → text_ltb t s ≡ false
unfolding text_ltb
text_ltb-asym s [] h = cc
text_ltb-asym [] (b ∷ t) h = refl
text_ltb-asym (a ∷ s) (b ∷ t) h = ground (arith, text_ltb-asym s t)

pub text_ltb-negtrans :
    (s t u : Text) → text_ltb t s ≡ false → text_ltb u t ≡ false → text_ltb u s ≡ false
unfolding text_ltb
text_ltb-negtrans [] t u h k = refl
text_ltb-negtrans (a ∷ s) [] u h k = cc
text_ltb-negtrans (a ∷ s) (b ∷ t) [] h k = cc
text_ltb-negtrans (a ∷ s) (b ∷ t) (c ∷ u) h k = ground (arith, text_ltb-negtrans s t u)
