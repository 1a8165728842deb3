-- ===== src/Base/Int.antt =====
-- Go's int and int64 as integers over the native numbers. Sums are unbounded; `wrap64` and
-- `saturate64` are the two ways in which Go brings a result back to 64 bits.
use Prim.Native.Nat.{ℕ, suc, ◌+◌, ◌-◌, ◌*◌, ◌/◌, ◌%◌, ◌≤◌, ◌<◌}
use mathlib.Core.Path.{◌≡◌}
use mathlib.Core.Logic.{◌↔◌}
use mathlib.Core.Bool.{Bool, true}
use native.Mathlib.Omega.{arith}
use ridewatch.Base.Tests.{ltb, leb, ◌==◌, if◌then◌else◌}

-- `negsuc n` is -(n + 1).
pub data ℤ : Type 0 where
  pos : ℕ → ℤ
  negsuc : ℕ → ℤ

abbrev pub pos_part : ℤ → ℕ
pos_part (pos n) = n
pos_part (negsuc n) = 0

abbrev pub neg_part : ℤ → ℕ
neg_part (pos n) = 0
neg_part (negsuc n) = suc n

-- a - b, as an integer.
abbrev pub int_of : ℕ → ℕ → ℤ
int_of a b = if leb b a then pos (a - b) else negsuc (b - a - 1)

abbrev pub neg_ℤ : ℕ → ℤ
neg_ℤ n = int_of 0 n

infixl 65 ◌+ℤ◌ ◌-ℤ◌
infixl 70 ◌*ℤ◌
infix 50 ◌≤ℤ◌
unfoldable pub ◌+ℤ◌ : ℤ → ℤ → ℤ
a +ℤ b = int_of (pos_part a + pos_part b) (neg_part a + neg_part b)

unfoldable pub ◌-ℤ◌ : ℤ → ℤ → ℤ
a -ℤ b = int_of (pos_part a + neg_part b) (neg_part a + pos_part b)

unfoldable pub ◌*ℤ◌ : ℤ → ℤ → ℤ
a *ℤ b =
    int_of (pos_part a * pos_part b + neg_part a * neg_part b)
      (pos_part a * neg_part b + neg_part a * pos_part b)

abbrev pub ◌≤ℤ◌ : ℤ → ℤ → Type 0
a ≤ℤ b = pos_part a + neg_part b ≤ pos_part b + neg_part a

abbrev pub ltb_ℤ : ℤ → ℤ → Bool
ltb_ℤ a b = ltb (pos_part a + neg_part b) (pos_part b + neg_part a)

abbrev pub eqb_ℤ : ℤ → ℤ → Bool
eqb_ℤ a b = pos_part a + neg_part b == pos_part b + neg_part a

abbrev pub abs_ℤ : ℤ → ℕ
abs_ℤ a = pos_part a + neg_part a

-- Go's `/` on integers with a positive divisor rounds towards zero.
unfoldable pub quot_ℤ : ℤ → ℕ → ℤ
quot_ℤ (pos n) k = pos (n / k)
quot_ℤ (negsuc n) k = neg_ℤ (suc n / k)

-- Division rounding down, and its remainder.
unfoldable pub floor_ℤ : ℤ → ℕ → ℤ
floor_ℤ (pos n) k = pos (n / k)
floor_ℤ (negsuc n) k = negsuc (n / k)

unfoldable pub mod_ℤ : ℤ → ℕ → ℕ
mod_ℤ (pos n) k = n % k
mod_ℤ (negsuc n) k = k - 1 - n % k

-- The int64 with a given bit pattern.
abbrev pub to_int64 : ℕ → ℤ
to_int64 w = if ltb w 0x8000000000000000 then pos w else negsuc (0xffffffffffffffff - w)

-- An int64 result wraps around.
unfoldable pub wrap64 : ℤ → ℤ
unfolding mod_ℤ
wrap64 a = to_int64 (mod_ℤ a 0x10000000000000000)

-- time.Time.Sub returns the extreme Duration where the difference does not fit.
unfoldable pub saturate64 : ℤ → ℤ
saturate64 (pos n) = if ltb n 0x8000000000000000 then pos n else pos 0x7fffffffffffffff
saturate64 (negsuc n) = if ltb n 0x8000000000000000 then negsuc n else negsuc 0x7fffffffffffffff

pub ltb_ℤ→lt : (a b : ℤ) → ltb_ℤ a b ≡ true → pos_part a + neg_part b < pos_part b + neg_part a
ltb_ℤ→lt a b h = ground arith

pub eqb_ℤ_iff : (a b : ℤ) → (eqb_ℤ a b ≡ true) ↔ (a ≡ b)
eqb_ℤ_iff a b = ground arith

pub +ℤ_parts :
    (a b : ℤ)
    → pos_part (a +ℤ b) + neg_part a + neg_part b ≡ neg_part (a +ℤ b) + pos_part a + pos_part b
unfolding ◌+ℤ◌
+ℤ_parts a b = ground arith

pub -ℤ_parts :
    (a b : ℤ)
    → pos_part (a -ℤ b) + neg_part a + pos_part b ≡ neg_part (a -ℤ b) + pos_part a + neg_part b
unfolding ◌-ℤ◌
-ℤ_parts a b = ground arith

pub eq_of_parts : (a b : ℤ) → pos_part a + neg_part b ≡ pos_part b + neg_part a → a ≡ b
eq_of_parts a b h = ground arith

pub ruleset int_laws = (arith, +ℤ_parts, -ℤ_parts, eq_of_parts)
