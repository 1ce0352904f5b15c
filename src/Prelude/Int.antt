-- ===== src/Prelude/Int.antt =====
-- Signed integers over the native numbers, and the 64-bit signed arithmetic of Go's int64 and
-- time.Duration: wrap-around of a sum or a product, and the saturation of time.Time.Sub.
use jo_ei.Prelude.Tests.{ltb, leb, if◌then◌else◌}
use Prim.Native.Nat.{ℕ, suc, ◌+◌, ◌-◌, ◌*◌, ◌%◌, ◌^◌, ◌≤◌}
use mathlib.Core.Path.{◌≡◌}
use mathlib.Core.Bool.{Bool}
use native.Mathlib.Omega.{arith}

-- `negsuc n` is -(n + 1).
pub data ℤ : Type 0 where
  pos : ℕ → ℤ
  negsuc : ℕ → ℤ

abbrev pub pos_part : ℤ → ℕ
pos_part (pos n) = n
pos_part (negsuc n) = 0

abbrev pub neg_part : ℤ → ℕ
neg_part (pos n) = 0
neg_part (negsuc n) = suc n

-- a - b, as an integer.
abbrev pub sub_ℕ : ℕ → ℕ → ℤ
sub_ℕ a b = if leb b a then pos (a - b) else negsuc (b - a - 1)

abbrev pub ltb_ℤ : ℤ → ℤ → Bool
ltb_ℤ a b = ltb (pos_part a + neg_part b) (pos_part b + neg_part a)

infix 50 ◌≤ℤ◌
abbrev pub ◌≤ℤ◌ : ℤ → ℤ → Type 0
a ≤ℤ b = pos_part a + neg_part b ≤ pos_part b + neg_part a

-- The value of a 64-bit pattern.
abbrev pub of_bits : ℕ → ℤ
of_bits m = if ltb m (2 ^ 63) then pos m else negsuc (2 ^ 64 - 1 - m)

-- The pattern of an integer, modulo 2^64.
abbrev pub to_bits : ℤ → ℕ
to_bits (pos n) = n % 2 ^ 64
to_bits (negsuc n) = 2 ^ 64 - 1 - n % 2 ^ 64

-- The int64 product of a value and a nonnegative constant.
unfoldable pub mul_int64 : ℤ → ℕ → ℤ
mul_int64 a k = of_bits ((to_bits a * k) % 2 ^ 64)

-- The int64 sum.
unfoldable pub add_int64 : ℤ → ℤ → ℤ
add_int64 a b = of_bits ((to_bits a + to_bits b) % 2 ^ 64)

-- t.Sub(u) for two instants: the difference, held within the range of int64.
unfoldable pub sub_sat : ℕ → ℕ → ℤ
sub_sat t u =
    if leb u t
    then (if leb (2 ^ 63) (t - u) then pos (2 ^ 63 - 1) else pos (t - u))
    else if leb (2 ^ 63) (u - t)
    then negsuc (2 ^ 63 - 1)
    else negsuc (u - t - 1)

-- t.Add(d) for an instant that is not moved before the origin.
abbrev pub add_duration : ℕ → ℤ → ℕ
add_duration t d = t + pos_part d - neg_part d

-- The order of a saturated difference and a duration in range is that of the instants.
pub sub_sat-lt : (t u d : ℕ) → d ≤ 2 ^ 63 - 1 → ltb_ℤ (sub_sat t u) (pos d) ≡ ltb t (u + d)
unfolding sub_sat
sub_sat-lt t u d h = ground arith
