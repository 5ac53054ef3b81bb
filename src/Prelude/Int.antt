-- ===== src/Prelude/Int.antt =====
-- Signed integers over the native numbers, and 64-bit addition on them.
use Prim.Native.Nat.{ℕ, suc, ◌+◌, ◌-◌, ◌%◌, ◌^◌}
use mathlib.Core.Path.{◌≡◌, refl}
use mathlib.Core.Bool.{Bool}
use beacon_backend.Prelude.Tests.{ltb, if◌then◌else◌}

-- `negsuc n` is -(n + 1).
pub data ℤ : Type 0 where
  pos : ℕ → ℤ
  negsuc : ℕ → ℤ

abbrev pub pos_part : ℤ → ℕ
pos_part (pos n) = n
pos_part (negsuc n) = 0

abbrev pub neg_part : ℤ → ℕ
neg_part (pos n) = 0
neg_part (negsuc n) = suc n

abbrev pub ltb_ℤ : ℤ → ℤ → Bool
ltb_ℤ a b = ltb (pos_part a + neg_part b) (pos_part b + neg_part a)

-- The bit pattern of an int64, and the int64 that a bit pattern stands for.
bits64 : ℤ → ℕ
bits64 (pos n) = n % 2 ^ 64
bits64 (negsuc n) = 2 ^ 64 - 1 - n % 2 ^ 64

unfoldable pub of_bits64 : ℕ → ℤ
of_bits64 b = if ltb b (2 ^ 63) then pos b else negsuc (2 ^ 64 - 1 - b)

-- Go's `+` on int64 wraps around.
unfoldable pub add64 : ℤ → ℤ → ℤ
unfolding bits64 of_bits64
add64 a b = of_bits64 ((bits64 a + bits64 b) % 2 ^ 64)

add64_tests :
    (add64 (pos 5) (negsuc 1) ≡ pos 3) × (add64 (pos (2 ^ 63 - 1)) (pos 1) ≡ negsuc (2 ^ 63 - 1))
unfolding add64
add64_tests = (refl, refl)
