-- ===== src/Prelude/Int.antt =====
-- C++ `int` values. `negsuc n` is -(n + 1). No operation of the code that is modelled on ℤ comes
-- near the ends of a 32-bit `int`, so ℤ is unbounded.
use Prim.Native.Nat.{ℕ, suc, ◌+◌, ◌-◌, ◌/◌, ◌%◌, ◌^◌, ◌≤◌, ◌<◌}
use mathlib.Core.Path.{◌≡◌}
use mathlib.Core.Bool.{Bool}
use native.Mathlib.Omega.{arith}
use grandorgue.Prelude.Tests.{ltb, leb, ◌==◌, if◌then◌else◌}

pub data ℤ : Type 0 where
  pos : ℕ → ℤ
  negsuc : ℕ → ℤ

abbrev pub pos_part : ℤ → ℕ
pos_part (pos n) = n
pos_part (negsuc n) = 0

abbrev pub neg_part : ℤ → ℕ
neg_part (pos n) = 0
neg_part (negsuc n) = suc n

-- a - b, as an integer.
abbrev pub sub_ℕ : ℕ → ℕ → ℤ
sub_ℕ a b = if leb b a then pos (a - b) else negsuc (b - a - 1)

infixl 65 ◌+ℤ◌ ◌-ℤ◌
infix 50 ◌≤ℤ◌ ◌<ℤ◌
abbrev pub ◌+ℤ◌ : ℤ → ℤ → ℤ
a +ℤ b = sub_ℕ (pos_part a + pos_part b) (neg_part a + neg_part b)

abbrev pub ◌-ℤ◌ : ℤ → ℤ → ℤ
a -ℤ b = sub_ℕ (pos_part a + neg_part b) (neg_part a + pos_part b)

abbrev pub ◌≤ℤ◌ : ℤ → ℤ → Type 0
a ≤ℤ b = pos_part a + neg_part b ≤ pos_part b + neg_part a

abbrev pub ◌<ℤ◌ : ℤ → ℤ → Type 0
a <ℤ b = pos_part a + neg_part b < pos_part b + neg_part a

abbrev pub ltb_ℤ : ℤ → ℤ → Bool
ltb_ℤ a b = ltb (pos_part a + neg_part b) (pos_part b + neg_part a)

abbrev pub leb_ℤ : ℤ → ℤ → Bool
leb_ℤ a b = leb (pos_part a + neg_part b) (pos_part b + neg_part a)

abbrev pub eq_ℤ : ℤ → ℤ → Bool
eq_ℤ a b = pos_part a + neg_part b == pos_part b + neg_part a

-- The k low bits of the two's complement of an integer: x & (2^k - 1).
abbrev pub int_bits : ℤ → ℕ → ℕ
int_bits (pos n) k = n % 2 ^ k
int_bits (negsuc n) k = 2 ^ k - 1 - n % 2 ^ k

-- The arithmetic shift x >> k.
abbrev pub int_shr : ℤ → ℕ → ℤ
int_shr (pos n) k = pos (n / 2 ^ k)
int_shr (negsuc n) k = negsuc (n / 2 ^ k)

-- The conversions between `int` and a 32-bit `unsigned`.
abbrev pub to_u32 : ℤ → ℕ
to_u32 z = int_bits z 32

abbrev pub of_u32 : ℕ → ℤ
of_u32 n = if ltb n (2 ^ 31) then pos n else negsuc (2 ^ 32 - 1 - n)

pub eq_of_parts : (a b : ℤ) → pos_part a + neg_part b ≡ pos_part b + neg_part a → a ≡ b
eq_of_parts a b h = ground arith

pub eq_ℤ→eq : (a b : ℤ) → eq_ℤ a b ≡ Bool.true → a ≡ b
eq_ℤ→eq a b h = ground arith
