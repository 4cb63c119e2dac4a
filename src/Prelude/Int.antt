-- ===== src/Prelude/Int.antt =====
-- Signed integers over the native numbers, with Go's truncated division and the wrap-around of
-- int32 and int64.
use Prim.Native.Nat.{ℕ, suc, ◌+◌, ◌-◌, ◌*◌, ◌/◌, ◌%◌, ◌≤◌, ◌<◌}
use mathlib.Core.Path.{◌≡◌}
use mathlib.Core.Bool.{Bool}
use native.Mathlib.Omega.{arith}
use clusternet.Prelude.Tests.{ltb, leb, if◌then◌else◌}

-- `negsuc n` is -(n + 1).
pub data ℤ : Type 0 where
  pos : ℕ → ℤ
  negsuc : ℕ → ℤ

abbrev pub pos_part : ℤ → ℕ
pos_part (pos n) = n
pos_part (negsuc n) = 0

abbrev pub neg_part : ℤ → ℕ
neg_part (pos n) = 0
neg_part (negsuc n) = suc n

-- a - b, as an integer.
abbrev pub sub_ℕ : ℕ → ℕ → ℤ
sub_ℕ a b = if leb b a then pos (a - b) else negsuc (b - a - 1)

infixl 65 ◌+ℤ◌ ◌-ℤ◌
infixl 70 ◌*ℤ◌
infix 50 ◌≤ℤ◌
unfoldable pub ◌+ℤ◌ : ℤ → ℤ → ℤ
a +ℤ b = sub_ℕ (pos_part a + pos_part b) (neg_part a + neg_part b)

unfoldable pub ◌-ℤ◌ : ℤ → ℤ → ℤ
a -ℤ b = sub_ℕ (pos_part a + neg_part b) (neg_part a + pos_part b)

unfoldable pub ◌*ℤ◌ : ℤ → ℤ → ℤ
a *ℤ b =
    sub_ℕ (pos_part a * pos_part b + neg_part a * neg_part b)
      (pos_part a * neg_part b + neg_part a * pos_part b)

-- Go's `a / b`, which rounds towards zero. (A division by zero panics; here it gives 0.)
unfoldable pub quot : ℤ → ℤ → ℤ
quot (pos a) (pos b) = pos (a / b)
quot (pos a) (negsuc b) = sub_ℕ 0 (a / suc b)
quot (negsuc a) (pos b) = sub_ℕ 0 (suc a / b)
quot (negsuc a) (negsuc b) = pos (suc a / suc b)

abbrev pub ◌≤ℤ◌ : ℤ → ℤ → Type 0
a ≤ℤ b = pos_part a + neg_part b ≤ pos_part b + neg_part a

-- `a < b` and `a <= b` as tests.
abbrev pub ltb_ℤ : ℤ → ℤ → Bool
ltb_ℤ a b = ltb (pos_part a + neg_part b) (pos_part b + neg_part a)

abbrev pub leb_ℤ : ℤ → ℤ → Bool
leb_ℤ a b = leb (pos_part a + neg_part b) (pos_part b + neg_part a)

-- The bit pattern of an integer in a word of `2 * half` values, and the signed value of a pattern.
bits : ℕ → ℤ → ℕ
bits half (pos n) = n % (2 * half)
bits half (negsuc n) = 2 * half - 1 - n % (2 * half)

signed : ℕ → ℕ → ℤ
signed half m = if ltb m half then pos m else negsuc (2 * half - 1 - m)

-- What an int32 and an int64 keep of an integer.
unfoldable pub int32 : ℤ → ℤ
unfolding bits signed
int32 z = signed 2147483648 (bits 2147483648 z)

unfoldable pub int64 : ℤ → ℤ
unfolding bits signed
int64 z = signed 9223372036854775808 (bits 9223372036854775808 z)

-- A natural number in range is kept.
pub int32-pos : (n : ℕ) → n < 2147483648 → int32 (pos n) ≡ pos n
unfolding int32
int32-pos n h = ground arith

pub int64-pos : (n : ℕ) → n < 9223372036854775808 → int64 (pos n) ≡ pos n
unfolding int64
int64-pos n h = ground arith

pub int64-negsuc : (n : ℕ) → n < 9223372036854775808 → int64 (negsuc n) ≡ negsuc n
unfolding int64
int64-negsuc n h = ground arith

pub int32-negsuc : (n : ℕ) → n < 2147483648 → int32 (negsuc n) ≡ negsuc n
unfolding int32
int32-negsuc n h = ground arith

pub pos-mul : (a b : ℕ) → pos a *ℤ pos b ≡ pos (a * b)
unfolding ◌*ℤ◌
pos-mul a b = ground arith

pub pos-sub : (a b : ℕ) → b ≤ a → pos a -ℤ pos b ≡ pos (a - b)
unfolding ◌-ℤ◌
pos-sub a b h = ground arith

pub pos-eq : (a : ℤ) → pos 0 ≤ℤ a → a ≡ pos (pos_part a)
pos-eq a h = ground arith
