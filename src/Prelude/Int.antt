-- ===== src/Prelude/Int.antt =====
-- Signed integers of the source over the native numbers; `negsuc n` is -(n + 1).
use Prim.Native.Nat.{ℕ, suc, ◌+◌, ◌-◌, ◌*◌, ◌/◌, ◌≤◌}
use mathlib.Core.Path.{◌≡◌}
use native.Mathlib.Omega.{arith}
use cheirizo.Prelude.Tests.{if◌then◌else◌, leb, ltb}

pub data ℤ : Type 0 where
  pos : ℕ → ℤ
  negsuc : ℕ → ℤ

abbrev pub pos_part : ℤ → ℕ
pos_part (pos n) = n
pos_part (negsuc n) = 0

abbrev pub neg_part : ℤ → ℕ
neg_part (pos n) = 0
neg_part (negsuc n) = suc n

-- a - b, as an integer.
abbrev pub sub_ℕ : ℕ → ℕ → ℤ
sub_ℕ a b = if leb b a then pos (a - b) else negsuc (b - a - 1)

infixl 65 ◌+ℤ◌
infixl 70 ◌*ℤ◌
unfoldable pub ◌+ℤ◌ : ℤ → ℤ → ℤ
a +ℤ b = sub_ℕ (pos_part a + pos_part b) (neg_part a + neg_part b)

unfoldable pub ◌*ℤ◌ : ℤ → ℤ → ℤ
a *ℤ b =
    sub_ℕ (pos_part a * pos_part b + neg_part a * neg_part b)
      (pos_part a * neg_part b + neg_part a * pos_part b)

-- `>> 16` of an `i32`, which rounds down.
unfoldable pub shr16 : ℤ → ℤ
shr16 (pos n) = pos (n / 65536)
shr16 (negsuc n) = negsuc (n / 65536)

-- `clamp`, for bounds that are not negative.
abbrev pub clamp_ℕ : ℕ → ℕ → ℤ → ℕ
clamp_ℕ lo hi (negsuc n) = lo
clamp_ℕ lo hi (pos n) = if ltb n lo then lo else if ltb hi n then hi else n

-- The integer lies between -m and m.
abbrev pub Within : ℕ → ℤ → Type 0
Within m a = (pos_part a ≤ m) × (neg_part a ≤ m)

-- One lemma for each operation, by which they are used shut.
pub +ℤ_parts :
    (a b : ℤ)
    → pos_part (a +ℤ b) + neg_part a + neg_part b ≡ neg_part (a +ℤ b) + pos_part a + pos_part b
unfolding ◌+ℤ◌
+ℤ_parts a b = ground arith

pub *ℤ_pos : (a b : ℕ) → pos a *ℤ pos b ≡ pos (a * b)
unfolding ◌*ℤ◌
*ℤ_pos a b = grind arith

pub *ℤ_neg : (a b : ℕ) → negsuc a *ℤ pos b ≡ sub_ℕ 0 (suc a * b)
unfolding ◌*ℤ◌
*ℤ_neg a b = grind arith

-- An integer is the difference of its parts.
pub eq-sub_ℕ : (a : ℤ) (p n : ℕ) → pos_part a + n ≡ neg_part a + p → a ≡ sub_ℕ p n
eq-sub_ℕ a p n h = ground arith

pub sub_ℕ_parts : (p n : ℕ) → pos_part (sub_ℕ p n) + n ≡ neg_part (sub_ℕ p n) + p
sub_ℕ_parts p n = ground arith

-- A shifted difference with an offset that makes it positive.
pub shr16_offset :
    (p n : ℕ) → n ≤ p + 8388608 → shr16 (sub_ℕ p n) +ℤ pos 128 ≡ pos ((p + 8388608 - n) / 65536)
unfolding shr16 ◌+ℤ◌
shr16_offset p n h = ground arith

pub +ℤ_pos : (a b : ℕ) → pos a +ℤ pos b ≡ pos (a + b)
unfolding ◌+ℤ◌
+ℤ_pos a b = ground arith
