-- ===== src/Prelude/Int.antt =====
-- Signed integers over the native numbers, under the library's names (its ℤ stands on the unary ℕ),
-- with the wrap-around of Go's int (64 bits) and int32.
use dist_command_exec.Prelude.{
  ℕ, suc, ◌+◌, ◌-◌, ◌*◌, ◌%◌, ◌^◌, ◌≤◌, ◌<◌, ◌≡◌, refl, Bool, arith, ltb, leb, if◌then◌else◌,
}

-- `negsuc n` is -(n + 1).
pub data ℤ : Type 0 where
  pos : ℕ → ℤ
  negsuc : ℕ → ℤ

abbrev pub pos_part : ℤ → ℕ
pos_part (pos n) = n
pos_part (negsuc n) = 0

abbrev pub neg_part : ℤ → ℕ
neg_part (pos n) = 0
neg_part (negsuc n) = suc n

-- a - b, as an integer.
abbrev pub sub_ℕ : ℕ → ℕ → ℤ
sub_ℕ a b = if leb b a then pos (a - b) else negsuc (b - a - 1)

infixl 65 ◌+ℤ◌ ◌-ℤ◌
infix 50 ◌≤ℤ◌ ◌<ℤ◌
unfoldable pub ◌+ℤ◌ : ℤ → ℤ → ℤ
a +ℤ b = sub_ℕ (pos_part a + pos_part b) (neg_part a + neg_part b)

unfoldable pub ◌-ℤ◌ : ℤ → ℤ → ℤ
a -ℤ b = sub_ℕ (pos_part a + neg_part b) (neg_part a + pos_part b)

abbrev pub ◌≤ℤ◌ : ℤ → ℤ → Type 0
a ≤ℤ b = pos_part a + neg_part b ≤ pos_part b + neg_part a

abbrev pub ◌<ℤ◌ : ℤ → ℤ → Type 0
a <ℤ b = pos_part a + neg_part b < pos_part b + neg_part a

abbrev pub ltb_ℤ : ℤ → ℤ → Bool
ltb_ℤ a b = ltb (pos_part a + neg_part b) (pos_part b + neg_part a)

abbrev pub leb_ℤ : ℤ → ℤ → Bool
leb_ℤ a b = leb (pos_part a + neg_part b) (pos_part b + neg_part a)

pub +ℤ_parts :
    (a b : ℤ)
    → pos_part (a +ℤ b) + neg_part a + neg_part b ≡ neg_part (a +ℤ b) + pos_part a + pos_part b
unfolding ◌+ℤ◌
+ℤ_parts a b = ground arith

pub -ℤ_parts :
    (a b : ℤ)
    → pos_part (a -ℤ b) + neg_part a + pos_part b ≡ neg_part (a -ℤ b) + pos_part a + neg_part b
unfolding ◌-ℤ◌
-ℤ_parts a b = ground arith

pub eq_of_parts : (a b : ℤ) → pos_part a + neg_part b ≡ pos_part b + neg_part a → a ≡ b
eq_of_parts a b h = ground arith

-- The bit pattern n < 2 * h of a machine integer, read as a signed number; h is half the modulus.
abbrev signed : ℕ → ℕ → ℤ
signed h n = if ltb n h then pos n else negsuc (2 * h - 1 - n)

-- The bit pattern of an integer.
abbrev bits : ℕ → ℤ → ℕ
bits m (pos n) = n % m
bits m (negsuc n) = m - 1 - n % m

abbrev pub half64 : ℕ
half64 = 9223372036854775808

-- The largest int.
abbrev pub max_int : ℤ
max_int = pos (half64 - 1)

abbrev pub half32 : ℕ
half32 = 2147483648

-- Go's int (64 bits), int64 and time.Duration: arithmetic wraps.
unfoldable pub int64 : ℤ → ℤ
int64 z = signed half64 (bits (2 * half64) z)

-- Go's conversion to int32.
unfoldable pub int32 : ℤ → ℤ
int32 z = signed half32 (bits (2 * half32) z)

abbrev pub InInt64 : ℤ → Type 0
InInt64 z = (pos_part z < half64) × (neg_part z ≤ half64)

abbrev pub InInt32 : ℤ → Type 0
InInt32 z = (pos_part z < half32) × (neg_part z ≤ half32)

pub int64_in_range : (z : ℤ) → InInt64 z → int64 z ≡ z
unfolding int64
int64_in_range (pos n) h = ground arith
int64_in_range (negsuc n) h = ground arith

pub int64-InInt64 : (z : ℤ) → InInt64 (int64 z)
unfolding int64
int64-InInt64 (pos n) = ground arith
int64-InInt64 (negsuc n) = ground arith

pub int32_in_range : (z : ℤ) → InInt32 z → int32 z ≡ z
unfolding int32
int32_in_range (pos n) h = ground arith
int32_in_range (negsuc n) h = ground arith

pub ruleset int_laws = (arith, +ℤ_parts, -ℤ_parts, eq_of_parts)

wraps : int64 (pos 9223372036854775807 +ℤ pos 1) ≡ negsuc 9223372036854775807
unfolding int64 ◌+ℤ◌
wraps = refl
