-- ===== src/Prelude/Int.antt =====
-- Signed integers over the native numbers, under the library's names (its ℤ stands on the unary ℕ).
-- Sums and orders go through the two parts of an integer, which are numbers that `omega` reads.
use jcd543_mct_t6_linux_driv.Prelude.{
  ℕ, zero, suc, ◌/◌, ◌%◌, ◌^◌, ◌==◌, ◌+◌, ◌-◌, ◌*◌, ◌≤◌, ◌≡◌, refl, ◌⊎◌, Bool, arith, ltb, leb,
  if◌then◌else◌,
}

-- `negsuc n` is -(n + 1).
pub data ℤ : Type 0 where
  pos : ℕ → ℤ
  negsuc : ℕ → ℤ

abbrev pub pos_part : ℤ → ℕ
pos_part (pos n) = n
pos_part (negsuc n) = 0

abbrev pub neg_part : ℤ → ℕ
neg_part (pos n) = 0
neg_part (negsuc n) = suc n

-- a - b, as an integer.
abbrev pub sub_ℕ : ℕ → ℕ → ℤ
sub_ℕ a b = if leb b a then pos (a - b) else negsuc (b - a - 1)

-- The value that a C `int` of 32 bits gets from an unsigned one: its low 32 bits, as a two's complement number.
abbrev pub to_int : ℕ → ℤ
to_int n = sub_ℕ (n % 2 ^ 32) (if leb (2 ^ 31) (n % 2 ^ 32) then 2 ^ 32 else 0)

infixl 65 ◌+ℤ◌ ◌-ℤ◌
infixl 70 ◌*ℤ◌
infix 50 ◌≤ℤ◌
unfoldable pub ◌+ℤ◌ : ℤ → ℤ → ℤ
a +ℤ b = sub_ℕ (pos_part a + pos_part b) (neg_part a + neg_part b)

unfoldable pub ◌-ℤ◌ : ℤ → ℤ → ℤ
a -ℤ b = sub_ℕ (pos_part a + neg_part b) (neg_part a + pos_part b)

unfoldable pub ◌*ℤ◌ : ℤ → ℤ → ℤ
a *ℤ b =
    sub_ℕ (pos_part a * pos_part b + neg_part a * neg_part b)
      (pos_part a * neg_part b + neg_part a * pos_part b)

abbrev pub ◌≤ℤ◌ : ℤ → ℤ → Type 0
a ≤ℤ b = pos_part a + neg_part b ≤ pos_part b + neg_part a

abbrev pub ltb_ℤ : ℤ → ℤ → Bool
ltb_ℤ a b = ltb (pos_part a + neg_part b) (pos_part b + neg_part a)

-- With the operations unfolded `ground` splits on the signs.
pub +ℤ_comm : (a b : ℤ) → a +ℤ b ≡ b +ℤ a
unfolding ◌+ℤ◌
+ℤ_comm a b = ground arith

pub +ℤ_assoc : (a b c : ℤ) → a +ℤ b +ℤ c ≡ a +ℤ (b +ℤ c)
unfolding ◌+ℤ◌
+ℤ_assoc a b c = ground arith

pub +ℤ_cancel : (a b : ℤ) → a +ℤ b -ℤ b ≡ a
unfolding ◌+ℤ◌ ◌-ℤ◌
+ℤ_cancel a b = ground arith

pub ≤ℤ_total : (a b : ℤ) → (a ≤ℤ b) ⊎ (b ≤ℤ a)
≤ℤ_total a b = omega arith

-- One lemma for each operation lets `omega` work with the operations shut, at any depth.
pub +ℤ_parts :
    (a b : ℤ)
    → pos_part (a +ℤ b) + neg_part a + neg_part b ≡ neg_part (a +ℤ b) + pos_part a + pos_part b
unfolding ◌+ℤ◌
+ℤ_parts a b = ground arith

pub -ℤ_parts :
    (a b : ℤ)
    → pos_part (a -ℤ b) + neg_part a + pos_part b ≡ neg_part (a -ℤ b) + pos_part a + neg_part b
unfolding ◌-ℤ◌
-ℤ_parts a b = ground arith

pub eq_of_parts : (a b : ℤ) → pos_part a + neg_part b ≡ pos_part b + neg_part a → a ≡ b
eq_of_parts a b h = ground arith

pub ruleset int_laws = (arith, +ℤ_parts, -ℤ_parts, eq_of_parts)

unfoldable pub abs : ℤ → ℤ
abs a = if ltb_ℤ a (pos 0) then pos 0 -ℤ a else a

pub abs_nonneg : (a : ℤ) → pos 0 ≤ℤ abs a
unfolding abs ◌-ℤ◌
abs_nonneg a = ground arith

-- The literal -n.
abbrev pub neg : ℕ → ℤ
neg zero = pos 0
neg (suc n) = negsuc n

-- The magnitude, as an unsigned number.
abbrev pub magnitude : ℤ → ℕ
magnitude (pos n) = n
magnitude (negsuc n) = suc n

infixl 60 ◌>>ℤ◌
-- `>>` of a signed value shifts in copies of the sign, which rounds down.
unfoldable pub ◌>>ℤ◌ : ℤ → ℕ → ℤ
pos n >>ℤ k = pos (n / 2 ^ k)
negsuc n >>ℤ k = negsuc (n / 2 ^ k)

-- `clamp(x, lo, hi)`
unfoldable pub clamp_ℤ : ℤ → ℤ → ℤ → ℤ
clamp_ℤ lo hi x = if ltb_ℤ x lo then lo else if ltb_ℤ hi x then hi else x

-- A cast to an unsigned type of `m` values.
unfoldable pub to_unsigned : ℕ → ℤ → ℕ
to_unsigned m (pos n) = n % m
to_unsigned m (negsuc n) = m - 1 - n % m

abbrev pub is_zero : ℤ → Bool
is_zero a = magnitude a == 0

abbrev pub is_negative : ℤ → Bool
is_negative a = ltb_ℤ a (pos 0)

pub mul_parts :
    (k n : ℕ)
    → (pos_part (pos k *ℤ pos n) ≡ k * n)
      × (neg_part (pos k *ℤ pos n) ≡ 0)
      × (neg_part (negsuc k *ℤ pos n) ≡ suc k * n)
      × (pos_part (negsuc k *ℤ pos n) ≡ 0)
unfolding ◌*ℤ◌
mul_parts k n = ground arith

-- Shifting a difference right by 8 and adding 128 is a division of naturals, if nothing goes below -128.
pub shift_offset :
    (x : ℤ) (a b : ℕ)
    → pos_part x + b ≡ neg_part x + a
    → b ≤ a + 32768
    → to_unsigned 256 ((x >>ℤ 8) +ℤ pos 128) ≡ (a + 32768 - b) / 256 % 256
unfolding to_unsigned ◌>>ℤ◌ ◌+ℤ◌
shift_offset (pos n) a b h k = ground arith
shift_offset (negsuc n) a b h k = ground arith
