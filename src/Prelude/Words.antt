-- ===== src/Prelude/Words.antt =====
-- Machine words over the native numbers: casts, and `|` of disjoint fields as a sum.
use Prim.Native.Nat.{digits, bit_or-bitwise, bit_or}
use native.Mathlib.Nat.{pow-suc, zero-add}
use jcd543_mct_t6_linux_driv.Prelude.{
  ℕ, zero, suc, ◌+◌, ◌-◌, ◌*◌, ◌/◌, ◌%◌, ◌^◌, ◌≤◌, ◌<◌, max, ◌≡◌, refl, sym, ap, ◌∙◌, arith,
}

abbrev pub u8 : ℕ → ℕ
u8 n = n % 2 ^ 8

abbrev pub u16 : ℕ → ℕ
u16 n = n % 2 ^ 16

abbrev pub u32 : ℕ → ℕ
u32 n = n % 2 ^ 32

abbrev pub u64 : ℕ → ℕ
u64 n = n % 2 ^ 64

-- `a - b` on an unsigned type, for `b` in range.
abbrev pub sub_u32 : ℕ → ℕ → ℕ
sub_u32 a b = (a + 2 ^ 32 - b) % 2 ^ 32

abbrev pub sub_u64 : ℕ → ℕ → ℕ
sub_u64 a b = (a + 2 ^ 64 - b) % 2 ^ 64

infixl 60 ◌<<<◌ ◌>>>◌
abbrev pub ◌<<<◌ : ℕ → ℕ → ℕ
x <<< k = x * 2 ^ k

abbrev pub ◌>>>◌ : ℕ → ℕ → ℕ
x >>> k = x / 2 ^ k

pub pow_add : (a b : ℕ) → 2 ^ (a + b) ≡ 2 ^ a * 2 ^ b
pow_add zero b = rw zero-add (omega arith)
pow_add (suc a) b =
    let e : suc a + b ≡ suc (a + b) = omega arith in
    rw (e, pow-suc, pow-suc, pow_add a b) (grind arith)

-- The digit recursion behind the native `|` does not depend on its fuel, once that suffices.
or_digits : ℕ → ℕ → ℕ → ℕ
or_digits fuel a b = digits (λ y. y) max fuel a b

or_digits-zero : (n b : ℕ) → or_digits n 0 b ≡ b
unfolding or_digits
or_digits-zero zero b = refl
or_digits-zero (suc n) b = refl

or_digits_steady : (n m a b : ℕ) → a ≤ n → a ≤ m → or_digits n a b ≡ or_digits m a b
unfolding or_digits
or_digits_steady n m zero b p q = or_digits-zero n b ∙ sym (or_digits-zero m b)
or_digits_steady zero m (suc a) b p q = elim p [ ]
or_digits_steady (suc n) zero (suc a) b p q = elim q [ ]
or_digits_steady (suc n) (suc m) (suc a) b p q =
    ap (λ (t : ℕ). t * 2 + max (suc a % 2) (b % 2))
      (or_digits_steady n m (suc a / 2) (b / 2) (omega arith) (omega arith))

-- One binary digit of `|`.
pub bit_or_digit : (a b : ℕ) → bit_or a b ≡ bit_or (a / 2) (b / 2) * 2 + max (a % 2) (b % 2)
unfolding or_digits
bit_or_digit zero b = rw (bit_or-bitwise, bit_or-bitwise) (omega arith)
bit_or_digit (suc a) b =
    rw (bit_or-bitwise (suc a) b, bit_or-bitwise (suc a / 2) (b / 2))
      (ap (λ (t : ℕ). t * 2 + max (suc a % 2) (b % 2))
        (or_digits_steady a (suc a / 2) (suc a / 2) (b / 2) (omega arith) (omega arith)))

bit_or-zero_below : (n a : ℕ) → a < n → bit_or a 0 ≡ a
bit_or-zero_below zero a h = elim h [ ]
bit_or-zero_below (suc n) zero h = refl
bit_or-zero_below (suc n) (suc a) h =
    omega (arith, bit_or_digit (suc a) 0, bit_or-zero_below n (suc a / 2) (omega arith))

-- Fields that do not overlap: `|` is their sum.
pub bit_or-field : (k q r : ℕ) → r < 2 ^ k → bit_or (q * 2 ^ k) r ≡ q * 2 ^ k + r
bit_or-field zero q r h =
    let e : r ≡ 0 = omega arith in
    rw e (omega (arith, bit_or-zero_below (suc (q * 2 ^ 0)) (q * 2 ^ 0) (omega arith)))
bit_or-field (suc k) q r h =
    let twice : q * 2 ^ suc k ≡ 2 * (q * 2 ^ k) =
      omega (arith, ap (λ (t : ℕ). q * t) (pow-suc 2 k)) in
    let half : (q * 2 ^ suc k) / 2 ≡ q * 2 ^ k = omega arith in
    let even : (q * 2 ^ suc k) % 2 ≡ 0 = omega arith in
    rw
      (
        bit_or_digit (q * 2 ^ suc k) r,
        half,
        even,
        bit_or-field k q (r / 2) (omega (arith, pow-suc 2 k)),
      )
      (omega arith)
