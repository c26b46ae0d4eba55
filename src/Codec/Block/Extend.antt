-- ===== src/Codec/Block/Extend.antt =====
-- kernel/trigger6_codec.c: the size and the bits of a coefficient are those that a JPEG decoder extends to it.
use jcd543_mct_t6_linux_driv.Prelude.{
  ℕ, zero, suc, ◌+◌, ◌-◌, ◌/◌, ◌^◌, ◌≤◌, ◌<◌, ◌≡◌, ◌≢◌, refl, ◌∙◌, arith, ltb, false, if◌then◌else◌,
  dec_lt,
}
use jcd543_mct_t6_linux_driv.Prelude.Int.{
  ℤ, pos, negsuc, magnitude, ◌+ℤ◌, ◌-ℤ◌, to_unsigned, is_zero,
}
use jcd543_mct_t6_linux_driv.Codec.Writer.Window.{pow-le}
use jcd543_mct_t6_linux_driv.Codec.Block.{count_bits, value_bits}

-- EXTEND of the JPEG standard: the value that `size` bits stand for.
abbrev pub extend : ℕ → ℕ → ℤ
extend bits size =
    if ltb bits (2 ^ (size - 1)) then pos bits -ℤ pos (2 ^ size) +ℤ pos 1 else pos bits

count_bits-zero : (fuel size : ℕ) → count_bits fuel 0 size ≡ size
unfolding count_bits
count_bits-zero zero size = refl
count_bits-zero (suc fuel) size = refl

count_bits-suc :
    (fuel a size : ℕ) → a ≢ 0 → count_bits (suc fuel) a size ≡ count_bits fuel (a / 2) (size + 1)
unfolding count_bits
count_bits-suc fuel a size h = ground arith

-- The number of bits of a positive value, whose highest one is set.
count_bits_lem :
    (fuel a size : ℕ)
    → a ≤ fuel
    → 0 < a
    → (k : ℕ) × (count_bits fuel a size ≡ size + suc k) × (2 ^ k ≤ a) × (a < 2 ^ suc k)
count_bits_lem zero a size h p = absurd (omega arith)
count_bits_lem (suc fuel) a size h p =
    let step : count_bits (suc fuel) a size ≡ count_bits fuel (a / 2) (size + 1) =
      count_bits-suc fuel a size (omega arith) in
    elim (dec_lt a 2) [
      | yes one ↦
          (let e : a / 2 ≡ 0 = omega arith in
            (0, step ∙ rw e (count_bits-zero fuel (size + 1)), omega arith, omega arith))
      | no more ↦
          (let (k, count, low, high) =
              count_bits_lem fuel (a / 2) (size + 1) (omega arith) (omega arith) in
            (suc k, step ∙ count ∙ omega arith, omega (arith, low), omega (arith, high)))
    ]

-- A value of at most m bits has a highest bit below m.
below : (m k a : ℕ) → 2 ^ k ≤ a → a < 2 ^ m → suc k ≤ m
below m k a low h = elim (dec_lt k m) [
  | yes p ↦ omega arith
  | no q ↦ absurd (omega (arith, pow-le m k (omega arith)))
]

highest : (k a : ℕ) → 2 ^ k ≤ a → a < 2 ^ 15 → k ≤ 14
highest k a low h = let less : suc k ≤ 15 = below 15 k a low h in omega arith

value_bits-pos :
    (n k : ℕ)
    → count_bits (suc n) (suc n) 0 ≡ suc k
    → suc n < 2 ^ 15
    → value_bits (pos (suc n)) ≡ (suc k, suc n)
unfolding value_bits to_unsigned
value_bits-pos n k count h = ground arith

value_bits-negsuc :
    (n k : ℕ)
    → count_bits (suc n) (suc n) 0 ≡ suc k
    → suc n < 2 ^ suc k
    → 2 ^ suc k ≤ 2 ^ 15
    → value_bits (negsuc n) ≡ (suc k, 2 ^ suc k - n - 2)
unfolding value_bits to_unsigned ◌-ℤ◌ ◌+ℤ◌
value_bits-negsuc n k count high h = ground arith

extend-high : (n k : ℕ) → 2 ^ k ≤ n → extend n (suc k) ≡ pos n
extend-high n k low = ground arith

extend-low :
    (n k : ℕ) → 2 ^ k ≤ suc n → suc n < 2 ^ suc k → extend (2 ^ suc k - n - 2) (suc k) ≡ negsuc n
unfolding ◌-ℤ◌ ◌+ℤ◌
extend-low n k low high = ground arith

-- For every value of at most 15 bits, the number of bits is at most 15, the bits fit it, and a decoder extends them
-- to the value.
pub extend-value_bits :
    (v : ℤ)
    → magnitude v < 2 ^ 15
    → let (size, bits) = value_bits v in (size ≤ 15) × (bits < 2 ^ size) × (extend bits size ≡ v)
unfolding to_unsigned ◌-ℤ◌ ◌+ℤ◌
extend-value_bits (pos zero) h = unfold value_bits in ground arith
extend-value_bits (pos (suc n)) h =
    let (k, count, low, high) = count_bits_lem (suc n) (suc n) 0 (omega arith) (omega arith) in
    rw (value_bits-pos n k (count ∙ omega arith) h)
      (omega (arith, highest k (suc n) low h), high, extend-high (suc n) k low)
extend-value_bits (negsuc n) h =
    let (k, count, low, high) = count_bits_lem (suc n) (suc n) 0 (omega arith) (omega arith) in
    let top : k ≤ 14 = highest k (suc n) low h in
    rw (value_bits-negsuc n k (count ∙ omega arith) high (pow-le (suc k) 15 (omega arith)))
      (omega (arith, top), omega arith, extend-low n k low high)

-- The number of bits of a value below 2 ^ m is at most m.
pub value_bits-size : (m : ℕ) (v : ℤ) → magnitude v < 2 ^ m → m ≤ 15 → (value_bits v).0 ≤ m
value_bits-size m (pos zero) h l = unfold value_bits in omega arith
value_bits-size m (pos (suc n)) h l =
    let (k, count, low, high) = count_bits_lem (suc n) (suc n) 0 (omega arith) (omega arith) in
    let wide : 2 ^ m ≤ 2 ^ 15 = pow-le m 15 l in
    rw (value_bits-pos n k (count ∙ omega arith) (omega arith)) (below m k (suc n) low h)
value_bits-size m (negsuc n) h l =
    let (k, count, low, high) = count_bits_lem (suc n) (suc n) 0 (omega arith) (omega arith) in
    let less : suc k ≤ m = below m k (suc n) low h in
    rw (value_bits-negsuc n k (count ∙ omega arith) high (pow-le (suc k) 15 (omega arith))) less

-- A value that is not zero has at least one bit.
pub value_bits-nonzero : (v : ℤ) → is_zero v ≡ false → magnitude v < 2 ^ 15 → 0 < (value_bits v).0
value_bits-nonzero (pos zero) z h = absurd (ground arith)
value_bits-nonzero (pos (suc n)) z h =
    let (k, count, low, high) = count_bits_lem (suc n) (suc n) 0 (omega arith) (omega arith) in
    rw (value_bits-pos n k (count ∙ omega arith) h) (omega arith)
value_bits-nonzero (negsuc n) z h =
    let (k, count, low, high) = count_bits_lem (suc n) (suc n) 0 (omega arith) (omega arith) in
    let top : k ≤ 14 = highest k (suc n) low h in
    rw (value_bits-negsuc n k (count ∙ omega arith) high (pow-le (suc k) 15 (omega arith)))
      (omega arith)
