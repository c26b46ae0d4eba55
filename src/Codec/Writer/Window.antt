-- ===== src/Codec/Writer/Window.antt =====
-- kernel/trigger6_codec.c: arithmetic of the 32-bit window `bitbuf` that the bit writer shifts.
use Prim.Native.Nat.{bit_or}
use native.Mathlib.Nat.{div-add-mod', mul-le-mul_right, mod-lt, one-le-pow}
use jcd543_mct_t6_linux_driv.Prelude.{
  ℕ, ◌+◌, ◌-◌, ◌*◌, ◌/◌, ◌%◌, ◌^◌, ◌≤◌, ◌<◌, ◌≡◌, ap, arith, sym, ◌∙◌, dec_lt,
}
use jcd543_mct_t6_linux_driv.Prelude.Words.{u8, u32, ◌<<<◌, ◌>>>◌, pow_add, bit_or-field}

mul-lt : (a b q : ℕ) → a < b → 1 ≤ q → a * q < b * q
mul-lt a b q h hq = grind arith

pub pow-le : (a b : ℕ) → a ≤ b → 2 ^ a ≤ 2 ^ b
pow-le a b h =
    let e : a + (b - a) ≡ b = omega arith in
    let f : 2 ^ b ≡ 2 ^ a * 2 ^ (b - a) = ap (λ (t : ℕ). 2 ^ t) (sym e) ∙ pow_add a (b - a) in
    let g : 1 ≤ 2 ^ (b - a) = one-le-pow (b - a) 2 (omega arith) in grind arith

div-lt-of : (v p : ℕ) → v * p < 256 * p → v < 256
div-lt-of v p h = elim (dec_lt v 256) [
  | yes y ↦ y
  | no n ↦ absurd (let g : 256 * p ≤ v * p = mul-le-mul_right p (omega arith) in omega arith)
]

pub two_pow_pos : (k : ℕ) → 1 ≤ 2 ^ k
two_pow_pos k = one-le-pow k 2 (omega arith)

-- Taking the top byte of a window, over two factors of 2 ^ 24.
top_byte_factors :
    (p q v r : ℕ)
    → p * q ≡ 2 ^ 24
    → 1 ≤ q
    → r < p
    → v < 256
    → (u8 ((v * p + r) * q >>> 24) ≡ v) × (u32 ((v * p + r) * q <<< 8) ≡ r * (256 * q))
top_byte_factors p q v r pq hq hr hv =
    let e : (v * p + r) * q ≡ v * 2 ^ 24 + r * q = omega (arith, ap (λ (t : ℕ). v * t) pq) in
    let h : r * q + q ≤ p * q = grind arith in rw e (omega arith, omega arith)

-- The window of `8 + k` pending bits `rem`: its top byte, and the window that is left.
pub top_byte :
    (k rem : ℕ)
    → k ≤ 24
    → rem < 2 ^ (8 + k)
    → (u8 (rem * 2 ^ (24 - k) >>> 24) ≡ rem / 2 ^ k)
      × (u32 (rem * 2 ^ (24 - k) <<< 8) ≡ rem % 2 ^ k * 2 ^ (32 - k))
      × (rem / 2 ^ k < 256)
top_byte k rem hk hr =
    let whole : k + (24 - k) ≡ 24 = omega arith in
    let more : 32 - k ≡ 8 + (24 - k) = omega arith in
    let pq : 2 ^ k * 2 ^ (24 - k) ≡ 2 ^ 24 =
      sym (pow_add k (24 - k)) ∙ ap (λ (t : ℕ). 2 ^ t) whole in
    let wide : 2 ^ (32 - k) ≡ 256 * 2 ^ (24 - k) =
      ap (λ (t : ℕ). 2 ^ t) more ∙ pow_add 8 (24 - k) in
    let split : rem ≡ rem / 2 ^ k * 2 ^ k + rem % 2 ^ k = sym (div-add-mod' rem (2 ^ k)) in
    let small : rem % 2 ^ k < 2 ^ k = mod-lt rem (two_pow_pos k) in
    let byte : rem / 2 ^ k < 256 =
      div-lt-of (rem / 2 ^ k) (2 ^ k) (omega (arith, pow_add 8 k, split)) in
    let (v, rest) =
      top_byte_factors (2 ^ k) (2 ^ (24 - k)) (rem / 2 ^ k) (rem % 2 ^ k) pq (two_pow_pos (24 - k))
        small byte in
    (
      rw (ap (λ (t : ℕ). u8 (t * 2 ^ (24 - k) >>> 24)) split) v,
      rw (wide, ap (λ (t : ℕ). u32 (t * 2 ^ (24 - k) <<< 8)) split) rest,
      byte,
    )

-- `|=` of a code below `n` pending bits `rem`: the bits of both, side by side.
pub window_code :
    (n size rem code : ℕ)
    → n + size ≤ 32
    → rem < 2 ^ n
    → code < 2 ^ size
    → (bit_or (rem * 2 ^ (32 - n)) (u32 (code <<< (32 - n - size)))
        ≡ (rem * 2 ^ size + code) * 2 ^ (32 - (n + size)))
      × (rem * 2 ^ size + code < 2 ^ (n + size))
window_code n size rem code fits small_rem small =
    let q : ℕ = 2 ^ (32 - n - size) in
    let split : 32 - n ≡ size + (32 - n - size) = omega arith in
    let rest : 32 - (n + size) ≡ 32 - n - size = omega arith in
    let wide : 2 ^ (32 - n) ≡ 2 ^ size * q =
      ap (λ (t : ℕ). 2 ^ t) split ∙ pow_add size (32 - n - size) in
    let below : code * q < 2 ^ size * q =
      mul-lt code (2 ^ size) q small (two_pow_pos (32 - n - size)) in
    let bounded : 2 ^ (32 - n) ≤ 2 ^ 32 = pow-le (32 - n) 32 (omega arith) in
    let word : u32 (code * q) ≡ code * q = omega (arith, wide) in
    let total : rem * 2 ^ size + 2 ^ size ≤ 2 ^ n * 2 ^ size = grind arith in
    (
      rw (word, bit_or-field (32 - n) rem (code * q) (omega (arith, wide)), wide, rest)
          (omega arith),
      omega (arith, pow_add n size),
    )

-- `|=` of ones below `n` pending bits: the top byte then ends in ones.
pub window_ones :
    (n rem : ℕ)
    → n < 8
    → rem < 2 ^ n
    → (u8 (bit_or (rem * 2 ^ (32 - n)) ((1 <<< (32 - n)) - 1) >>> 24)
        ≡ rem * 2 ^ (8 - n) + (2 ^ (8 - n) - 1))
      × (2 ^ (8 - n) - 1 < 2 ^ (8 - n))
window_ones n rem hn hr =
    let q : ℕ = 2 ^ (8 - n) in
    let split : 32 - n ≡ 8 - n + 24 = omega arith in
    let wide : 2 ^ (32 - n) ≡ q * 2 ^ 24 = ap (λ (t : ℕ). 2 ^ t) split ∙ pow_add (8 - n) 24 in
    let nine : n + (8 - n) ≡ 8 = omega arith in
    let byte : 2 ^ n * q ≡ 256 = sym (pow_add n (8 - n)) ∙ ap (λ (t : ℕ). 2 ^ t) nine in
    let pos : 1 ≤ q = two_pow_pos (8 - n) in
    let total : rem * q + q ≤ 2 ^ n * q = grind arith in
    let below : 1 * 2 ^ (32 - n) - 1 < 2 ^ (32 - n) = omega (arith, wide) in
    (rw (bit_or-field (32 - n) rem (1 * 2 ^ (32 - n) - 1) below, wide) (omega arith), omega arith)
