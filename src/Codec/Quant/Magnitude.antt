-- ===== src/Codec/Quant/Magnitude.antt =====
-- kernel/trigger6_codec.c: the magnitude of a quantised coefficient.
use native.Mathlib.Nat.{mul-le-mul}
use jcd543_mct_t6_linux_driv.Prelude.{
  ℕ, zero, suc, ◌+◌, ◌-◌, ◌*◌, ◌/◌, ◌^◌, ◌≤◌, ◌<◌, ◌≡◌, refl, ap, ◌∙◌, Bool, true, false, ◌&&◌, ltb,
  leb, leb→le, ltb→lt, List, [], ◌∷◌, map, get_or, arith, all_below, all_below-at, and_true,
}
use jcd543_mct_t6_linux_driv.Prelude.Int.{ℤ, pos, negsuc, neg, clamp_ℤ, is_negative}
use jcd543_mct_t6_linux_driv.Codec.Quant.{
  at, dct_rows, dct_column, quantize, fdct_quantize, recip, precompute_dct_qtable,
}
use jcd543_mct_t6_linux_driv.Codec.Quant.Range.{AllWithin}
use jcd543_mct_t6_linux_driv.Codec.Quant.Span.{
  IsWithin, IsSamples, zero-IsWithin, tabulate-at, coefficient_down, coefficient_up,
  dct_column-IsWithin, total,
}

clamp_pos : (q : ℕ) → IsWithin 0 q (clamp_ℤ (neg 32767) (pos 32767) (pos q))
unfolding clamp_ℤ
clamp_pos q = record { below = ground arith; above = ground arith }

clamp_neg : (q : ℕ) → IsWithin q 0 (clamp_ℤ (neg 32767) (pos 32767) (neg q))
unfolding clamp_ℤ
clamp_neg zero = zero-IsWithin 0 0
clamp_neg (suc q) = record { below = ground arith; above = ground arith }

pub wider : {n p m q : ℕ} {x : ℤ} → IsWithin n p x → n ≤ m → p ≤ q → IsWithin m q x
wider s a b = record { below = omega (arith, s.below, a); above = omega (arith, s.above, b) }

-- A reciprocal of at most 2 ^ 20 stands for a divisor of at least 2 ^ 28.
quantize-IsWithin :
    (r : ℕ) (sum : ℤ) (n p m q : ℕ)
    → r ≤ 2 ^ 20
    → IsWithin n p sum
    → n * 2 ^ 20 + 2 ^ 47 < (m + 1) * 2 ^ 48
    → p * 2 ^ 20 + 2 ^ 47 < (q + 1) * 2 ^ 48
    → IsWithin m q (quantize r sum)
unfolding quantize
quantize-IsWithin r (pos a) n p m q hr s hn hp =
    let le : a * r ≤ p * 2 ^ 20 = mul-le-mul s.above hr in
    let sign : is_negative (pos a) ≡ false = ground arith in
    rw sign (wider (clamp_pos _) (omega arith) (omega (arith, le)))
quantize-IsWithin r (negsuc a) n p m q hr s hn hp =
    let le : suc a * r ≤ n * 2 ^ 20 = mul-le-mul s.below hr in
    let sign : is_negative (negsuc a) ≡ true = ground arith in
    rw sign (wider (clamp_neg _) (omega (arith, le)) (omega arith))

-- The reciprocals of table entries of a byte.
recip_small : (q : ℕ) → 1 ≤ q → q ≤ 255 → recip q ≤ 2 ^ 20
unfolding recip all_below
recip_small q low high =
    leb→le (recip q) (2 ^ 20) (all_below-at 256 q (λ q. leb (recip q) (2 ^ 20)) refl (omega arith))

get_or-recip : (qs : List ℕ) (i : ℕ) → AllWithin 1 255 qs → get_or (map recip qs) i 0 ≤ 2 ^ 20
get_or-recip [] i w = omega arith
get_or-recip (q ∷ qs) zero (low, high, w) = recip_small q low high
get_or-recip (q ∷ qs) (suc i) (low, high, w) = get_or-recip qs i w

-- What the transform is given: samples, and the reciprocals of a quantisation table.
pub record IsQuantized (coeffs : List ℤ) : Type 0 where
  pub dc : IsWithin 1024 1016 (at coeffs 0)
  pub ac : (i : ℕ) → 0 < i → i < 64 → IsWithin 1023 1023 (at coeffs i)

fits : ℕ → ℕ → Bool
unfolding coefficient_down coefficient_up
fits row u =
    ltb (coefficient_down row u * 2 ^ 20 + 2 ^ 47) (1024 * 2 ^ 48)
    && ltb (coefficient_up row u * 2 ^ 20 + 2 ^ 47) (1024 * 2 ^ 48)

fits_lem :
    (row u : ℕ)
    → fits row u ≡ true
    → (coefficient_down row u * 2 ^ 20 + 2 ^ 47 < (1023 + 1) * 2 ^ 48)
      × (coefficient_up row u * 2 ^ 20 + 2 ^ 47 < (1023 + 1) * 2 ^ 48)
fits_lem row u h =
    let (down, up) =
      and_true (ltb (coefficient_down row u * 2 ^ 20 + 2 ^ 47) (1024 * 2 ^ 48))
        (ltb (coefficient_up row u * 2 ^ 20 + 2 ^ 47) (1024 * 2 ^ 48)) (unfold fits in h) in
    (ltb→lt _ _ down, ltb→lt _ _ up)

all_fit : all_below 63 (λ i. fits (suc i / 8) (suc i - suc i / 8 * 8)) ≡ true
unfolding fits all_below total
all_fit = refl

fdct_quantize-at :
    (src : List ℤ) (dq : List ℕ) (i : ℕ)
    → i < 64
    → at (fdct_quantize src dq) i
      ≡ quantize (get_or dq i 0) (dct_column (dct_rows src) (i / 8) (i - i / 8 * 8))
unfolding fdct_quantize
fdct_quantize-at src dq i h =
    let f : ℕ → ℤ =
      λ idx. quantize (get_or dq idx 0) (dct_column (dct_rows src) (idx / 8) (idx - idx / 8 * 8)) in
    let e : 0 + i ≡ i = omega arith in tabulate-at f 64 0 i h ∙ ap f e

-- Of samples, and with the reciprocals of a table of bytes from 1 on, the transform gives a first coefficient from -1024 to 1016,
-- and others of at most 10 bits.
pub fdct_quantize-IsQuantized :
    (src : List ℤ) (qs : List ℕ)
    → IsSamples src
    → AllWithin 1 255 qs
    → IsQuantized (fdct_quantize src (precompute_dct_qtable qs))
unfolding precompute_dct_qtable
fdct_quantize-IsQuantized src qs s w = record {
  dc = rw (fdct_quantize-at src (map recip qs) 0 (omega arith)) (
      quantize-IsWithin (get_or (map recip qs) 0 0) _ (coefficient_down 0 0) (coefficient_up 0 0)
        1024 1016 (get_or-recip qs 0 w) (dct_column-IsWithin src 0 0 s (omega arith))
        (unfold coefficient_down coefficient_up total in omega arith)
        (unfold coefficient_down coefficient_up total in omega arith));
  ac = λ i low high.
      (let row : ℕ = i / 8 in
        let u : ℕ = i - i / 8 * 8 in
        let before : suc (i - 1) ≡ i = omega arith in
        let test : fits row u ≡ true = rw before at (
          all_below-at 63 (i - 1) (λ i. fits (suc i / 8) (suc i - suc i / 8 * 8)) all_fit
            (omega arith)) in
        let (down, up) = fits_lem row u test in
        rw (fdct_quantize-at src (map recip qs) i high) (
          quantize-IsWithin (get_or (map recip qs) i 0) _ (coefficient_down row u)
            (coefficient_up row u) 1023 1023 (get_or-recip qs i w)
            (dct_column-IsWithin src row u s (omega arith)) down up));
}
