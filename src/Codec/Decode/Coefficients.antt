-- ===== src/Codec/Decode/Coefficients.antt =====
-- kernel/trigger6_codec.c: `t6_jpeg_encode_block`, read back by a decoder.
use jcd543_mct_t6_linux_driv.Prelude.{
  ℕ, suc, ◌^◌, ◌≤◌, ◌<◌, ◌≡◌, refl, ap, Bool, true, ◌&&◌, List, ◌∷◌, arith, ltb, get_or, max,
  all_below, all_below-at, and_true, ◌-◌, ltb→lt,
}
use jcd543_mct_t6_linux_driv.Prelude.Int.{ℤ, pos, negsuc, magnitude, ◌+ℤ◌, ◌-ℤ◌, int_laws}
use jcd543_mct_t6_linux_driv.Codec.Tables.{zigzag}
use jcd543_mct_t6_linux_driv.Codec.Huffman.{HuffTable}
use jcd543_mct_t6_linux_driv.Codec.Quant.{at}
use jcd543_mct_t6_linux_driv.Codec.Quant.Span.{IsWithin}
use jcd543_mct_t6_linux_driv.Codec.Quant.Magnitude.{IsQuantized}
use jcd543_mct_t6_linux_driv.Codec.Block.{value_bits, put_value, put_coeffs}
use jcd543_mct_t6_linux_driv.Codec.Block.Extend.{value_bits-size}
use jcd543_mct_t6_linux_driv.Codec.Decode.{Sends, seq-Sends, then_give-Sends, Sends-cast}
use jcd543_mct_t6_linux_driv.Codec.Decode.Symbols.{read_symbol, CodesDc, CodesAc, put_symbol-dc}
use jcd543_mct_t6_linux_driv.Codec.Decode.Block.{receive, read_block, zigzag_from, value-Sends}
use jcd543_mct_t6_linux_driv.Codec.Decode.Runs.{IsCodable, put_ac-Sends}

pub magnitude-IsWithin : {n p : ℕ} (x : ℤ) → IsWithin n p x → magnitude x ≤ max n p
magnitude-IsWithin (pos k) s = omega (arith, s.above)
magnitude-IsWithin (negsuc k) s = omega (arith, s.below)

-- The difference of two DC coefficients has at most 11 bits.
pub difference_small :
    (a b : ℤ) → IsWithin 1024 1016 a → IsWithin 1024 1016 b → magnitude (a -ℤ b) < 2 ^ 11
unfolding ◌-ℤ◌
difference_small a b s t = ground (arith, s.below, s.above, t.below, t.above)

is_inside : ℕ → Bool
is_inside i = ltb 0 (get_or zigzag i 0) && ltb (get_or zigzag i 0) 64

zigzag_inside : (i : ℕ) → 0 < i → i < 64 → (0 < get_or zigzag i 0) × (get_or zigzag i 0 < 64)
unfolding all_below is_inside
zigzag_inside i low high =
    let before : suc (i - 1) ≡ i = omega arith in
    let test : is_inside i ≡ true =
      rw before at (all_below-at 63 (i - 1) (λ i. is_inside (suc i)) refl (omega arith)) in
    let (l, h) = and_true (ltb 0 (get_or zigzag i 0)) (ltb (get_or zigzag i 0) 64) test in
    (ltb→lt 0 (get_or zigzag i 0) l, ltb→lt (get_or zigzag i 0) 64 h)

pub IsQuantized-IsCodable : (coeffs : List ℤ) → IsQuantized coeffs → IsCodable coeffs
IsQuantized-IsCodable coeffs q = record {
  small = λ i low high.
      (let (l, h) = zigzag_inside i low high in
        let le : magnitude (at coeffs (get_or zigzag i 0)) ≤ 1023 =
          magnitude-IsWithin _ (q.ac (get_or zigzag i 0) l h) in
        omega (arith, le));
}

-- The coefficients of a block, coded by the tables behind a block whose DC coefficient is `prev`, are read back in
-- zigzag order.
pub put_coeffs-Sends :
    {dc ac : HuffTable} {dc_counts dc_vals ac_counts ac_vals : List ℕ} (coeffs : List ℤ) (prev : ℤ)
    → CodesDc dc dc_counts dc_vals
    → CodesAc ac ac_counts ac_vals
    → IsQuantized coeffs
    → IsWithin 1024 1016 prev
    → Sends
        (put_coeffs dc ac coeffs prev)
        (read_block (read_symbol dc_counts dc_vals) (read_symbol ac_counts ac_vals) prev)
        (zigzag_from coeffs 64 0)
unfolding put_coeffs put_value read_block
put_coeffs-Sends {ac_counts} {ac_vals} coeffs prev dc_codes ac_codes q before =
    let diff : ℤ = at coeffs 0 -ℤ prev in
    let small : magnitude diff < 2 ^ 11 = difference_small (at coeffs 0) prev q.dc before in
    let size : (value_bits diff).0 ≤ 11 = value_bits-size 11 diff small (omega arith) in
    let back : prev +ℤ diff ≡ at coeffs 0 = omega int_laws in
    Sends-cast refl (ap (λ (d : ℤ). d ∷ zigzag_from coeffs 63 1) back) (
      seq-Sends _
        (seq-Sends receive (put_symbol-dc (value_bits diff).0 dc_codes (omega (arith, size)))
          (value-Sends diff (omega (arith, small))))
        (then_give-Sends (λ ys. (prev +ℤ diff) ∷ ys)
          (put_ac-Sends ac_codes coeffs 63 1 0 63 (IsQuantized-IsCodable coeffs q) (omega arith)
            (omega arith) (omega arith))))
