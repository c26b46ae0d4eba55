-- ===== src/Codec/Block.antt =====
-- kernel/trigger6_codec.c: the entropy coding of one 8 by 8 block.
pub mod Extend
use jcd543_mct_t6_linux_driv.Prelude.{
  ℕ, zero, suc, ◌+◌, ◌-◌, ◌/◌, ◌^◌, Bool, true, false, leb, ◌==◌, if◌then◌else◌, List, get_or,
}
use jcd543_mct_t6_linux_driv.Prelude.Int.{
  ℤ, pos, ◌+ℤ◌, ◌-ℤ◌, magnitude, is_zero, is_negative, to_unsigned,
}
use Prim.Native.Nat.{bit_or}
use jcd543_mct_t6_linux_driv.Prelude.Words.{◌<<<◌}
use jcd543_mct_t6_linux_driv.Codec.Tables.{zigzag}
use jcd543_mct_t6_linux_driv.Codec.Huffman.{HuffTable}
use jcd543_mct_t6_linux_driv.Codec.Quant.{at, fdct_quantize}
use jcd543_mct_t6_linux_driv.Codec.Writer.{JpegCtx, Writer, ◌>>◌, succeed, put_bits}

-- `while (abs_value) { size++; abs_value >>= 1; }`, on fuel.
unfoldable pub count_bits : ℕ → ℕ → ℕ → ℕ
count_bits zero abs_value size = size
count_bits (suc fuel) abs_value size = elim (abs_value == 0) [
  | true ↦ size
  | false ↦ count_bits fuel (abs_value / 2) (size + 1)
]

-- The size that is returned, and what goes through `bits`. The value itself is enough fuel.
unfoldable pub value_bits : ℤ → ℕ × ℕ
unfolding count_bits
value_bits value =
    if is_zero value
    then (0, 0)
    else (let size = count_bits (magnitude value) (magnitude value) 0 in
        (
          size,
          to_unsigned (2 ^ 16)
              (if is_negative value then value -ℤ pos 1 +ℤ pos (2 ^ size) else value),
        ))

-- The code of a symbol.
unfoldable pub put_symbol : HuffTable → ℕ → Writer
put_symbol table symbol = put_bits (get_or table.codes symbol 0) (get_or table.sizes symbol 0)

-- A symbol, and then the bits of the value.
unfoldable pub put_value : HuffTable → ℕ → ℕ × ℕ → Writer
put_value table symbol (size, value) = put_symbol table symbol >> put_bits value size

-- `while (zero_run >= 16)`, on fuel, and what follows it with the run that is left.
unfoldable pub put_runs : HuffTable → ℕ → ℕ → (ℕ → Writer) → Writer
put_runs table zero zero_run next = next zero_run
put_runs table (suc fuel) zero_run next =
    let again = put_runs table fuel (zero_run - 16) next in
    if leb 16 zero_run then put_symbol table 0xf0 >> again else next zero_run

-- The loop over the AC coefficients from index `i` on, with `n` of them left, and the end of block.

unfoldable pub put_ac : HuffTable → List ℤ → ℕ → ℕ → ℕ → Writer
put_ac table coeffs zero i zero_run = if zero_run == 0 then succeed else put_symbol table 0x00
put_ac table coeffs (suc n) i zero_run =
    let coeff = at coeffs (get_or zigzag i 0) in
    let skip = put_ac table coeffs n (i + 1) (zero_run + 1) in
    let rest = put_ac table coeffs n (i + 1) 0 in
    let put = λ (run : ℕ).
      put_value table (bit_or (run <<< 4) (value_bits coeff).0) (value_bits coeff) >> rest in
    if is_zero coeff then skip else put_runs table zero_run zero_run put

-- The coefficients, coded after the block whose DC coefficient is `prev_dc`.
unfoldable pub put_coeffs : HuffTable → HuffTable → List ℤ → ℤ → Writer
put_coeffs dc_table ac_table coeffs prev_dc =
    let diff = value_bits (at coeffs 0 -ℤ prev_dc) in
    put_value dc_table diff.0 diff >> put_ac ac_table coeffs 63 1 0

-- The writer, and the new `*prev_dc`.
unfoldable pub encode_block :
    List ℤ → List ℕ → HuffTable → HuffTable → ℤ → JpegCtx → (JpegCtx × Bool) × ℤ
unfolding put_coeffs put_ac put_runs put_value
encode_block block dq dc_table ac_table prev_dc c =
    let coeffs = fdct_quantize block dq in
    (put_coeffs dc_table ac_table coeffs prev_dc c, at coeffs 0)
