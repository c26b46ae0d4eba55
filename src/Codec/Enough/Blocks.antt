-- ===== src/Codec/Enough/Blocks.antt =====
-- kernel/trigger6_codec.c: the room that a block and the loops over macroblocks need.
pub mod Call
use Prim.Native.Nat.{bit_or}
use jcd543_mct_t6_linux_driv.Prelude.{
  ℕ, zero, suc, ◌+◌, ◌-◌, ◌*◌, ◌≤◌, ◌<◌, ◌^◌, ◌≡◌, refl, Bool, true, false, ◌&&◌, leb, leb→le, ◌==◌,
  and_true, Bool-cases, inl, inr, List, [], ◌∷◌, get_or, arith,
}
use jcd543_mct_t6_linux_driv.Prelude.Words.{◌<<<◌}
use jcd543_mct_t6_linux_driv.Prelude.Int.{ℤ, pos, magnitude, is_zero, ◌-ℤ◌}
use jcd543_mct_t6_linux_driv.Prelude.Kernel.{div_round_up}
use jcd543_mct_t6_linux_driv.Codec.Tables.{zigzag}
use jcd543_mct_t6_linux_driv.Codec.Huffman.{HuffTable, built_tables}
use jcd543_mct_t6_linux_driv.Codec.Quant.{at}
use jcd543_mct_t6_linux_driv.Codec.Quant.Span.{IsWithin}
use jcd543_mct_t6_linux_driv.Codec.Quant.Magnitude.{IsQuantized}
use jcd543_mct_t6_linux_driv.Codec.Writer.{Writer, ◌>>◌, succeed, put_bits}
use jcd543_mct_t6_linux_driv.Codec.Block.{
  value_bits, put_symbol, put_value, put_runs, put_ac, put_coeffs,
}
use jcd543_mct_t6_linux_driv.Codec.Block.Extend.{value_bits-size}
use jcd543_mct_t6_linux_driv.Codec.Decode.Runs.{IsCodable}
use jcd543_mct_t6_linux_driv.Codec.Decode.Coefficients.{IsQuantized-IsCodable, difference_small}
use jcd543_mct_t6_linux_driv.Codec.Enough.{
  Needs, Needs-le, ◌then_needs◌, succeed-Needs, put_bits-Needs,
}

all_short : List ℕ → Bool
all_short [] = true
all_short (n ∷ ns) = leb n 16 && all_short ns

-- No code of a table is longer than 16 bits.
pub record IsShort (t : HuffTable) : Type 0 where
  pub short : (symbol : ℕ) → get_or t.sizes symbol 0 ≤ 16

all_short_lem : (ns : List ℕ) → all_short ns ≡ true → (i : ℕ) → get_or ns i 0 ≤ 16
unfolding all_short
all_short_lem [] h i = omega arith
all_short_lem (n ∷ ns) h zero =
    let (here, rest) = and_true (leb n 16) (all_short ns) h in leb→le n 16 here
all_short_lem (n ∷ ns) h (suc i) =
    let (here, rest) = and_true (leb n 16) (all_short ns) h in all_short_lem ns rest i

pub built_tables-IsShort :
    IsShort built_tables.dc_luma
    × IsShort built_tables.ac_luma
    × IsShort built_tables.dc_chroma
    × IsShort built_tables.ac_chroma
unfolding all_short built_tables
built_tables-IsShort = (
  record { short = all_short_lem built_tables.dc_luma.sizes refl },
  record { short = all_short_lem built_tables.ac_luma.sizes refl },
  record { short = all_short_lem built_tables.dc_chroma.sizes refl },
  record { short = all_short_lem built_tables.ac_chroma.sizes refl },
)

module _ {t : HuffTable} (s : IsShort t) where
  put_symbol-Needs : (symbol : ℕ) → Needs 4 (put_symbol t symbol)
  unfolding put_symbol
  put_symbol-Needs symbol = put_bits-Needs _ _ (s.short symbol)

  put_value-Needs :
      (symbol : ℕ) (v : ℤ) → magnitude v < 2 ^ 11 → Needs 8 (put_value t symbol (value_bits v))
  unfolding put_value
  put_value-Needs symbol v small =
      let size : (value_bits v).0 ≤ 11 = value_bits-size 11 v small (omega arith) in
      put_symbol-Needs symbol
      then_needs put_bits-Needs (value_bits v).1 (value_bits v).0 (omega (arith, size))

  put_runs-Needs :
      (m : ℕ) (next : ℕ → Writer)
      → ((r : ℕ) → Needs m (next r))
      → (fuel run : ℕ) → Needs (run + m) (put_runs t fuel run next)
  unfolding put_runs
  put_runs-Needs m next h zero run = Needs-le (h run) (omega arith)
  put_runs-Needs m next h (suc fuel) run = elim (Bool-cases (leb 16 run)) [
    | inl long ↦
        (let more : 16 ≤ run = leb→le 16 run long in
          rw long (
            Needs-le (put_symbol-Needs 0xf0 then_needs put_runs-Needs m next h fuel (run - 16))
              (omega (arith, more))))
    | inr short ↦ rw short (Needs-le (h run) (omega arith))
  ]

  put_ac-Needs :
      (coeffs : List ℤ) (n i run : ℕ)
      → IsCodable coeffs
      → 0 < i
      → i + n ≤ 64
      → Needs (8 * n + run + 4) (put_ac t coeffs n i run)
  unfolding put_ac
  put_ac-Needs coeffs zero i run c low hi = elim (Bool-cases (run == 0)) [
    | inl none ↦ rw none (Needs-le succeed-Needs (omega arith))
    | inr some ↦ rw some (Needs-le (put_symbol-Needs 0x00) (omega arith))
  ]
  put_ac-Needs coeffs (suc n) i run c low hi =
      let v : ℤ = at coeffs (get_or zigzag i 0) in
      let small : magnitude v < 2 ^ 10 = c.small i low (omega arith) in
      elim (Bool-cases (is_zero v)) [
        | inl zero_here ↦ rw zero_here (
            Needs-le (put_ac-Needs coeffs n (i + 1) (run + 1) c (omega arith) (omega arith))
              (omega arith))
        | inr value_here ↦ rw value_here (
            Needs-le
              (put_runs-Needs (8 + (8 * n + 0 + 4)) _
                (λ r.
                  put_value-Needs (bit_or (r <<< 4) (value_bits v).0) v (omega (arith, small))
                  then_needs put_ac-Needs coeffs n (i + 1) 0 c (omega arith) (omega arith))
                run run)
              (omega arith))
      ]

-- A block takes at most 516 bytes.
pub put_coeffs-Needs :
    {dc ac : HuffTable} (coeffs : List ℤ) (prev : ℤ)
    → IsShort dc
    → IsShort ac
    → IsQuantized coeffs
    → IsWithin 1024 1016 prev
    → Needs 516 (put_coeffs dc ac coeffs prev)
unfolding put_coeffs
put_coeffs-Needs coeffs prev d a q before =
    put_value-Needs d _ (at coeffs 0 -ℤ prev) (difference_small (at coeffs 0) prev q.dc before)
    then_needs put_ac-Needs a coeffs 63 1 0 (IsQuantized-IsCodable coeffs q) (omega arith)
        (omega arith)
