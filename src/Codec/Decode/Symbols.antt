-- ===== src/Codec/Decode/Symbols.antt =====
-- kernel/trigger6_codec.c: the codes of the Huffman tables, and a decoder that knows only the counts and the values
-- which the header of the file carries.
use jcd543_mct_t6_linux_driv.Prelude.{
  Bool-cases, all_below, all_below-at, inl, inr, ℕ, zero, suc, ◌+◌, ◌-◌, ◌*◌, ◌^◌, ◌<◌, ◌≡◌, refl,
  ap, Bool, true, false, ◌&&◌, List, [], ◌∷◌, ◌++◌, arith, Option, none, some, ltb, leb, ◌==◌,
  get_or, drop, if◌then◌else◌, ==_iff, leb→le, ltb→lt,
}
use jcd543_mct_t6_linux_driv.Codec.Tables.{
  dc_luma_bits, dc_luma_vals, ac_luma_bits, ac_luma_vals, dc_chroma_bits, dc_chroma_vals,
  ac_chroma_bits, ac_chroma_vals,
}
use jcd543_mct_t6_linux_driv.Codec.Huffman.{HuffTable, built_tables}
use jcd543_mct_t6_linux_driv.Codec.Writer.Bitstring.{bits}
use jcd543_mct_t6_linux_driv.Codec.Block.{put_symbol}
use jcd543_mct_t6_linux_driv.Codec.Decode.{Reader, Sends, put_bits-Emits}

-- One bit at a time, for the lengths that are left: the codes of a length follow each other from `first` on, and
-- behind the last of them the codes of the next length begin.
walk : List ℕ → List ℕ → ℕ → ℕ → Reader ℕ
walk [] vals code first bs = none
walk (n ∷ counts) vals code first [] = none
walk (n ∷ counts) vals code first (b ∷ bs) =
    let longer = walk counts (drop n vals) (2 * code + b) (2 * (first + n)) bs in
    if ltb (2 * code + b) (first + n)
    then some (get_or vals (2 * code + b - first) 0, bs)
    else longer

-- DECODE of the JPEG standard, by the counts of each length (from index 1) and the values in the order of their codes.
pub read_symbol : List ℕ → List ℕ → Reader ℕ
unfolding walk
read_symbol counts vals = walk (drop 1 counts) vals 0 0

followed_by : List ℕ → Option (ℕ × List ℕ) → Option (ℕ × List ℕ)
followed_by rest none = none
followed_by rest (some (v, left)) = some (v, left ++ rest)

walk-append :
    (counts vals : List ℕ) (code first : ℕ) (bs rest : List ℕ) {v : ℕ} {left : List ℕ}
    → walk counts vals code first bs ≡ some (v, left)
    → walk counts vals code first (bs ++ rest) ≡ some (v, left ++ rest)
unfolding walk followed_by
walk-append [] vals code first bs rest h = absurd (ground arith)
walk-append (n ∷ counts) vals code first [] rest h = absurd (ground arith)
walk-append (n ∷ counts) vals code first (b ∷ bs) rest {v} {left} h =
    elim (Bool-cases (ltb (2 * code + b) (first + n))) [
      | inl here ↦
          (let h' : ◌≡◌ {A = Option (ℕ × List ℕ)} (some (get_or vals (2 * code + b - first) 0, bs))
                (some (v, left)) =
              rw here at h in
            rw here (ap (followed_by rest) h'))
      | inr longer ↦ rw longer (
          walk-append counts (drop n vals) (2 * code + b) (2 * (first + n)) bs rest
            (rw longer at h))
    ]

is_read : Option (ℕ × List ℕ) → ℕ → Bool
is_read (some (v, [])) symbol = v == symbol
is_read _ symbol = false

is_read_lem :
    (o : Option (ℕ × List ℕ)) (symbol : ℕ) → is_read o symbol ≡ true → o ≡ some (symbol, [])
unfolding is_read
is_read_lem (some (v, [])) symbol h = ap (λ (t : ℕ). some (t, [])) ((==_iff v symbol).0 h)
is_read_lem (some (v, b ∷ bs)) symbol h = absurd (ground arith)
is_read_lem none symbol h = absurd (ground arith)

-- The code of a symbol is not empty, fits the writer, and the decoder reads it back.
pub is_coded : HuffTable → List ℕ → List ℕ → ℕ → Bool
unfolding is_read read_symbol walk
is_coded t counts vals symbol =
    let size = get_or t.sizes symbol 0 in
    let code = get_or t.codes symbol 0 in
    leb size 16 && ltb code (2 ^ size) && is_read (read_symbol counts vals (bits size code)) symbol

-- The writer of a symbol whose code is as it should be.
is_coded-Sends :
    (t : HuffTable) (counts vals : List ℕ) (symbol : ℕ)
    → is_coded t counts vals symbol ≡ true
    → Sends (put_symbol t symbol) (read_symbol counts vals) symbol
unfolding is_coded read_symbol put_symbol
is_coded-Sends t counts vals symbol h =
    let size = get_or t.sizes symbol 0 in
    let code = get_or t.codes symbol 0 in
    record {
      sent = bits size code;
      emits =
          put_bits-Emits code size (leb→le size 16 (ground arith))
            (ltb→lt code (2 ^ size) (ground arith));
      reads = λ rest.
          walk-append (drop 1 counts) vals 0 0 (bits size code) rest
            (is_read_lem (read_symbol counts vals (bits size code)) symbol (ground arith));
    }

-- A table has a code for each size of a DC difference, of up to 11 bits.
pub record CodesDc (t : HuffTable) (counts vals : List ℕ) : Type 0 where
  pub sizes : all_below 12 (is_coded t counts vals) ≡ true

-- A table has a code for each size of an AC coefficient, of up to 10 bits, behind up to 15 zeros, for 16 zeros, and
-- for the end of a block.
pub record CodesAc (t : HuffTable) (counts vals : List ℕ) : Type 0 where
  pub sizes :
      (run : ℕ) → run < 16 → all_below 10 (λ s. is_coded t counts vals (run * 16 + suc s)) ≡ true
  pub zeros : is_coded t counts vals 0xf0 ≡ true
  pub end_of_block : is_coded t counts vals 0x00 ≡ true

pub put_symbol-dc :
    {t : HuffTable} {counts vals : List ℕ} (size : ℕ)
    → CodesDc t counts vals
    → size < 12
    → Sends (put_symbol t size) (read_symbol counts vals) size
put_symbol-dc {t} {counts} {vals} size k h =
    is_coded-Sends t counts vals size (all_below-at 12 size (is_coded t counts vals) k.sizes h)

pub put_symbol-ac :
    {t : HuffTable} {counts vals : List ℕ} (run size : ℕ)
    → CodesAc t counts vals
    → run < 16
    → 0 < size
    → size < 11
    → Sends (put_symbol t (run * 16 + size)) (read_symbol counts vals) (run * 16 + size)
put_symbol-ac {t} {counts} {vals} run zero k r pos h = absurd (omega arith)
put_symbol-ac {t} {counts} {vals} run (suc s) k r pos h =
    is_coded-Sends t counts vals (run * 16 + suc s) (
      all_below-at 10 s (λ s. is_coded t counts vals (run * 16 + suc s)) (k.sizes run r)
        (omega arith))

pub put_symbol-zeros :
    {t : HuffTable} {counts vals : List ℕ}
    → CodesAc t counts vals
    → Sends (put_symbol t 0xf0) (read_symbol counts vals) 0xf0
put_symbol-zeros {t} {counts} {vals} k = is_coded-Sends t counts vals 0xf0 k.zeros

pub put_symbol-end :
    {t : HuffTable} {counts vals : List ℕ}
    → CodesAc t counts vals
    → Sends (put_symbol t 0x00) (read_symbol counts vals) 0x00
put_symbol-end {t} {counts} {vals} k = is_coded-Sends t counts vals 0x00 k.end_of_block

-- The tables that `t6_jpeg_init_huff_tables` builds, all codes of which the decoder reads back.
pub dc_luma-CodesDc : CodesDc built_tables.dc_luma dc_luma_bits dc_luma_vals
unfolding all_below is_coded built_tables
dc_luma-CodesDc = record { sizes = refl }

pub dc_chroma-CodesDc : CodesDc built_tables.dc_chroma dc_chroma_bits dc_chroma_vals
unfolding all_below is_coded built_tables
dc_chroma-CodesDc = record { sizes = refl }

all_runs :
    (t : HuffTable) (counts vals : List ℕ)
    → all_below 16 (λ run. all_below 10 λ s. is_coded t counts vals (run * 16 + suc s)) ≡ true
    → (run : ℕ) → run < 16
    → all_below 10 (λ s. is_coded t counts vals (run * 16 + suc s)) ≡ true
all_runs t counts vals h run r =
    all_below-at 16 run (λ run. all_below 10 λ s. is_coded t counts vals (run * 16 + suc s)) h r

pub ac_luma-CodesAc : CodesAc built_tables.ac_luma ac_luma_bits ac_luma_vals
unfolding all_below is_coded built_tables
ac_luma-CodesAc = record {
  sizes = all_runs built_tables.ac_luma ac_luma_bits ac_luma_vals refl;
  zeros = refl;
  end_of_block = refl;
}

pub ac_chroma-CodesAc : CodesAc built_tables.ac_chroma ac_chroma_bits ac_chroma_vals
unfolding all_below is_coded built_tables
ac_chroma-CodesAc = record {
  sizes = all_runs built_tables.ac_chroma ac_chroma_bits ac_chroma_vals refl;
  zeros = refl;
  end_of_block = refl;
}
