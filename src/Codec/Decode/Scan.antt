-- ===== src/Codec/Decode/Scan.antt =====
-- kernel/trigger6_codec.c: the macroblocks of a scan, read back by a decoder.
pub mod Component
pub mod Steps
use mathlib.Core.Path.{subst}
use mathlib.Core.List.{append_assoc, append-nil}
use jcd543_mct_t6_linux_driv.Prelude.{
  ℕ, zero, suc, ◌+◌, ◌*◌, ◌<◌, ◌≡◌, refl, ap, ◌∙◌, Bool, true, false, if◌then◌else◌, List, [], ◌∷◌,
  ◌++◌, arith, some,
}
use jcd543_mct_t6_linux_driv.Prelude.Int.{ℤ, pos}
use jcd543_mct_t6_linux_driv.Codec.Tables.{
  dc_luma_bits, dc_luma_vals, ac_luma_bits, ac_luma_vals, dc_chroma_bits, dc_chroma_vals,
  ac_chroma_bits, ac_chroma_vals,
}
use jcd543_mct_t6_linux_driv.Codec.Huffman.{built_tables}
use jcd543_mct_t6_linux_driv.Codec.Quant.{at, fdct_quantize, precompute_dct_qtable}
use jcd543_mct_t6_linux_driv.Codec.Quant.Range.{AllWithin}
use jcd543_mct_t6_linux_driv.Codec.Quant.Span.{IsWithin, IsSamples}
use jcd543_mct_t6_linux_driv.Codec.Quant.Magnitude.{fdct_quantize-IsQuantized}
use jcd543_mct_t6_linux_driv.Codec.Sample.{Frame, load_y_block, load_chroma_block}
use jcd543_mct_t6_linux_driv.Codec.Sample.Levels.{
  load_y_block-IsSamples, load_chroma_block-IsSamples,
}
use jcd543_mct_t6_linux_driv.Codec.Block.{encode_block, put_coeffs}
use jcd543_mct_t6_linux_driv.Codec.Writer.{JpegCtx}
use jcd543_mct_t6_linux_driv.Codec.Writer.Stream.{IsScan}
use jcd543_mct_t6_linux_driv.Codec.Encode.{
  Encoder, Step, ◌then_step◌, Coding, encode_y, encode_cb, encode_cr, encode_mcu, encode_row,
  encode_rows,
}
use jcd543_mct_t6_linux_driv.Codec.Decode.{Reader, give, ◌and_then◌, and_then_lem, Sends}
use jcd543_mct_t6_linux_driv.Codec.Decode.Symbols.{
  read_symbol, CodesDc, CodesAc, dc_luma-CodesDc, dc_chroma-CodesDc, ac_luma-CodesAc,
  ac_chroma-CodesAc,
}
use jcd543_mct_t6_linux_driv.Codec.Decode.Block.{read_block, zigzag_from}
use jcd543_mct_t6_linux_driv.Codec.Decode.Coefficients.{put_coeffs-Sends}

-- What a decoder keeps from one block to the next.
pub record Prediction : Type 0 where
  pub y : ℤ
  pub cb : ℤ
  pub cr : ℤ

abbrev pub Blocks : Type 0
Blocks = List (List ℤ)

abbrev pub BlockReader : Type 0
BlockReader = Prediction → Reader (Prediction × Blocks)

pub read_luma : ℤ → Reader (List ℤ)
unfolding read_block
read_luma =
    read_block (read_symbol dc_luma_bits dc_luma_vals) (read_symbol ac_luma_bits ac_luma_vals)

pub read_chroma : ℤ → Reader (List ℤ)
unfolding read_block
read_chroma =
    read_block (read_symbol dc_chroma_bits dc_chroma_vals)
      (read_symbol ac_chroma_bits ac_chroma_vals)

pub read_y : BlockReader
unfolding read_luma
read_y d = read_luma d.y and_then λ block. give (record d { y = at block 0 }, block ∷ [])

pub read_cb : BlockReader
unfolding read_chroma
read_cb d = read_chroma d.cb and_then λ block. give (record d { cb = at block 0 }, block ∷ [])

pub read_cr : BlockReader
unfolding read_chroma
read_cr d = read_chroma d.cr and_then λ block. give (record d { cr = at block 0 }, block ∷ [])

infixl 5 ◌then_read◌
pub ◌then_read◌ : BlockReader → BlockReader → BlockReader
◌then_read◌ p q d =
    p d and_then λ first. q first.0 and_then λ second. give (second.0, first.1 ++ second.1)

pub read_mcu : BlockReader
unfolding ◌then_read◌ read_y read_cb read_cr
read_mcu =
    read_y then_read read_y then_read read_y then_read read_y then_read read_cb then_read read_cr

-- A row of `n` macroblocks.
pub read_row : ℕ → BlockReader
unfolding read_mcu
read_row zero = λ d. give (d, [])
read_row (suc n) = read_mcu then_read read_row n

-- `n` rows of `wide` macroblocks.
pub read_rows : ℕ → ℕ → BlockReader
unfolding read_row
read_rows wide zero = λ d. give (d, [])
read_rows wide (suc n) = read_row wide then_read read_rows wide n

-- The values that the DC coefficients of the last blocks can have.
pub record IsPrediction (d : Prediction) : Type 0 where
  pub y : IsWithin 1024 1016 d.y
  pub cb : IsWithin 1024 1016 d.cb
  pub cr : IsWithin 1024 1016 d.cr

abbrev pub prediction : Encoder → Prediction
prediction e = record { y = e.prev_dc_y; cb = e.prev_dc_cb; cr = e.prev_dc_cr }

-- What a step of the encoder adds to the scan behind the prediction `d`, if it succeeds: bits that are read back as
-- `blocks`, with the encoder's new prediction.
pub record SendsFrom (p : Step) (read : BlockReader) (blocks : Blocks) (d : Prediction)
    : Type 0 where
  pub sent : List ℕ
  pub after : Prediction
  pub range : IsPrediction after
  pub reads : (rest : List ℕ) → read d (sent ++ rest) ≡ some ((after, blocks), rest)
  pub emits :
      (start given : List ℕ) (e e' : Encoder)
      → prediction e ≡ d
      → IsScan start given e.ctx
      → e.ctx.bitcnt < 8
      → p e ≡ (e', true)
      → IsScan start (given ++ sent) e'.ctx × (e'.ctx.bitcnt < 8) × (prediction e' ≡ after)

pub record SendsBlocks (p : Step) (read : BlockReader) (blocks : Blocks) : Type 0 where
  pub from : (d : Prediction) → IsPrediction d → SendsFrom p read blocks d

-- A sequence of steps succeeds only if both do.
then_step-true :
    (p q : Step) (e e' : Encoder)
    → (p then_step q) e ≡ (e', true)
    → (f : Encoder) × (p e ≡ (f, true)) × (q f ≡ (e', true))
then_step-true p q e e' = go (p e)
  where
    go :
        (r : Encoder × Bool)
        → (let (f, ok) = r in if ok then q f else (f, false)) ≡ (e', true)
        → (f : Encoder) × (r ≡ (f, true)) × (q f ≡ (e', true))
    go (f, true) h = (f, refl, h)
    go (f, false) h = absurd (cc (ap (λ (r : Encoder × Bool). r.1) h))

pub then_step-Sends :
    {p q : Step} {r s : BlockReader} {xs ys : Blocks}
    → SendsBlocks p r xs
    → SendsBlocks q s ys
    → SendsBlocks (p then_step q) (r then_read s) (xs ++ ys)
unfolding ◌then_read◌
then_step-Sends {p} {q} {r} {s} {xs} {ys} a b = record {
  from = λ d range.
      (let first = a.from d range in
        let second = b.from first.after first.range in
        record {
          sent = first.sent ++ second.sent;
          after = second.after;
          range = second.range;
          reads = λ rest. rw (append_assoc first.sent) (
              and_then_lem (r d) _ (first.reads (second.sent ++ rest))
              ∙ and_then_lem (s first.after) _ (second.reads rest));
          emits = λ start given e e' same scan few done.
              (let (f, one, two) = then_step-true p q e e' done in
                let (scan', few', same') = first.emits start given e f same scan few one in
                rw (← append_assoc given)
                  (second.emits start (given ++ first.sent) f e' same' scan' few' two));
        });
}

pub stop-Sends : SendsBlocks (λ e. (e, true)) (λ d. give (d, [])) []
stop-Sends = record {
  from = λ d range. record {
    sent = [];
    after = d;
    range = range;
    reads = λ rest. refl;
    emits = λ start given e e' same scan few done.
        (let g : e ≡ e' = ap (λ (r : Encoder × Bool). r.0) done in
          rw (append-nil, ← g) (scan, few, same));
  };
}
