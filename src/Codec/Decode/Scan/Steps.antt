-- ===== src/Codec/Decode/Scan/Steps.antt =====
-- kernel/trigger6_codec.c: each loop of the encoder over blocks and macroblocks, read back by a decoder.
use jcd543_mct_t6_linux_driv.Prelude.{
  ℕ, zero, suc, ◌+◌, ◌*◌, ◌^◌, ◌<◌, ◌≤◌, ◌≡◌, arith, List, [], ◌∷◌, ◌++◌,
}
use jcd543_mct_t6_linux_driv.Prelude.Int.{ℤ}
use jcd543_mct_t6_linux_driv.Prelude.Kernel.{div_round_up}
use jcd543_mct_t6_linux_driv.Codec.Huffman.{built_tables}
use jcd543_mct_t6_linux_driv.Codec.Quant.{fdct_quantize, precompute_dct_qtable}
use jcd543_mct_t6_linux_driv.Codec.Quant.Range.{AllWithin}
use jcd543_mct_t6_linux_driv.Codec.Quant.Span.{IsSamples}
use jcd543_mct_t6_linux_driv.Codec.Quant.Magnitude.{fdct_quantize-IsQuantized}
use jcd543_mct_t6_linux_driv.Codec.Sample.{Frame, load_y_block, load_chroma_block}
use jcd543_mct_t6_linux_driv.Codec.Sample.Levels.{
  load_y_block-IsSamples, load_chroma_block-IsSamples,
}
use jcd543_mct_t6_linux_driv.Codec.Block.{encode_block}
use jcd543_mct_t6_linux_driv.Codec.Encode.{
  Coding, encode_y, encode_cb, encode_cr, encode_mcu, encode_row, encode_rows, mcu_count,
}
use jcd543_mct_t6_linux_driv.Codec.Decode.Symbols.{
  dc_luma-CodesDc, dc_chroma-CodesDc, ac_luma-CodesAc, ac_chroma-CodesAc,
}
use jcd543_mct_t6_linux_driv.Codec.Decode.Block.{zigzag_from}
use jcd543_mct_t6_linux_driv.Codec.Decode.Scan.{
  Blocks, read_luma, read_chroma, read_y, read_cb, read_cr, read_mcu, read_row, read_rows,
  SendsBlocks, then_step-Sends, stop-Sends,
}
use jcd543_mct_t6_linux_driv.Codec.Decode.Scan.Component.{
  luma_component, cb_component, cr_component, block_step, block_reader, block_step-Sends,
}

-- The quantised coefficients of a block of samples, in zigzag order.
abbrev pub coded : List ℕ → List ℤ → List ℤ
coded dq samples = zigzag_from (fdct_quantize samples dq) 64 0

-- What does not change from one macroblock to the next, for two quantisation tables.
abbrev pub coding_of : Frame → List ℕ → List ℕ → Coding
coding_of frame ql qc = record {
  frame = frame;
  tables = built_tables;
  dq_luma = precompute_dct_qtable ql;
  dq_chroma = precompute_dct_qtable qc;
}

-- A size of an image, rounded up to macroblocks, does not wrap.
pub mcu_count_small : (n : ℕ) → n + 15 < 2 ^ 32 → mcu_count n ≡ div_round_up n 16
mcu_count_small n h = omega arith

module _ (frame : Frame) (ql qc : List ℕ) where
  -- The six blocks of a macroblock.
  abbrev pub mcu_blocks : ℕ → ℕ → Blocks
  mcu_blocks mcu_x mcu_y =
      let x = mcu_x * 16 in
      let y = mcu_y * 16 in
      let luma = λ (x y : ℕ). coded (precompute_dct_qtable ql) (load_y_block frame x y) in
      let chroma = load_chroma_block frame x y in
      luma x y
      ∷ luma (x + 8) y
      ∷ luma x (y + 8)
      ∷ luma (x + 8) (y + 8)
      ∷ coded (precompute_dct_qtable qc) chroma.0
      ∷ coded (precompute_dct_qtable qc) chroma.1
      ∷ []

  -- The blocks of a row of `n` macroblocks from `mcu_x` on.
  abbrev pub row_blocks : ℕ → ℕ → ℕ → Blocks
  row_blocks zero mcu_x mcu_y = []
  row_blocks (suc n) mcu_x mcu_y = mcu_blocks mcu_x mcu_y ++ row_blocks n (mcu_x + 1) mcu_y

  -- The blocks of `n` rows of macroblocks from `mcu_y` on.
  abbrev pub rows_blocks : ℕ → ℕ → Blocks
  rows_blocks zero mcu_y = []
  rows_blocks (suc n) mcu_y =
      row_blocks (div_round_up frame.width 16) 0 mcu_y ++ rows_blocks n (mcu_y + 1)

module _ (frame : Frame) (ql qc : List ℕ) (wl : AllWithin 1 255 ql) (wc : AllWithin 1 255 qc) where
  encode_y-Sends :
      (x y : ℕ)
      → SendsBlocks
          (encode_y (coding_of frame ql qc) x y)
          read_y
          (coded (precompute_dct_qtable ql) (load_y_block frame x y) ∷ [])
  unfolding encode_y encode_block read_y read_luma block_step block_reader luma_component
  encode_y-Sends x y =
      block_step-Sends luma_component
        (fdct_quantize (load_y_block frame x y) (precompute_dct_qtable ql)) dc_luma-CodesDc
        ac_luma-CodesAc
        (fdct_quantize-IsQuantized (load_y_block frame x y) ql (load_y_block-IsSamples frame x y)
          wl)

  encode_cb-Sends :
      (block : List ℤ)
      → IsSamples block
      → SendsBlocks
          (encode_cb (coding_of frame ql qc) block)
          read_cb
          (coded (precompute_dct_qtable qc) block ∷ [])
  unfolding encode_cb encode_block read_cb read_chroma block_step block_reader cb_component
  encode_cb-Sends block s =
      block_step-Sends cb_component (fdct_quantize block (precompute_dct_qtable qc))
        dc_chroma-CodesDc ac_chroma-CodesAc (fdct_quantize-IsQuantized block qc s wc)

  encode_cr-Sends :
      (block : List ℤ)
      → IsSamples block
      → SendsBlocks
          (encode_cr (coding_of frame ql qc) block)
          read_cr
          (coded (precompute_dct_qtable qc) block ∷ [])
  unfolding encode_cr encode_block read_cr read_chroma block_step block_reader cr_component
  encode_cr-Sends block s =
      block_step-Sends cr_component (fdct_quantize block (precompute_dct_qtable qc))
        dc_chroma-CodesDc ac_chroma-CodesAc (fdct_quantize-IsQuantized block qc s wc)

  encode_mcu-Sends :
      (mcu_x mcu_y : ℕ)
      → SendsBlocks
          (encode_mcu (coding_of frame ql qc) mcu_x mcu_y)
          read_mcu
          (mcu_blocks frame ql qc mcu_x mcu_y)
  unfolding encode_mcu read_mcu
  encode_mcu-Sends mcu_x mcu_y =
      let x = mcu_x * 16 in
      let y = mcu_y * 16 in
      let (blue, red) = load_chroma_block-IsSamples frame x y in
      then_step-Sends
        (then_step-Sends
          (then_step-Sends
            (then_step-Sends (then_step-Sends (encode_y-Sends x y) (encode_y-Sends (x + 8) y))
              (encode_y-Sends x (y + 8)))
            (encode_y-Sends (x + 8) (y + 8)))
          (encode_cb-Sends (load_chroma_block frame x y).0 blue))
        (encode_cr-Sends (load_chroma_block frame x y).1 red)

  encode_row-Sends :
      (n mcu_x mcu_y : ℕ)
      → SendsBlocks
          (encode_row (coding_of frame ql qc) n mcu_x mcu_y)
          (read_row n)
          (row_blocks frame ql qc n mcu_x mcu_y)
  unfolding encode_row read_row
  encode_row-Sends zero mcu_x mcu_y = stop-Sends
  encode_row-Sends (suc n) mcu_x mcu_y =
      then_step-Sends (encode_mcu-Sends mcu_x mcu_y) (encode_row-Sends n (mcu_x + 1) mcu_y)

  -- A scan of `n` rows of macroblocks is read back.
  pub encode_rows-Sends :
      (n mcu_y : ℕ)
      → frame.width ≤ 65535
      → SendsBlocks
          (encode_rows (coding_of frame ql qc) n mcu_y)
          (read_rows (div_round_up frame.width 16) n)
          (rows_blocks frame ql qc n mcu_y)
  unfolding encode_rows read_rows
  encode_rows-Sends zero mcu_y narrow = stop-Sends
  encode_rows-Sends (suc n) mcu_y narrow =
      let columns : mcu_count frame.width ≡ div_round_up frame.width 16 =
        mcu_count_small frame.width (omega arith) in
      let row : SendsBlocks (encode_row (coding_of frame ql qc) (mcu_count frame.width) 0 mcu_y)
          (read_row (div_round_up frame.width 16))
          (row_blocks frame ql qc (div_round_up frame.width 16) 0 mcu_y) =
        rw (← columns) (encode_row-Sends (mcu_count frame.width) 0 mcu_y) in
      then_step-Sends row (encode_rows-Sends n (mcu_y + 1) narrow)
