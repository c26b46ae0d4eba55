-- ===== src/Codec/Enough/Blocks/Call.antt =====
-- kernel/trigger6_codec.c: with enough room `t6_jpeg_encode_xrgb8888` succeeds.
use native.Mathlib.Nat.{suc-mul, mul-le-mul_right}
use jcd543_mct_t6_linux_driv.Prelude.{
  ℕ, zero, suc, ◌+◌, ◌*◌, ◌^◌, ◌≤◌, ◌<◌, ◌≡◌, refl, ◌∙◌, Bool, true, false, ◌||◌, ◌==◌, ltb, some,
  List, arith,
}
use jcd543_mct_t6_linux_driv.Prelude.Words.{u32}
use jcd543_mct_t6_linux_driv.Prelude.Int.{ℤ, pos, to_int}
use jcd543_mct_t6_linux_driv.Prelude.Kernel.{div_round_up}
use jcd543_mct_t6_linux_driv.Codec.Tables.{qt_luma, qt_chroma}
use jcd543_mct_t6_linux_driv.Codec.Huffman.{built_tables, init_huff_tables}
use jcd543_mct_t6_linux_driv.Codec.Quant.{build_qtable, precompute_dct_qtable, fdct_quantize}
use jcd543_mct_t6_linux_driv.Codec.Quant.Range.{AllWithin}
use jcd543_mct_t6_linux_driv.Codec.Quant.Span.{IsSamples, zero-IsWithin}
use jcd543_mct_t6_linux_driv.Codec.Quant.Magnitude.{IsQuantized, fdct_quantize-IsQuantized}
use jcd543_mct_t6_linux_driv.Codec.Sample.{Frame, load_y_block, load_chroma_block}
use jcd543_mct_t6_linux_driv.Codec.Sample.Levels.{
  load_y_block-IsSamples, load_chroma_block-IsSamples,
}
use jcd543_mct_t6_linux_driv.Codec.Writer.{JpegCtx, ◌>>◌, flush_bits, put_marker}
use jcd543_mct_t6_linux_driv.Codec.Headers.{write_headers}
use jcd543_mct_t6_linux_driv.Codec.Block.{encode_block}
use jcd543_mct_t6_linux_driv.Codec.Encode.{
  Encoder, Step, ◌then_step◌, encode_y, encode_cb, encode_cr, encode_mcu, encode_row, encode_rows,
  mcu_count, fresh_ctx, encode_file, encode_frame, EncodeCall, encode_xrgb8888,
}
use jcd543_mct_t6_linux_driv.Codec.Decode.Scan.{IsPrediction, prediction}
use jcd543_mct_t6_linux_driv.Codec.Decode.Scan.Steps.{coding_of, mcu_count_small}
use jcd543_mct_t6_linux_driv.Codec.Decode.File.{tables_within}
use jcd543_mct_t6_linux_driv.Codec.Decode.Call.{IsConsistent, init_huff_tables_lem}
use jcd543_mct_t6_linux_driv.Codec.Enough.{
  IsClean, IsDone, ◌then_needs◌, flush_bits-Needs, put_marker-Needs, write_headers-Needs,
}
use jcd543_mct_t6_linux_driv.Codec.Enough.Blocks.{built_tables-IsShort, put_coeffs-Needs}

-- A step of the encoder that succeeds with room for `n` bytes.
record NeedsStep (n : ℕ) (p : Step) : Type 0 where
  apply :
      (e : Encoder)
      → IsPrediction (prediction e)
      → IsClean e.ctx
      → e.ctx.pos + n ≤ e.ctx.dst_size
      → IsDone n e.ctx ((p e).0.ctx, (p e).1) × IsPrediction (prediction (p e).0)

then_step-NeedsStep :
    {m n : ℕ} (k : ℕ) {p q : Step}
    → NeedsStep m p
    → NeedsStep n q
    → m + n ≤ k
    → NeedsStep k (p then_step q)
then_step-NeedsStep k {p} {q} a b le = record {
  apply = λ e r c h.
      (let (first, r1) = a.apply e r c (omega (arith, le, h)) in
        let (second, r2) =
          b.apply (p e).0 r1 first.clean (omega (arith, le, h, first.used, first.same_size)) in
        rw first.ok (
          record {
            ok = second.ok;
            clean = second.clean;
            used = omega (arith, le, first.used, second.used);
            same_size = second.same_size ∙ first.same_size;
          },
          r2,
        ));
}

stop-NeedsStep : (k : ℕ) → NeedsStep k (λ e. (e, true))
stop-NeedsStep k = record {
  apply = λ e r c h. (record { ok = refl; clean = c; used = omega arith; same_size = refl }, r);
}

module _ (frame : Frame) (ql qc : List ℕ) (wl : AllWithin 1 255 ql) (wc : AllWithin 1 255 qc) where
  encode_y-NeedsStep : (x y : ℕ) → NeedsStep 516 (encode_y (coding_of frame ql qc) x y)
  unfolding encode_y encode_block
  encode_y-NeedsStep x y =
      let block : List ℤ = load_y_block frame x y in
      let q : IsQuantized (fdct_quantize block (precompute_dct_qtable ql)) =
        fdct_quantize-IsQuantized block ql (load_y_block-IsSamples frame x y) wl in
      let (dc, ac, _, _) = built_tables-IsShort in
      record {
        apply = λ e r c h. (
          (put_coeffs-Needs (fdct_quantize block (precompute_dct_qtable ql)) e.prev_dc_y dc ac q
                r.y).apply
              e.ctx c h,
          record { y = q.dc; cb = r.cb; cr = r.cr },
        );
      }

  encode_cb-NeedsStep :
      (block : List ℤ) → IsSamples block → NeedsStep 516 (encode_cb (coding_of frame ql qc) block)
  unfolding encode_cb encode_block
  encode_cb-NeedsStep block s =
      let q : IsQuantized (fdct_quantize block (precompute_dct_qtable qc)) =
        fdct_quantize-IsQuantized block qc s wc in
      let (_, _, dc, ac) = built_tables-IsShort in
      record {
        apply = λ e r c h. (
          (put_coeffs-Needs (fdct_quantize block (precompute_dct_qtable qc)) e.prev_dc_cb dc ac q
                r.cb).apply
              e.ctx c h,
          record { y = r.y; cb = q.dc; cr = r.cr },
        );
      }

  encode_cr-NeedsStep :
      (block : List ℤ) → IsSamples block → NeedsStep 516 (encode_cr (coding_of frame ql qc) block)
  unfolding encode_cr encode_block
  encode_cr-NeedsStep block s =
      let q : IsQuantized (fdct_quantize block (precompute_dct_qtable qc)) =
        fdct_quantize-IsQuantized block qc s wc in
      let (_, _, dc, ac) = built_tables-IsShort in
      record {
        apply = λ e r c h. (
          (put_coeffs-Needs (fdct_quantize block (precompute_dct_qtable qc)) e.prev_dc_cr dc ac q
                r.cr).apply
              e.ctx c h,
          record { y = r.y; cb = r.cb; cr = q.dc },
        );
      }

  -- A macroblock takes at most 3096 bytes.
  encode_mcu-NeedsStep : (x y : ℕ) → NeedsStep 3096 (encode_mcu (coding_of frame ql qc) x y)
  unfolding encode_mcu
  encode_mcu-NeedsStep mcu_x mcu_y =
      let x = mcu_x * 16 in
      let y = mcu_y * 16 in
      let (blue, red) = load_chroma_block-IsSamples frame x y in
      then_step-NeedsStep 3096
        (then_step-NeedsStep 2580
          (then_step-NeedsStep 2064
            (then_step-NeedsStep 1548
              (then_step-NeedsStep 1032 (encode_y-NeedsStep x y) (encode_y-NeedsStep (x + 8) y)
                (omega arith))
              (encode_y-NeedsStep x (y + 8)) (omega arith))
            (encode_y-NeedsStep (x + 8) (y + 8)) (omega arith))
          (encode_cb-NeedsStep (load_chroma_block frame x y).0 blue) (omega arith))
        (encode_cr-NeedsStep (load_chroma_block frame x y).1 red) (omega arith)

  encode_row-NeedsStep :
      (n x y : ℕ) → NeedsStep (n * 3096) (encode_row (coding_of frame ql qc) n x y)
  unfolding encode_row
  encode_row-NeedsStep zero x y = stop-NeedsStep (0 * 3096)
  encode_row-NeedsStep (suc n) x y =
      then_step-NeedsStep (suc n * 3096) (encode_mcu-NeedsStep x y)
        (encode_row-NeedsStep n (x + 1) y) (omega arith)

  encode_rows-NeedsStep :
      (n y : ℕ)
      → NeedsStep (n * (mcu_count frame.width * 3096)) (encode_rows (coding_of frame ql qc) n y)
  unfolding encode_rows
  encode_rows-NeedsStep zero y = stop-NeedsStep (0 * (mcu_count frame.width * 3096))
  encode_rows-NeedsStep (suc n) y =
      let row : ℕ = mcu_count frame.width * 3096 in
      then_step-NeedsStep (suc n * row) (encode_row-NeedsStep (mcu_count frame.width) 0 y)
        (encode_rows-NeedsStep n (y + 1)) (omega (arith, suc-mul n row))

-- The bytes that are enough for a frame: the headers, its macroblocks, and the end.
abbrev pub enough : ℕ → ℕ → ℕ
enough width height = 623 + (div_round_up height 16 * (div_round_up width 16 * 3096) + 4)

-- A file below 2 GiB is one of a frame whose macroblocks are counted without wrapping.
enough_sides :
    (width height : ℕ)
    → 0 < width
    → 0 < height
    → enough width height < 2 ^ 31
    → (mcu_count width ≡ div_round_up width 16) × (mcu_count height ≡ div_round_up height 16)
enough_sides width height wide high small =
    let w : ℕ = div_round_up width 16 in
    let h : ℕ = div_round_up height 16 in
    let one_row : 1 * (w * 3096) ≤ h * (w * 3096) = mul-le-mul_right (w * 3096) (omega arith) in
    let turned : h * (w * 3096) ≡ w * (h * 3096) = grind arith in
    let one_column : 1 * (h * 3096) ≤ w * (h * 3096) = mul-le-mul_right (h * 3096) (omega arith) in
    (
      mcu_count_small width (omega (arith, one_row, small)),
      mcu_count_small height (omega (arith, one_column, turned, small)),
    )

encode_frame_succeeds :
    (frame : Frame) (quality : ℕ) (dst : List ℕ) (dst_size : ℕ)
    → 0 < frame.width
    → 0 < frame.height
    → enough frame.width frame.height ≤ dst_size
    → dst_size < 2 ^ 31
    → (n : ℕ) × ((encode_frame built_tables frame quality dst dst_size).0 ≡ pos n)
unfolding encode_frame encode_file
encode_frame_succeeds frame quality dst dst_size wide tall enough_room limit =
    let (columns, rows_high) =
      enough_sides frame.width frame.height wide tall (omega (arith, enough_room, limit)) in
    let room = rw (← columns, ← rows_high) at enough_room in
    let ql : List ℕ = build_qtable qt_luma quality in
    let qc : List ℕ = build_qtable qt_chroma quality in
    let (wl, wc) = tables_within quality in
    let zero_range = zero-IsWithin 1024 1016 in
    let high : ℕ = mcu_count frame.height in
    let h : JpegCtx × Bool =
      write_headers frame.width frame.height ql qc (fresh_ctx dst dst_size) in
    let headed =
      (write_headers-Needs frame.width frame.height ql qc).apply (fresh_ctx dst dst_size)
        (record { few = omega arith; fine = refl }) (omega (arith, room)) in
    let start : Encoder = record {
      ctx = h.0;
      prev_dc_y = pos 0;
      prev_dc_cb = pos 0;
      prev_dc_cr = pos 0;
    } in
    let rows : Encoder × Bool = encode_rows (coding_of frame ql qc) high 0 start in
    let (coded, range) =
      (encode_rows-NeedsStep frame ql qc wl wc high 0).apply start
        (record { y = zero_range; cb = zero_range; cr = zero_range }) headed.clean
        (omega (arith, room, headed.used, headed.same_size)) in
    let ended =
      (flush_bits-Needs then_needs put_marker-Needs 0xd9).apply rows.0.ctx coded.clean
        (omega (arith, room, headed.used, headed.same_size, coded.used, coded.same_size)) in
    let f : JpegCtx × Bool = (flush_bits >> put_marker 0xd9) rows.0.ctx in
    let small : f.0.pos < 2 ^ 31 = omega (
      arith, room, limit, headed.used, headed.same_size, coded.used, coded.same_size, ended.used,
    ) in
    let returned : to_int f.0.pos ≡ pos f.0.pos = ground arith in
    (f.0.pos, rw (headed.ok, coded.ok, ended.ok, ended.clean.fine) returned)

-- With buffers that are there, a frame that is not empty, rows that are no shorter than its pixels, memory for the tables and static tables
-- that are those that are built whenever their flag says so, `t6_jpeg_encode_xrgb8888` returns a length if the destination has 623 bytes
-- for the headers, 3096 for each macroblock and four for the end, but fewer than 2 GiB, whatever the frame shows.
pub encode_xrgb8888_succeeds :
    (a : EncodeCall) (src dst : List ℕ)
    → a.src ≡ some src
    → a.dst ≡ some dst
    → 0 < a.width
    → 0 < a.height
    → u32 (a.width * 4) ≤ a.stride
    → a.allocated ≡ true
    → IsConsistent a.tables
    → IsConsistent a.seen
    → enough a.width a.height ≤ a.dst_size
    → a.dst_size < 2 ^ 31
    → (n : ℕ) × ((encode_xrgb8888 a).0 ≡ pos n)
unfolding encode_xrgb8888
encode_xrgb8888_succeeds a src dst has_src has_dst wide high row allocated s t room limit =
    let f : Frame = record { src = src; width = a.width; height = a.height; stride = a.stride } in
    let built : init_huff_tables a.tables a.seen ≡ built_tables =
      init_huff_tables_lem a.tables a.seen s t in
    let checked : (a.width == 0 || a.height == 0 || ltb a.stride (u32 (a.width * 4))) ≡ false =
      ground arith in
    let (n, done) = encode_frame_succeeds f a.quality dst a.dst_size wide high room limit in
    (n, rw (has_dst, has_src, checked, allocated, built) done)
