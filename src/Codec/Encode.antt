-- ===== src/Codec/Encode.antt =====
-- kernel/trigger6_codec.c: `t6_jpeg_encode_xrgb8888`, the encoder of a whole frame.
use jcd543_mct_t6_linux_driv.Prelude.{
  ℕ, zero, suc, ◌+◌, ◌*◌, ◌/◌, Bool, true, false, ◌||◌, not, ltb, ◌==◌, if◌then◌else◌, Option, none,
  some, List, [],
}
use jcd543_mct_t6_linux_driv.Prelude.Words.{u32}
use jcd543_mct_t6_linux_driv.Prelude.Int.{ℤ, pos, to_int}
use jcd543_mct_t6_linux_driv.Prelude.Errno.{einval, enomem, e2big}
use jcd543_mct_t6_linux_driv.Codec.Tables.{qt_luma, qt_chroma}
use jcd543_mct_t6_linux_driv.Codec.Huffman.{HuffTables, init_huff_tables}
use jcd543_mct_t6_linux_driv.Codec.Quant.{build_qtable, precompute_dct_qtable}
use jcd543_mct_t6_linux_driv.Codec.Sample.{Frame, load_y_block, load_chroma_block}
use jcd543_mct_t6_linux_driv.Codec.Block.{encode_block}
use jcd543_mct_t6_linux_driv.Codec.Headers.{write_headers}
use jcd543_mct_t6_linux_driv.Codec.Writer.{JpegCtx, flush_bits, put_marker, ◌>>◌}

-- The variables that the MCU loop changes.
pub record Encoder : Type 0 where
  pub ctx : JpegCtx
  pub prev_dc_y : ℤ
  pub prev_dc_cb : ℤ
  pub prev_dc_cr : ℤ

abbrev pub Step : Type 0
Step = Encoder → Encoder × Bool

-- The next step is made only if this one succeeds.
infixl 5 ◌then_step◌
abbrev pub ◌then_step◌ : Step → Step → Step
◌then_step◌ p q e = let (e', ok) = p e in if ok then q e' else (e', false)

-- What does not change from one MCU to the next.
pub record Coding : Type 0 where
  pub frame : Frame
  pub tables : HuffTables
  pub dq_luma : List ℕ
  pub dq_chroma : List ℕ

unfoldable pub encode_y : Coding → ℕ → ℕ → Step
encode_y k x y e =
    let ((c, ok), dc) =
      encode_block (load_y_block k.frame x y) k.dq_luma k.tables.dc_luma k.tables.ac_luma
        e.prev_dc_y e.ctx in
    (record e { ctx = c; prev_dc_y = dc }, ok)

unfoldable pub encode_cb : Coding → List ℤ → Step
encode_cb k block e =
    let ((c, ok), dc) =
      encode_block block k.dq_chroma k.tables.dc_chroma k.tables.ac_chroma e.prev_dc_cb e.ctx in
    (record e { ctx = c; prev_dc_cb = dc }, ok)

unfoldable pub encode_cr : Coding → List ℤ → Step
encode_cr k block e =
    let ((c, ok), dc) =
      encode_block block k.dq_chroma k.tables.dc_chroma k.tables.ac_chroma e.prev_dc_cr e.ctx in
    (record e { ctx = c; prev_dc_cr = dc }, ok)

-- The body of the inner loop: four luma blocks and two of chroma.
unfoldable pub encode_mcu : Coding → ℕ → ℕ → Step
unfolding encode_y encode_cb encode_cr
encode_mcu k mcu_x mcu_y =
    let x = mcu_x * 16 in
    let y = mcu_y * 16 in
    let blocks = load_chroma_block k.frame x y in
    encode_y k x y
    then_step encode_y k (x + 8) y
    then_step encode_y k x (y + 8)
    then_step encode_y k (x + 8) (y + 8)
    then_step encode_cb k blocks.0
    then_step encode_cr k blocks.1

-- The loop over the `n` MCUs of a row that are left.
unfoldable pub encode_row : Coding → ℕ → ℕ → ℕ → Step
unfolding encode_mcu
encode_row k zero mcu_x mcu_y e = (e, true)
encode_row k (suc n) mcu_x mcu_y e =
    let rest = λ (e' : Encoder). encode_row k n (mcu_x + 1) mcu_y e' in
    (encode_mcu k mcu_x mcu_y then_step rest) e

-- `DIV_ROUND_UP(size, 16U)` on 32 bits: the macroblocks of a row, or of a column.
abbrev pub mcu_count : ℕ → ℕ
mcu_count size = u32 (size + 15) / 16

-- The loop over the `n` rows of MCUs that are left.
unfoldable pub encode_rows : Coding → ℕ → ℕ → Step
unfolding encode_row
encode_rows k zero mcu_y e = (e, true)
encode_rows k (suc n) mcu_y e =
    let rest = λ (e' : Encoder). encode_rows k n (mcu_y + 1) e' in
    (encode_row k (mcu_count k.frame.width) 0 mcu_y then_step rest) e

abbrev pub fresh_ctx : List ℕ → ℕ → JpegCtx
fresh_ctx dst dst_size = record {
  dst = dst;
  dst_size = dst_size;
  pos = 0;
  bitbuf = 0;
  bitcnt = 0;
  overflow = false;
}

-- The frame behind the checks: what is left of the writer, and whether all was written.
unfoldable pub encode_file : HuffTables → Frame → ℕ → List ℕ → ℕ → JpegCtx × Bool
unfolding encode_rows
encode_file tables frame quality dst dst_size =
    let q_luma = build_qtable qt_luma quality in
    let q_chroma = build_qtable qt_chroma quality in
    let k : Coding = record {
      frame = frame;
      tables = tables;
      dq_luma = precompute_dct_qtable q_luma;
      dq_chroma = precompute_dct_qtable q_chroma;
    } in
    let (c, headers_ok) =
      write_headers frame.width frame.height q_luma q_chroma (fresh_ctx dst dst_size) in
    let start : Encoder = record {
      ctx = c;
      prev_dc_y = pos 0;
      prev_dc_cb = pos 0;
      prev_dc_cr = pos 0;
    } in
    let (e, encode_ok) =
      if headers_ok then encode_rows k (mcu_count frame.height) 0 start else (start, false) in
    if encode_ok then (flush_bits >> put_marker 0xd9) e.ctx else (e.ctx, false)

-- What is returned for a frame, and the bytes that are in the destination at the end. The `size_t` position is
-- returned as an `int`.
unfoldable pub encode_frame : HuffTables → Frame → ℕ → List ℕ → ℕ → ℤ × List ℕ
unfolding encode_file
encode_frame tables frame quality dst dst_size =
    let (f, ended) = encode_file tables frame quality dst dst_size in
    (if not ended then e2big else if f.overflow then e2big else to_int f.pos, f.dst)

-- What `t6_jpeg_encode_xrgb8888` is called with. `none` is a null pointer; `allocated` says whether
-- both allocations succeed, and `seen` is the state of the static tables under their lock.
pub record EncodeCall : Type 0 where
  pub src : Option (List ℕ)
  pub width : ℕ
  pub height : ℕ
  pub stride : ℕ
  pub quality : ℕ
  pub dst : Option (List ℕ)
  pub dst_size : ℕ
  pub allocated : Bool
  pub tables : HuffTables
  pub seen : HuffTables

-- The returned value, and the bytes of the destination (none of them, if it is null).
unfoldable pub encode_xrgb8888 : EncodeCall → ℤ × List ℕ
unfolding encode_frame
encode_xrgb8888 a = elim a.dst [
  | none ↦ (einval, [])
  | some dst ↦ elim a.src [
    | none ↦ (einval, dst)
    | some src ↦
        (if a.width == 0 || a.height == 0 || ltb a.stride (u32 (a.width * 4))
          then (einval, dst)
          else if not a.allocated
          then (enomem, dst)
          else encode_frame (init_huff_tables a.tables a.seen)
              (record { src = src; width = a.width; height = a.height; stride = a.stride })
              a.quality dst a.dst_size)
  ]
]
