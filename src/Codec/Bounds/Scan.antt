-- ===== src/Codec/Bounds/Scan.antt =====
-- kernel/trigger6_codec.c: the loops over blocks and macroblocks stay within the destination.
use jcd543_mct_t6_linux_driv.Prelude.{
  ℕ, zero, suc, ◌+◌, ◌-◌, ◌≤◌, ◌≡◌, true, false, List, arith, ◌⊎◌, length, ◌==◌, leb, get_or, drop,
}
use jcd543_mct_t6_linux_driv.Prelude.Int.{ℤ, pos, magnitude, is_zero, is_negative}
use jcd543_mct_t6_linux_driv.Codec.Tables.{zigzag, qt_luma, qt_chroma}
use jcd543_mct_t6_linux_driv.Codec.Huffman.{HuffTable, HuffTables}
use jcd543_mct_t6_linux_driv.Codec.Quant.{at, fdct_quantize, build_qtable, precompute_dct_qtable}
use jcd543_mct_t6_linux_driv.Codec.Sample.{Frame, load_y_block}
use jcd543_mct_t6_linux_driv.Codec.Writer.{JpegCtx, Writer, ◌>>◌, flush_bits, put_marker}
use jcd543_mct_t6_linux_driv.Codec.Writer.Room.{InBounds, Latches}
use jcd543_mct_t6_linux_driv.Codec.Headers.{write_headers}
use jcd543_mct_t6_linux_driv.Codec.Block.{
  put_symbol, put_value, put_runs, put_ac, put_coeffs, encode_block,
}
use jcd543_mct_t6_linux_driv.Codec.Encode.{
  Encoder, Step, ◌then_step◌, Coding, encode_y, encode_cb, encode_cr, encode_mcu, encode_row,
  encode_rows, mcu_count, fresh_ctx, encode_file, encode_frame,
}
use jcd543_mct_t6_linux_driv.Codec.Bounds.{
  IsSafe, if-IsSafe, seq-IsSafe, succeed-IsSafe, put_bits-IsSafe, flush_bits-IsSafe,
  put_marker-IsSafe, write_headers-IsSafe,
}

put_symbol-IsSafe : (t : HuffTable) (s : ℕ) → IsSafe (put_symbol t s)
unfolding put_symbol
put_symbol-IsSafe t s = put_bits-IsSafe _ _

put_value-IsSafe : (t : HuffTable) (s : ℕ) (v : ℕ × ℕ) → IsSafe (put_value t s v)
unfolding put_value
put_value-IsSafe t s (n, v) = seq-IsSafe _ _ (put_symbol-IsSafe t s) (put_bits-IsSafe v n)

put_runs-IsSafe :
    (t : HuffTable) (fuel run : ℕ) (next : ℕ → Writer)
    → ((r : ℕ) → IsSafe (next r))
    → IsSafe (put_runs t fuel run next)
unfolding put_runs
put_runs-IsSafe t zero run next h = h run
put_runs-IsSafe t (suc fuel) run next h =
    if-IsSafe (leb 16 run) _ _
      (seq-IsSafe _ _ (put_symbol-IsSafe t 0xf0) (put_runs-IsSafe t fuel (run - 16) next h)) (h run)

put_ac-IsSafe : (t : HuffTable) (cs : List ℤ) (n i run : ℕ) → IsSafe (put_ac t cs n i run)
unfolding put_ac
put_ac-IsSafe t cs zero i run = if-IsSafe (run == 0) _ _ succeed-IsSafe (put_symbol-IsSafe t 0)
put_ac-IsSafe t cs (suc n) i run =
    if-IsSafe (is_zero (at cs (get_or zigzag i 0))) _ _ (put_ac-IsSafe t cs n (i + 1) (run + 1)) (
      put_runs-IsSafe t run run _
        (λ r. seq-IsSafe _ _ (put_value-IsSafe t _ _) (put_ac-IsSafe t cs n (i + 1) 0)))

put_coeffs-IsSafe : (dc ac : HuffTable) (cs : List ℤ) (prev : ℤ) → IsSafe (put_coeffs dc ac cs prev)
unfolding put_coeffs
put_coeffs-IsSafe dc ac cs prev =
    seq-IsSafe _ _ (put_value-IsSafe dc _ _) (put_ac-IsSafe ac cs 63 1 0)

encode_block-Latches :
    (block : List ℤ) (dq : List ℕ) (dc ac : HuffTable) (prev : ℤ) (c : JpegCtx)
    → InBounds c
    → Latches c (encode_block block dq dc ac prev c).0
unfolding encode_block
encode_block-Latches block dq dc ac prev c b =
    (put_coeffs-IsSafe dc ac (fdct_quantize block dq) prev).apply c b

-- A step of the encoder that stays within the destination.
record IsSafeStep (p : Step) : Type 0 where
  apply : (e : Encoder) → InBounds e.ctx → Latches e.ctx ((p e).0.ctx, (p e).1)

then_step-IsSafeStep : (p q : Step) → IsSafeStep p → IsSafeStep q → IsSafeStep (p then_step q)
then_step-IsSafeStep p q s t = record {
  apply = λ e b. ground (arith, s.apply e b, t.apply (p e).0);
}

encode_y-IsSafeStep : (k : Coding) (x y : ℕ) → IsSafeStep (encode_y k x y)
unfolding encode_y
encode_y-IsSafeStep k x y = record {
  apply = λ e b.
      encode_block-Latches (load_y_block k.frame x y) k.dq_luma k.tables.dc_luma k.tables.ac_luma
        e.prev_dc_y e.ctx b;
}

encode_cb-IsSafeStep : (k : Coding) (block : List ℤ) → IsSafeStep (encode_cb k block)
unfolding encode_cb
encode_cb-IsSafeStep k block = record {
  apply = λ e b.
      encode_block-Latches block k.dq_chroma k.tables.dc_chroma k.tables.ac_chroma e.prev_dc_cb
        e.ctx b;
}

encode_cr-IsSafeStep : (k : Coding) (block : List ℤ) → IsSafeStep (encode_cr k block)
unfolding encode_cr
encode_cr-IsSafeStep k block = record {
  apply = λ e b.
      encode_block-Latches block k.dq_chroma k.tables.dc_chroma k.tables.ac_chroma e.prev_dc_cr
        e.ctx b;
}

encode_mcu-IsSafeStep : (k : Coding) (x y : ℕ) → IsSafeStep (encode_mcu k x y)
unfolding encode_mcu
encode_mcu-IsSafeStep k x y =
    search (then_step-IsSafeStep, encode_y-IsSafeStep, encode_cb-IsSafeStep, encode_cr-IsSafeStep)
      depth 12

stop-IsSafeStep : IsSafeStep (λ e. (e, true))
stop-IsSafeStep = record { apply = λ e b. ground arith }

encode_row-IsSafeStep : (k : Coding) (n x y : ℕ) → IsSafeStep (encode_row k n x y)
unfolding encode_row
encode_row-IsSafeStep k zero x y = stop-IsSafeStep
encode_row-IsSafeStep k (suc n) x y =
    then_step-IsSafeStep _ _ (encode_mcu-IsSafeStep k x y) (encode_row-IsSafeStep k n (x + 1) y)

encode_rows-IsSafeStep : (k : Coding) (n y : ℕ) → IsSafeStep (encode_rows k n y)
unfolding encode_rows
encode_rows-IsSafeStep k zero y = stop-IsSafeStep
encode_rows-IsSafeStep k (suc n) y =
    then_step-IsSafeStep _ _ (encode_row-IsSafeStep k _ 0 y) (encode_rows-IsSafeStep k n (y + 1))

-- What the encoder leaves in a destination of `dst_size` bytes, and what it returns.
pub record IsContained (dst : List ℕ) (dst_size : ℕ) (r : ℤ × List ℕ) : Type 0 where
  pub same_length : length r.1 ≡ length dst
  pub behind : drop dst_size r.1 ≡ drop dst_size dst
  pub result : (is_negative r.0 ≡ true) ⊎ ((is_negative r.0 ≡ false) × (magnitude r.0 ≤ dst_size))

finish-IsSafe : IsSafe (flush_bits >> put_marker 0xd9)
finish-IsSafe = seq-IsSafe _ _ flush_bits-IsSafe (put_marker-IsSafe 0xd9)

-- What the writer is left with: within its bounds, and latched if not all was written.
pub encode_file-Latches :
    (tables : HuffTables) (frame : Frame) (quality : ℕ) (dst : List ℕ) (dst_size : ℕ)
    → dst_size ≤ length dst
    → Latches (fresh_ctx dst dst_size) (encode_file tables frame quality dst dst_size)
unfolding encode_file
encode_file-Latches tables frame quality dst dst_size room =
    let q_luma = build_qtable qt_luma quality in
    let q_chroma = build_qtable qt_chroma quality in
    let k : Coding = record {
      frame = frame;
      tables = tables;
      dq_luma = precompute_dct_qtable q_luma;
      dq_chroma = precompute_dct_qtable q_chroma;
    } in
    let h = write_headers frame.width frame.height q_luma q_chroma (fresh_ctx dst dst_size) in
    let start : Encoder = record {
      ctx = h.0;
      prev_dc_y = pos 0;
      prev_dc_cb = pos 0;
      prev_dc_cr = pos 0;
    } in
    let n = mcu_count frame.height in
    ground (
      arith,
      (write_headers-IsSafe frame.width frame.height q_luma q_chroma).apply (fresh_ctx dst dst_size)
          (record { buffer = room; inside = omega arith }),
      (encode_rows-IsSafeStep k n 0).apply start,
      finish-IsSafe.apply (encode_rows k n 0 start).0.ctx,
    )

pub encode_frame-IsContained :
    (tables : HuffTables) (frame : Frame) (quality : ℕ) (dst : List ℕ) (dst_size : ℕ)
    → dst_size ≤ length dst
    → IsContained dst dst_size (encode_frame tables frame quality dst dst_size)
unfolding encode_frame
encode_frame-IsContained tables frame quality dst dst_size room =
    ground (arith, encode_file-Latches tables frame quality dst dst_size room)
