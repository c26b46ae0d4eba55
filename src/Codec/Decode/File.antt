-- ===== src/Codec/Decode/File.antt =====
-- kernel/trigger6_codec.c: what `t6_jpeg_encode_xrgb8888` returns is a JPEG file of the frame.
use mathlib.Core.Path.{subst}
use mathlib.Core.List.{append_assoc, append-nil}
use jcd543_mct_t6_linux_driv.Prelude.{
  ℕ, ◌-◌, ◌%◌, ◌^◌, ◌≤◌, ◌<◌, ◌≡◌, refl, sym, ap, ◌∙◌, Bool, true, false, not, if◌then◌else◌, List,
  [], ◌∷◌, ◌++◌, arith, some, length, take, replicate,
}
use jcd543_mct_t6_linux_driv.Prelude.Int.{pos, to_int}
use jcd543_mct_t6_linux_driv.Prelude.Kernel.{div_round_up}
use jcd543_mct_t6_linux_driv.Prelude.Errno.{e2big}
use jcd543_mct_t6_linux_driv.Codec.Tables.{qt_luma, qt_chroma}
use jcd543_mct_t6_linux_driv.Codec.Huffman.{built_tables}
use jcd543_mct_t6_linux_driv.Codec.Quant.{build_qtable}
use jcd543_mct_t6_linux_driv.Codec.Quant.Range.{AllWithin, build_qtable_better}
use jcd543_mct_t6_linux_driv.Codec.Quant.Span.{zero-IsWithin}
use jcd543_mct_t6_linux_driv.Codec.Sample.{Frame}
use jcd543_mct_t6_linux_driv.Codec.Headers.{write_headers}
use jcd543_mct_t6_linux_driv.Codec.Writer.{JpegCtx, ◌>>◌, flush_bits, put_marker}
use jcd543_mct_t6_linux_driv.Codec.Writer.Bitstring.{bits, bits_of, stuff}
use jcd543_mct_t6_linux_driv.Codec.Writer.Stream.{
  HasRoom, HasRoom-Appends, Appends, IsScan, >>-true,
}
use jcd543_mct_t6_linux_driv.Codec.Writer.Flush.{flush_bits-IsEnded}
use jcd543_mct_t6_linux_driv.Codec.Encode.{
  Encoder, encode_rows, mcu_count, fresh_ctx, encode_file, encode_frame,
}
use jcd543_mct_t6_linux_driv.Codec.Decode.Header.{header_bytes, write_headers-Puts, put_marker-Puts}
use jcd543_mct_t6_linux_driv.Codec.Decode.Scan.{Prediction, read_rows}
use jcd543_mct_t6_linux_driv.Codec.Decode.Scan.Steps.{
  coding_of, rows_blocks, encode_rows-Sends, mcu_count_small,
}
use jcd543_mct_t6_linux_driv.Codec.Writer.Room.{Latches}
use jcd543_mct_t6_linux_driv.Codec.Bounds.Scan.{encode_file-Latches}

abbrev pub no_prediction : Prediction
no_prediction = record { y = pos 0; cb = pos 0; cr = pos 0 }

-- The `n` bytes at the front of a buffer are a JPEG file of the frame at a quality: the segments before the scan,
-- the scan with its stuffed zeros, and the end marker. A decoder reads the whole of the scan, up to a padding of ones shorter
-- than a byte, as the quantised coefficients of each block of the frame, in the order of the standard.
pub record IsJpeg (frame : Frame) (quality n : ℕ) (out : List ℕ) : Type 0 where
  pub scan : List ℕ
  pub pad : ℕ
  pub short : pad < 8
  pub last : Prediction
  pub file :
      take n out
      ≡ header_bytes frame.width frame.height
          (build_qtable qt_luma quality)
          (build_qtable qt_chroma quality)
        ++ stuff scan
        ++ 0xff ∷ 0xd9 ∷ []
  pub blocks :
      read_rows
        (div_round_up frame.width 16)
        (div_round_up frame.height 16)
        no_prediction
        (bits_of scan)
      ≡ some (
        (
          last,
          rows_blocks frame
              (build_qtable qt_luma quality)
              (build_qtable qt_chroma quality)
              (div_round_up frame.height 16)
              0,
        ),
        replicate pad 1,
      )

-- The scan begins behind the headers.
headers-IsScan :
    (header dst : List ℕ) (dst_size : ℕ) (c : JpegCtx)
    → HasRoom (fresh_ctx dst dst_size)
    → Appends header (fresh_ctx dst dst_size) c
    → IsScan header [] c × (c.bitcnt < 8)
headers-IsScan header dst dst_size c room a =
    let none_pending : c.bitcnt ≡ 0 = a.same_bitcnt in
    (
      record {
        bytes = [];
        rem = 0;
        room = HasRoom-Appends room a;
        written = a.written ∙ sym (append-nil header);
        pending = rw none_pending (omega arith);
        buffered = a.same_bitbuf ∙ omega arith;
        given = ap (λ (t : ℕ). bits t 0) none_pending;
      },
      omega (arith, none_pending),
    )

-- The end of the scan, and the end marker.
finish :
    (header bs : List ℕ) (c f : JpegCtx)
    → IsScan header bs c
    → c.bitcnt < 8
    → (flush_bits >> put_marker 0xd9) c ≡ (f, true)
    → (scan : List ℕ) × (pad : ℕ) × (pad < 8)
      × (take f.pos f.dst ≡ header ++ stuff scan ++ 0xff ∷ 0xd9 ∷ [])
      × (bits_of scan ≡ bs ++ replicate pad 1)
finish header bs c f s few h =
    let (d, flushed, marked) = >>-true flush_bits (put_marker 0xd9) c f h in
    let e = flush_bits-IsEnded header bs c d few s flushed in
    let a = (put_marker-Puts 0xd9).apply d f e.room marked in
    (
      e.bytes,
      (8 - c.bitcnt) % 8,
      omega arith,
      a.written ∙ ap (λ (t : List ℕ). t ++ 0xff ∷ 0xd9 ∷ []) e.written,
      e.given,
    )

-- A length below 2 GiB is returned only if the end is reached.
ended_true :
    (r : JpegCtx × Bool) (n : ℕ)
    → r.0.pos < 2 ^ 31
    → (let (f, ended) = r in
        if not ended then e2big else if f.overflow then e2big else to_int f.pos)
      ≡ pos n
    → (r ≡ (r.0, true)) × (r.0.pos ≡ n)
ended_true (f, true) n small h =
    let same : to_int f.pos ≡ pos f.pos = ground arith in (refl, ground arith)
ended_true (f, false) n small h = absurd (cc h)

guarded_true {ℓ} :
    {A : Type ℓ} (b : Bool) (r : A × Bool) (d : A)
    → (if b then r else (d, false)) ≡ ((if b then r else (d, false)).0, true)
    → (b ≡ true) × (r ≡ ((if b then r else (d, false)).0, true))
guarded_true true r d h = (refl, h)
guarded_true {A = A} false r d h = absurd (cc (ap (λ (s : A × Bool). s.1) h))

pub tables_within :
    (quality : ℕ)
    → AllWithin 1 255 (build_qtable qt_luma quality)
      × AllWithin 1 255 (build_qtable qt_chroma quality)
tables_within quality =
    let (luma, l) = build_qtable_better qt_luma quality quality (omega arith) (omega arith) in
    let (chroma, c) = build_qtable_better qt_chroma quality quality (omega arith) (omega arith) in
    (luma, chroma)

-- The whole of the scan, from the headers on to the end marker.
scanned-IsJpeg :
    (frame : Frame) (quality : ℕ) (c : JpegCtx) (e : Encoder) (f : JpegCtx)
    → (let ql = build_qtable qt_luma quality in
        let qc = build_qtable qt_chroma quality in
        frame.width ≤ 65535
        → frame.height ≤ 65535
        → IsScan (header_bytes frame.width frame.height ql qc) [] c
        → c.bitcnt < 8
        → encode_rows
            (coding_of frame ql qc)
            (mcu_count frame.height)
            0
            (record { ctx = c; prev_dc_y = pos 0; prev_dc_cb = pos 0; prev_dc_cr = pos 0 })
          ≡ (e, true)
        → (flush_bits >> put_marker 0xd9) e.ctx ≡ (f, true)
        → IsJpeg frame quality f.pos f.dst)
scanned-IsJpeg frame quality c e f narrow low s few coded done =
    let ql : List ℕ = build_qtable qt_luma quality in
    let qc : List ℕ = build_qtable qt_chroma quality in
    let header : List ℕ = header_bytes frame.width frame.height ql qc in
    let high : ℕ = div_round_up frame.height 16 in
    let rows : mcu_count frame.height ≡ high = mcu_count_small frame.height (omega arith) in
    let coded_rows = rw rows at coded in
    let (wl, wc) = tables_within quality in
    let zero_range = zero-IsWithin 1024 1016 in
    let sends =
      (encode_rows-Sends frame ql qc wl wc high 0 narrow).from no_prediction
        (record { y = zero_range; cb = zero_range; cr = zero_range }) in
    let (scanned, left, same) = sends.emits header [] _ e refl s few coded_rows in
    let (scan, pad, short, file, given) = finish header sends.sent e.ctx f scanned left done in
    record {
      scan = scan;
      pad = pad;
      short = short;
      last = sends.after;
      file = file ∙ append_assoc header (stuff scan) (0xff ∷ 0xd9 ∷ []);
      blocks = rw given (sends.reads (replicate pad 1));
    }

-- When the encoder of a frame with the built tables and a buffer below 2 GiB returns a length, that many bytes at the front of the buffer are
-- a JPEG file of the frame.
pub encode_frame-IsJpeg :
    (frame : Frame) (quality : ℕ) (dst : List ℕ) (dst_size n : ℕ)
    → frame.width ≤ 65535
    → frame.height ≤ 65535
    → dst_size ≤ length dst
    → dst_size < 2 ^ 31
    → (encode_frame built_tables frame quality dst dst_size).0 ≡ pos n
    → IsJpeg frame quality n (encode_frame built_tables frame quality dst dst_size).1
unfolding encode_frame encode_file
encode_frame-IsJpeg frame quality dst dst_size n narrow low room limit returned =
    let ql : List ℕ = build_qtable qt_luma quality in
    let qc : List ℕ = build_qtable qt_chroma quality in
    let h : JpegCtx × Bool =
      write_headers frame.width frame.height ql qc (fresh_ctx dst dst_size) in
    let start : Encoder = record {
      ctx = h.0;
      prev_dc_y = pos 0;
      prev_dc_cb = pos 0;
      prev_dc_cr = pos 0;
    } in
    let rows : Encoder × Bool =
      encode_rows (coding_of frame ql qc) (mcu_count frame.height) 0 start in
    let r : Encoder × Bool = if h.1 then rows else (start, false) in
    let ending : JpegCtx × Bool = (flush_bits >> put_marker 0xd9) r.0.ctx in
    let s : JpegCtx × Bool = if r.1 then ending else (r.0.ctx, false) in
    let kept : Latches (fresh_ctx dst dst_size) s =
      encode_file-Latches built_tables frame quality dst dst_size room in
    let small : s.0.pos < 2 ^ 31 = omega (arith, kept.bounds.inside, kept.same_size, limit) in
    let (ended, length) = ended_true s n small returned in
    let (encoded, marked) = guarded_true r.1 ending r.0.ctx ended in
    let (headed, coded) = guarded_true h.1 rows start (ap (λ (b : Bool). (r.0, b)) encoded) in
    let a =
      (write_headers-Puts frame.width frame.height ql qc).apply (fresh_ctx dst dst_size) h.0 room
        (ap (λ (b : Bool). (h.0, b)) headed) in
    let (scan, few) = headers-IsScan _ dst dst_size h.0 room a in
    subst (λ (m : ℕ). IsJpeg frame quality m s.0.dst) length
      (scanned-IsJpeg frame quality h.0 r.0 s.0 narrow low scan few coded marked)
