-- ===== src/Codec/Bounds.antt =====
-- kernel/trigger6_codec.c: the encoder never writes behind the destination, whatever its size and the frame.
pub mod Scan
pub mod Call
use jcd543_mct_t6_linux_driv.Prelude.{
  ℕ, zero, suc, ◌+◌, ◌-◌, ◌*◌, ◌≤◌, ◌<◌, ◌≡◌, refl, Bool, true, false, List, [], ◌∷◌, arith, inl,
  inr, ◌⊎◌, length, length-set, drop-set, Bool-cases, if◌then◌else◌, ◌==◌, leb, get_or,
}
use jcd543_mct_t6_linux_driv.Prelude.Words.{u8, ◌>>>◌}
use jcd543_mct_t6_linux_driv.Codec.Writer.{
  JpegCtx, Writer, ◌>>◌, succeed, put_byte, put_marker, put_be16, put_scan_byte, put_bits,
  flush_bits, pad_ones,
}
use jcd543_mct_t6_linux_driv.Codec.Writer.Room.{
  InBounds, Latches, put_bits-Latches, put_scan_byte-Latches,
}
use jcd543_mct_t6_linux_driv.Codec.Headers.{
  put_all, put_counts, put_app0, put_qtable, put_frame, put_huffman, put_scan_header, write_headers,
}

-- A writer that stays within the destination.
pub record IsSafe (w : Writer) : Type 0 where
  pub apply : (c : JpegCtx) → InBounds c → Latches c (w c)

pub seq-IsSafe : (p q : Writer) → IsSafe p → IsSafe q → IsSafe (p >> q)
seq-IsSafe p q s t = record { apply = λ c b. ground (arith, s.apply c b, t.apply (p c).0) }

pub succeed-IsSafe : IsSafe succeed
succeed-IsSafe = record { apply = λ c b. ground arith }

pub if-IsSafe : (b : Bool) (p q : Writer) → IsSafe p → IsSafe q → IsSafe (if b then p else q)
if-IsSafe true p q s t = s
if-IsSafe false p q s t = t

pub put_byte-IsSafe : (v : ℕ) → IsSafe (put_byte v)
unfolding put_byte
put_byte-IsSafe v = record {
  apply = λ c b. ground (arith, length-set c.dst c.pos v, drop-set c.dst c.dst_size c.pos v);
}

put_marker-IsSafe : (v : ℕ) → IsSafe (put_marker v)
unfolding put_marker
put_marker-IsSafe v =
    seq-IsSafe (put_byte 0xff) (put_byte v) (put_byte-IsSafe 0xff) (put_byte-IsSafe v)

put_be16-IsSafe : (v : ℕ) → IsSafe (put_be16 v)
unfolding put_be16
put_be16-IsSafe v = seq-IsSafe _ _ (put_byte-IsSafe _) (put_byte-IsSafe _)

put_all-IsSafe : (bs : List ℕ) → IsSafe (put_all bs)
unfolding put_all
put_all-IsSafe [] = succeed-IsSafe
put_all-IsSafe (b ∷ bs) = seq-IsSafe _ _ (put_byte-IsSafe b) (put_all-IsSafe bs)

put_counts-IsSafe : (bs : List ℕ) → IsSafe (put_counts bs)
unfolding put_counts
put_counts-IsSafe [] = succeed-IsSafe
put_counts-IsSafe (b ∷ bs) = put_all-IsSafe bs

put_app0-IsSafe : IsSafe put_app0
unfolding put_app0
put_app0-IsSafe = search (seq-IsSafe, put_byte-IsSafe, put_marker-IsSafe, put_be16-IsSafe) depth 20

put_qtable-IsSafe : (id : ℕ) (q : List ℕ) → IsSafe (put_qtable id q)
unfolding put_qtable
put_qtable-IsSafe id q =
    search (seq-IsSafe, put_byte-IsSafe, put_marker-IsSafe, put_be16-IsSafe, put_all-IsSafe) depth
      20

put_frame-IsSafe : (width height : ℕ) → IsSafe (put_frame width height)
unfolding put_frame
put_frame-IsSafe width height =
    search (seq-IsSafe, put_byte-IsSafe, put_marker-IsSafe, put_be16-IsSafe) depth 20

put_huffman-IsSafe : (size id : ℕ) (bits vals : List ℕ) → IsSafe (put_huffman size id bits vals)
unfolding put_huffman
put_huffman-IsSafe size id bits vals =
    search
      (
        seq-IsSafe, put_byte-IsSafe, put_marker-IsSafe, put_be16-IsSafe, put_all-IsSafe,
        put_counts-IsSafe,
      )
      depth 20

put_scan_header-IsSafe : IsSafe put_scan_header
unfolding put_scan_header
put_scan_header-IsSafe =
    search (seq-IsSafe, put_byte-IsSafe, put_marker-IsSafe, put_be16-IsSafe) depth 20

pub write_headers-IsSafe :
    (width height : ℕ) (q_luma q_chroma : List ℕ)
    → IsSafe (write_headers width height q_luma q_chroma)
unfolding write_headers
write_headers-IsSafe width height q_luma q_chroma =
    search
      (
        seq-IsSafe, put_marker-IsSafe, put_app0-IsSafe, put_qtable-IsSafe, put_frame-IsSafe,
        put_huffman-IsSafe, put_scan_header-IsSafe,
      )
      depth 20

pub put_bits-IsSafe : (code size : ℕ) → IsSafe (put_bits code size)
put_bits-IsSafe code size = record { apply = put_bits-Latches code size }

pub flush_bits-IsSafe : IsSafe flush_bits
unfolding flush_bits pad_ones
flush_bits-IsSafe = record {
  apply =
      λ c b. ground (arith, put_scan_byte-Latches (u8 ((pad_ones c).bitbuf >>> 24)) (pad_ones c));
}
