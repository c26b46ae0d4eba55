-- ===== src/Codec/Writer/Room.antt =====
-- kernel/trigger6_codec.c: the bit writer stays inside the destination, and latches `overflow` when it fails.
use jcd543_mct_t6_linux_driv.Prelude.{
  ℕ, zero, suc, ◌+◌, ◌-◌, ◌≤◌, ◌≡◌, Bool, true, arith, length, set, length-set, drop, drop-set, ◌⊎◌,
}
use jcd543_mct_t6_linux_driv.Prelude.Words.{u8, u32, ◌<<<◌, ◌>>>◌}
use jcd543_mct_t6_linux_driv.Codec.Writer.{
  JpegCtx, put_byte, put_scan_byte, drain, add_code, put_bits,
}

-- The writer has not passed the end of the destination.
pub record InBounds (c : JpegCtx) : Type 0 where
  pub buffer : c.dst_size ≤ length c.dst
  pub inside : c.pos ≤ c.dst_size

-- A writer that keeps the bounds, the size and all bytes behind the destination, and latches `overflow` if it fails.
pub record Latches (c : JpegCtx) (r : JpegCtx × Bool) : Type 0 where
  pub bounds : InBounds r.0
  pub same_size : r.0.dst_size ≡ c.dst_size
  pub same_length : length r.0.dst ≡ length c.dst
  pub behind : drop c.dst_size r.0.dst ≡ drop c.dst_size c.dst
  pub latched : (r.1 ≡ true) ⊎ (r.0.overflow ≡ true)

pub put_scan_byte-Latches : (v : ℕ) (c : JpegCtx) → InBounds c → Latches c (put_scan_byte v c)
unfolding put_scan_byte put_byte
put_scan_byte-Latches v c b = ground (
  arith,
  length-set c.dst c.pos v,
  length-set (set c.dst c.pos v) (c.pos + 1) 0,
  drop-set c.dst c.dst_size c.pos v,
  drop-set (set c.dst c.pos v) c.dst_size (c.pos + 1) 0,
)

drain-Latches : (fuel : ℕ) (c : JpegCtx) → InBounds c → Latches c (drain fuel c)
unfolding drain
drain-Latches zero c b = ground arith
drain-Latches (suc fuel) c b =
    let (d, ok) = put_scan_byte (u8 (c.bitbuf >>> 24)) c in
    ground (
      arith,
      put_scan_byte-Latches (u8 (c.bitbuf >>> 24)) c,
      drain-Latches fuel (record d { bitbuf = u32 (d.bitbuf <<< 8); bitcnt = d.bitcnt - 8 }),
    )

-- From a position within the destination, `t6_jpeg_put_bits` ends within it, with the length of the buffer,
-- `dst_size` and all bytes behind it unchanged, and when it fails `overflow` is set.
pub put_bits-Latches : (code size : ℕ) (c : JpegCtx) → InBounds c → Latches c (put_bits code size c)
unfolding put_bits
put_bits-Latches code size c b =
    ground (arith, drain-Latches (add_code code size c).bitcnt (add_code code size c))
