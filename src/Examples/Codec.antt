-- ===== src/Examples/Codec.antt =====
-- kernel/trigger6_codec.c: the bit writer on a small destination, and the converter's colours on one pixel.
use jcd543_mct_t6_linux_driv.Prelude.{
  ℕ, ◌≤◌, ◌<◌, ◌≡◌, refl, true, false, List, [], ◌∷◌, ◌++◌, length, replicate, arith,
}
use jcd543_mct_t6_linux_driv.Codec.Writer.{JpegCtx, put_byte, put_scan_byte, put_bits, flush_bits}
use jcd543_mct_t6_linux_driv.Codec.Writer.Bitstring.{bits}
use jcd543_mct_t6_linux_driv.Codec.Writer.Stream.{IsScan, put_bits-IsScan}
use jcd543_mct_t6_linux_driv.Codec.Writer.Flush.{decoded, flush_bits-decoded}
use jcd543_mct_t6_linux_driv.Codec.Nv12.{luma_byte, u_byte, v_byte}
use jcd543_mct_t6_linux_driv.Codec.Nv12.Range.{nv12_studio_range}

-- A context behind two bytes of headers, with four bytes left.
abbrev start_ctx : JpegCtx
start_ctx = record {
  dst = 0xff ∷ 0xd8 ∷ 0 ∷ 0 ∷ 0 ∷ 0 ∷ [];
  dst_size = 6;
  pos = 2;
  bitbuf = 0;
  bitcnt = 0;
  overflow = false;
}

-- The context with nine ones written: a byte that is stuffed, and a bit.
abbrev nine_ones : JpegCtx
nine_ones = record {
  dst = 0xff ∷ 0xd8 ∷ 0xff ∷ 0 ∷ 0 ∷ 0 ∷ [];
  dst_size = 6;
  pos = 4;
  bitbuf = 2147483648;
  bitcnt = 1;
  overflow = false;
}

abbrev flushed : JpegCtx
flushed = record nine_ones {
  dst = 0xff ∷ 0xd8 ∷ 0xff ∷ 0 ∷ 0xff ∷ 0 ∷ [];
  pos = 6;
  bitbuf = 4294967295;
}

abbrev headers : List ℕ
headers = 0xff ∷ 0xd8 ∷ []

start-IsScan : IsScan headers [] start_ctx
start-IsScan = record {
  bytes = [];
  rem = 0;
  room = omega arith;
  written = refl;
  pending = omega arith;
  buffered = refl;
  given = refl;
}

nine_ones-IsScan : IsScan headers (bits 9 511) nine_ones
nine_ones-IsScan = record {
  bytes = 255 ∷ [];
  rem = 1;
  room = omega arith;
  written = refl;
  pending = omega arith;
  buffered = refl;
  given = refl;
}

put_nine : put_bits 511 9 start_ctx ≡ (nine_ones, true)
unfolding put_bits put_scan_byte put_byte
put_nine = refl

flush_one : flush_bits nine_ones ≡ (flushed, true)
unfolding flush_bits put_scan_byte put_byte
flush_one = refl

put_bits-IsScan_example : IsScan headers ([] ++ bits 9 511) nine_ones × (nine_ones.bitcnt < 8)
put_bits-IsScan_example =
    put_bits-IsScan headers [] 511 9 start_ctx nine_ones (omega arith) (omega arith) (omega arith)
      start-IsScan put_nine

flush_bits-decoded_example : decoded (length headers) flushed ≡ bits 9 511 ++ replicate 7 1
flush_bits-decoded_example =
    flush_bits-decoded headers (bits 9 511) nine_ones flushed (omega arith) nine_ones-IsScan
      flush_one

nv12_studio_range_example :
    ((16 ≤ luma_byte 0x00ff8000) × (luma_byte 0x00ff8000 ≤ 235))
    × ((16 ≤ u_byte 0x00ff8000) × (u_byte 0x00ff8000 ≤ 240))
    × ((16 ≤ v_byte 0x00ff8000) × (v_byte 0x00ff8000 ≤ 240))
nv12_studio_range_example = nv12_studio_range 0x00ff8000
