-- ===== src/Codec/Writer.antt =====
-- kernel/trigger6_codec.c: `struct t6_jpeg_ctx` and the byte and bit writers over it.
-- A writer returns the context and the C function's truth value; `>>` is the `&&` of its callers, and
-- the early `return false`. The destination is an array of bytes that is written by index.
pub mod Window
pub mod Bitstring
pub mod Stream
pub mod Flush
pub mod Room
use Prim.Native.Nat.{bit_or}
use jcd543_mct_t6_linux_driv.Prelude.{
  ℕ, zero, suc, ◌+◌, ◌-◌, ◌%◌, ◌^◌, Bool, true, false, ltb, leb, ◌==◌, if◌then◌else◌, List, set,
  get_elem?, Option, none, some,
}
use jcd543_mct_t6_linux_driv.Prelude.Words.{u8, u32, ◌<<<◌, ◌>>>◌}

-- `struct t6_jpeg_ctx`
pub record JpegCtx : Type 0 where
  pub dst : List ℕ
  pub dst_size : ℕ
  pub pos : ℕ
  pub bitbuf : ℕ
  pub bitcnt : ℕ
  pub overflow : Bool

abbrev pub Writer : Type 0
Writer = JpegCtx → JpegCtx × Bool

infixl 5 ◌>>◌
abbrev pub ◌>>◌ : Writer → Writer → Writer
◌>>◌ p q c = let (c', ok) = p c in if ok then q c' else (c', false)

abbrev pub succeed : Writer
succeed c = (c, true)

unfoldable pub put_byte : ℕ → Writer
put_byte value c =
    if leb c.dst_size c.pos
    then (record c { overflow = true }, false)
    else (record c { dst = set c.dst c.pos value; pos = c.pos + 1 }, true)

unfoldable pub put_marker : ℕ → Writer
put_marker marker = put_byte 0xff >> put_byte marker

unfoldable pub put_be16 : ℕ → Writer
put_be16 value = put_byte (u8 (value >>> 8)) >> put_byte (value % 2 ^ 8)

-- A 0xff byte of the scan is followed by a stuffed 0x00.
unfoldable pub put_scan_byte : ℕ → Writer
put_scan_byte value = put_byte value >> (if value == 0xff then put_byte 0x00 else succeed)

-- The `while (ctx->bitcnt >= 8)` loop of `t6_jpeg_put_bits`, on fuel.
unfoldable pub drain : ℕ → Writer
drain zero c = (c, true)
drain (suc fuel) c =
    let rest = λ (c' : JpegCtx).
      drain fuel (record c' { bitbuf = u32 (c'.bitbuf <<< 8); bitcnt = c'.bitcnt - 8 }) in
    if leb 8 c.bitcnt then (put_scan_byte (u8 (c.bitbuf >>> 24)) >> rest) c else (c, true)

-- The bit buffer after `ctx->bitbuf |= (u32)code << (32 - ctx->bitcnt - size)`.
unfoldable pub add_code : ℕ → ℕ → JpegCtx → JpegCtx
add_code code size c = record c {
  bitbuf = bit_or c.bitbuf (u32 (code <<< (32 - c.bitcnt - size)));
  bitcnt = c.bitcnt + size;
}

-- Each round takes 8 off `bitcnt`, so `bitcnt` rounds are enough.
unfoldable pub put_bits : ℕ → ℕ → Writer
unfolding add_code drain
put_bits code size c =
    if size == 0 then (c, true) else (let c' = add_code code size c in drain c'.bitcnt c')

-- The bit buffer after `ctx->bitbuf |= (1U << (32 - ctx->bitcnt)) - 1`.
unfoldable pub pad_ones : JpegCtx → JpegCtx
pad_ones c = record c { bitbuf = bit_or c.bitbuf ((1 <<< (32 - c.bitcnt)) - 1) }

unfoldable pub flush_bits : Writer
unfolding pad_ones
flush_bits c =
    if c.bitcnt == 0
    then (c, true)
    else (let c' = pad_ones c in put_scan_byte (u8 (c'.bitbuf >>> 24)) c')
