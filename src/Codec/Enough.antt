-- ===== src/Codec/Enough.antt =====
-- kernel/trigger6_codec.c: how much room a writer needs to succeed.
pub mod Blocks
use jcd543_mct_t6_linux_driv.Prelude.{
  ℕ, zero, suc, ◌+◌, ◌-◌, ◌*◌, ◌/◌, ◌%◌, ◌^◌, ◌≤◌, ◌<◌, ◌≡◌, refl, Bool, true, false, List, [], ◌∷◌,
  map, length, get_or, arith, drop,
}
use jcd543_mct_t6_linux_driv.Prelude.Words.{u8, u16, u32, ◌<<<◌, ◌>>>◌}
use jcd543_mct_t6_linux_driv.Codec.Tables.{
  zigzag, dc_luma_bits, dc_luma_vals, ac_luma_bits, ac_luma_vals, dc_chroma_bits, dc_chroma_vals,
  ac_chroma_bits, ac_chroma_vals,
}
use jcd543_mct_t6_linux_driv.Codec.Writer.{
  JpegCtx, Writer, ◌>>◌, succeed, put_byte, put_marker, put_be16, put_scan_byte, drain, add_code,
  put_bits, flush_bits, pad_ones,
}
use jcd543_mct_t6_linux_driv.Codec.Headers.{
  put_all, put_counts, put_app0, put_qtable, put_frame, put_huffman, put_scan_header, write_headers,
}

-- Between two writers fewer than eight bits are pending, and nothing has failed.
pub record IsClean (c : JpegCtx) : Type 0 where
  pub few : c.bitcnt < 8
  pub fine : c.overflow ≡ false

-- A success that has written at most `n` bytes.
pub record IsDone (n : ℕ) (c : JpegCtx) (r : JpegCtx × Bool) : Type 0 where
  pub ok : r.1 ≡ true
  pub clean : IsClean r.0
  pub used : r.0.pos ≤ c.pos + n
  pub same_size : r.0.dst_size ≡ c.dst_size

-- A writer that succeeds with room for `n` bytes.
pub record Needs (n : ℕ) (w : Writer) : Type 0 where
  pub apply : (c : JpegCtx) → IsClean c → c.pos + n ≤ c.dst_size → IsDone n c (w c)

infixr 5 ◌then_needs◌
pub ◌then_needs◌ : {m n : ℕ} {p q : Writer} → Needs m p → Needs n q → Needs (m + n) (p >> q)
◌then_needs◌ {p} s t = record { apply = λ c k h. ground (arith, s.apply c k, t.apply (p c).0) }

pub Needs-le : {m n : ℕ} {w : Writer} → Needs m w → m ≤ n → Needs n w
Needs-le s l = record { apply = λ c k h. ground (arith, s.apply c k) }

pub succeed-Needs : Needs 0 succeed
succeed-Needs = record { apply = λ c k h. ground arith }

pub put_byte-Needs : (v : ℕ) → Needs 1 (put_byte v)
unfolding put_byte
put_byte-Needs v = record { apply = λ c k h. ground arith }

scan_byte_room :
    (v : ℕ) (c : JpegCtx)
    → c.pos + 2 ≤ c.dst_size
    → let (d, ok) = put_scan_byte v c in
      (ok ≡ true)
      × (d.pos ≤ c.pos + 2)
      × (d.dst_size ≡ c.dst_size)
      × (d.bitcnt ≡ c.bitcnt)
      × (d.overflow ≡ c.overflow)
unfolding put_scan_byte put_byte
scan_byte_room v c h = ground arith

drain_room :
    (fuel : ℕ) (c : JpegCtx)
    → c.overflow ≡ false
    → c.bitcnt ≤ fuel
    → c.pos + 2 * (c.bitcnt / 8) ≤ c.dst_size
    → IsDone (2 * (c.bitcnt / 8)) c (drain fuel c)
unfolding drain
drain_room zero c f h r = ground arith
drain_room (suc fuel) c f h r =
    let (d, ok) = put_scan_byte (u8 (c.bitbuf >>> 24)) c in
    ground (
      arith,
      scan_byte_room (u8 (c.bitbuf >>> 24)) c,
      drain_room fuel (record d { bitbuf = u32 (d.bitbuf <<< 8); bitcnt = d.bitcnt - 8 }),
    )

pub put_bits-Needs : (code size : ℕ) → size ≤ 16 → Needs 4 (put_bits code size)
unfolding put_bits add_code
put_bits-Needs code size s = record {
  apply = λ c k h.
      ground
        (arith, k.few, k.fine, drain_room (add_code code size c).bitcnt (add_code code size c));
}

pub flush_bits-Needs : Needs 2 flush_bits
unfolding flush_bits pad_ones
flush_bits-Needs = record {
  apply = λ c k h.
      ground (arith, k.few, k.fine, scan_byte_room (u8 ((pad_ones c).bitbuf >>> 24)) (pad_ones c));
}

pub put_marker-Needs : (m : ℕ) → Needs 2 (put_marker m)
unfolding put_marker
put_marker-Needs m = put_byte-Needs 0xff then_needs put_byte-Needs m

put_be16-Needs : (v : ℕ) → Needs 2 (put_be16 v)
unfolding put_be16
put_be16-Needs v = put_byte-Needs (u8 (v >>> 8)) then_needs put_byte-Needs (v % 2 ^ 8)

put_all-Needs : (bs : List ℕ) → Needs (length bs) (put_all bs)
unfolding put_all
put_all-Needs [] = succeed-Needs
put_all-Needs (b ∷ bs) = Needs-le (put_byte-Needs b then_needs put_all-Needs bs) (omega arith)

put_app0-Needs : Needs 18 put_app0
unfolding put_app0
put_app0-Needs =
    put_marker-Needs 0xe0
    then_needs put_be16-Needs 16
    then_needs put_byte-Needs b'J'
    then_needs put_byte-Needs b'F'
    then_needs put_byte-Needs b'I'
    then_needs put_byte-Needs b'F'
    then_needs put_byte-Needs 0x00
    then_needs put_be16-Needs 0x0101
    then_needs put_byte-Needs 0x00
    then_needs put_be16-Needs 1
    then_needs put_be16-Needs 1
    then_needs put_byte-Needs 0x00
    then_needs put_byte-Needs 0x00

put_qtable-Needs : (id : ℕ) (q : List ℕ) → Needs 69 (put_qtable id q)
unfolding put_qtable
put_qtable-Needs id q =
    put_marker-Needs 0xdb
    then_needs put_be16-Needs 67
    then_needs put_byte-Needs id
    then_needs put_all-Needs (map (λ i. get_or q i 0) zigzag)

put_frame-Needs : (width height : ℕ) → Needs 19 (put_frame width height)
unfolding put_frame
put_frame-Needs width height =
    put_marker-Needs 0xc0
    then_needs put_be16-Needs 17
    then_needs put_byte-Needs 8
    then_needs put_be16-Needs (u16 height)
    then_needs put_be16-Needs (u16 width)
    then_needs put_byte-Needs 3
    then_needs put_byte-Needs 1
    then_needs put_byte-Needs 0x22
    then_needs put_byte-Needs 0x00
    then_needs put_byte-Needs 2
    then_needs put_byte-Needs 0x11
    then_needs put_byte-Needs 0x01
    then_needs put_byte-Needs 3
    then_needs put_byte-Needs 0x11
    then_needs put_byte-Needs 0x01

put_huffman-Needs :
    (size id b : ℕ) (bits vals : List ℕ)
    → Needs (2 + (2 + (1 + (length bits + length vals)))) (put_huffman size id (b ∷ bits) vals)
unfolding put_huffman put_counts
put_huffman-Needs size id b bits vals =
    put_marker-Needs 0xc4
    then_needs put_be16-Needs size
    then_needs put_byte-Needs id
    then_needs put_all-Needs bits
    then_needs put_all-Needs vals

put_scan_header-Needs : Needs 14 put_scan_header
unfolding put_scan_header
put_scan_header-Needs =
    put_marker-Needs 0xda
    then_needs put_be16-Needs 12
    then_needs put_byte-Needs 3
    then_needs put_byte-Needs 1
    then_needs put_byte-Needs 0x00
    then_needs put_byte-Needs 2
    then_needs put_byte-Needs 0x11
    then_needs put_byte-Needs 3
    then_needs put_byte-Needs 0x11
    then_needs put_byte-Needs 0x00
    then_needs put_byte-Needs 0x3f
    then_needs put_byte-Needs 0x00

pub write_headers-Needs :
    (width height : ℕ) (q_luma q_chroma : List ℕ)
    → Needs 623 (write_headers width height q_luma q_chroma)
unfolding write_headers
write_headers-Needs width height q_luma q_chroma =
    put_marker-Needs 0xd8
    then_needs put_app0-Needs
    then_needs put_qtable-Needs 0x00 q_luma
    then_needs put_qtable-Needs 0x01 q_chroma
    then_needs put_frame-Needs width height
    then_needs put_huffman-Needs 31 0x00 0 (drop 1 dc_luma_bits) dc_luma_vals
    then_needs put_huffman-Needs 181 0x10 0 (drop 1 ac_luma_bits) ac_luma_vals
    then_needs put_huffman-Needs 31 0x01 0 (drop 1 dc_chroma_bits) dc_chroma_vals
    then_needs put_huffman-Needs 181 0x11 0 (drop 1 ac_chroma_bits) ac_chroma_vals
    then_needs put_scan_header-Needs
