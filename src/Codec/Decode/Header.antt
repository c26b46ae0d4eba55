-- ===== src/Codec/Decode/Header.antt =====
-- kernel/trigger6_codec.c: the segments before the scan, as the JPEG standard lays them out.
use mathlib.Core.Path.{subst}
use jcd543_mct_t6_linux_driv.Prelude.{
  ℕ, ◌+◌, ◌/◌, ◌%◌, ◌^◌, ◌≡◌, ap, Bool, true, List, [], ◌∷◌, ◌++◌, map, get_or, length, drop,
}
use jcd543_mct_t6_linux_driv.Prelude.Words.{u8, u16, ◌>>>◌}
use jcd543_mct_t6_linux_driv.Codec.Tables.{
  zigzag, dc_luma_bits, dc_luma_vals, ac_luma_bits, ac_luma_vals, dc_chroma_bits, dc_chroma_vals,
  ac_chroma_bits, ac_chroma_vals,
}
use jcd543_mct_t6_linux_driv.Codec.Writer.{
  JpegCtx, Writer, ◌>>◌, succeed, put_byte, put_marker, put_be16,
}
use jcd543_mct_t6_linux_driv.Codec.Writer.Stream.{
  HasRoom, Appends, put_byte-Appends, Appends-refl, Appends-trans, HasRoom-Appends, >>-true,
}
use jcd543_mct_t6_linux_driv.Codec.Headers.{
  put_all, put_counts, put_app0, put_qtable, put_frame, put_huffman, put_scan_header, write_headers,
}

-- A writer which, when it succeeds, appends the bytes `out`.
pub record Puts (w : Writer) (out : List ℕ) : Type 0 where
  pub apply : (c c' : JpegCtx) → HasRoom c → w c ≡ (c', true) → Appends out c c'

put_byte-Puts : (v : ℕ) → Puts (put_byte v) (v ∷ [])
put_byte-Puts v = record { apply = put_byte-Appends v }

succeed-Puts : Puts succeed []
succeed-Puts = record {
  apply = λ c c' r h. subst (Appends [] c) (ap (λ (s : JpegCtx × Bool). s.0) h) (Appends-refl c);
}

infixr 5 ◌then_puts◌
◌then_puts◌ : {p q : Writer} {xs ys : List ℕ} → Puts p xs → Puts q ys → Puts (p >> q) (xs ++ ys)
◌then_puts◌ {p} {q} a b = record {
  apply = λ c c' r h.
      (let (d, first, second) = >>-true p q c c' h in
        let s = a.apply c d r first in Appends-trans s (b.apply d c' (HasRoom-Appends r s) second));
}

-- A number of 16 bits, the high byte first.
abbrev pub be16 : ℕ → List ℕ
be16 v = v / 256 % 256 ∷ v % 256 ∷ []

pub put_marker-Puts : (m : ℕ) → Puts (put_marker m) (0xff ∷ m ∷ [])
unfolding put_marker
put_marker-Puts m = put_byte-Puts 0xff then_puts put_byte-Puts m

put_be16-Puts : (v : ℕ) → Puts (put_be16 v) (be16 v)
unfolding put_be16
put_be16-Puts v = put_byte-Puts (u8 (v >>> 8)) then_puts put_byte-Puts (v % 2 ^ 8)

put_all-Puts : (bs : List ℕ) → Puts (put_all bs) bs
unfolding put_all
put_all-Puts [] = succeed-Puts
put_all-Puts (b ∷ bs) = put_byte-Puts b then_puts put_all-Puts bs

put_counts-Puts : (b : ℕ) (bs : List ℕ) → Puts (put_counts (b ∷ bs)) bs
unfolding put_counts
put_counts-Puts b bs = put_all-Puts bs

-- A segment of the file: its marker, its length, which counts itself, and what it holds.
abbrev pub segment : ℕ → List ℕ → List ℕ
segment marker payload = 0xff ∷ marker ∷ (be16 (length payload + 2) ++ payload)

abbrev jfif : List ℕ
jfif = b'J' ∷ b'F' ∷ b'I' ∷ b'F' ∷ 0 ∷ 1 ∷ 1 ∷ 0 ∷ 0 ∷ 1 ∷ 0 ∷ 1 ∷ 0 ∷ 0 ∷ []

put_app0-Puts : Puts put_app0 (segment 0xe0 jfif)
unfolding put_app0
put_app0-Puts =
    put_marker-Puts 0xe0
    then_puts put_be16-Puts 16
    then_puts put_byte-Puts b'J'
    then_puts put_byte-Puts b'F'
    then_puts put_byte-Puts b'I'
    then_puts put_byte-Puts b'F'
    then_puts put_byte-Puts 0x00
    then_puts put_be16-Puts 0x0101
    then_puts put_byte-Puts 0x00
    then_puts put_be16-Puts 1
    then_puts put_be16-Puts 1
    then_puts put_byte-Puts 0x00
    then_puts put_byte-Puts 0x00

-- A quantisation table, in zigzag order.
abbrev quantisation : ℕ → List ℕ → List ℕ
quantisation id q = id ∷ map (λ i. get_or q i 0) zigzag

put_qtable-Puts : (id : ℕ) (q : List ℕ) → Puts (put_qtable id q) (segment 0xdb (quantisation id q))
unfolding put_qtable
put_qtable-Puts id q =
    put_marker-Puts 0xdb
    then_puts put_be16-Puts 67
    then_puts put_byte-Puts id
    then_puts put_all-Puts (map (λ i. get_or q i 0) zigzag)

-- Three components: luma of two by two blocks with table 0, and chroma with table 1.
abbrev components : List ℕ
components = 3 ∷ 1 ∷ 0x22 ∷ 0 ∷ 2 ∷ 0x11 ∷ 1 ∷ 3 ∷ 0x11 ∷ 1 ∷ []

put_frame-Puts :
    (width height : ℕ)
    → Puts
        (put_frame width height)
        (segment 0xc0 (8 ∷ (be16 (u16 height) ++ be16 (u16 width)) ++ components))
unfolding put_frame
put_frame-Puts width height =
    put_marker-Puts 0xc0
    then_puts put_be16-Puts 17
    then_puts put_byte-Puts 8
    then_puts put_be16-Puts (u16 height)
    then_puts put_be16-Puts (u16 width)
    then_puts put_byte-Puts 3
    then_puts put_byte-Puts 1
    then_puts put_byte-Puts 0x22
    then_puts put_byte-Puts 0x00
    then_puts put_byte-Puts 2
    then_puts put_byte-Puts 0x11
    then_puts put_byte-Puts 0x01
    then_puts put_byte-Puts 3
    then_puts put_byte-Puts 0x11
    then_puts put_byte-Puts 0x01

-- A Huffman table: how many codes there are of each length from 1 to 16, and their values.
put_huffman-Puts :
    (size id b : ℕ) (bits vals : List ℕ)
    → Puts (put_huffman size id (b ∷ bits) vals) ((0xff ∷ 0xc4 ∷ be16 size) ++ id ∷ (bits ++ vals))
unfolding put_huffman
put_huffman-Puts size id b bits vals =
    put_marker-Puts 0xc4
    then_puts put_be16-Puts size
    then_puts put_byte-Puts id
    then_puts put_counts-Puts b bits
    then_puts put_all-Puts vals

abbrev huffman : ℕ → List ℕ → List ℕ → List ℕ
huffman id bits vals = segment 0xc4 (id ∷ (drop 1 bits ++ vals))

-- The three components with their tables, and all 64 coefficients.
abbrev scan : List ℕ
scan = 3 ∷ 1 ∷ 0x00 ∷ 2 ∷ 0x11 ∷ 3 ∷ 0x11 ∷ 0 ∷ 0x3f ∷ 0 ∷ []

put_scan_header-Puts : Puts put_scan_header (segment 0xda scan)
unfolding put_scan_header
put_scan_header-Puts =
    put_marker-Puts 0xda
    then_puts put_be16-Puts 12
    then_puts put_byte-Puts 3
    then_puts put_byte-Puts 1
    then_puts put_byte-Puts 0x00
    then_puts put_byte-Puts 2
    then_puts put_byte-Puts 0x11
    then_puts put_byte-Puts 3
    then_puts put_byte-Puts 0x11
    then_puts put_byte-Puts 0x00
    then_puts put_byte-Puts 0x3f
    then_puts put_byte-Puts 0x00

-- Start of image, JFIF, two quantisation tables, the frame, four Huffman tables and the start of the scan.
abbrev pub header_bytes : ℕ → ℕ → List ℕ → List ℕ → List ℕ
header_bytes width height q_luma q_chroma =
    (0xff ∷ 0xd8 ∷ [])
    ++ (segment 0xe0 jfif
        ++ (segment 0xdb (quantisation 0 q_luma)
            ++ (segment 0xdb (quantisation 1 q_chroma)
                ++ (segment 0xc0 (8 ∷ (be16 (u16 height) ++ be16 (u16 width)) ++ components)
                    ++ (huffman 0x00 dc_luma_bits dc_luma_vals
                        ++ (huffman 0x10 ac_luma_bits ac_luma_vals
                            ++ (huffman 0x01 dc_chroma_bits dc_chroma_vals
                                ++ (huffman 0x11 ac_chroma_bits ac_chroma_vals
                                    ++ segment 0xda scan))))))))

-- A successful `t6_jpeg_write_headers` appends the segments that the JPEG standard asks for, each with its
-- true length.
pub write_headers-Puts :
    (width height : ℕ) (q_luma q_chroma : List ℕ)
    → Puts (write_headers width height q_luma q_chroma) (header_bytes width height q_luma q_chroma)
unfolding write_headers
write_headers-Puts width height q_luma q_chroma =
    put_marker-Puts 0xd8
    then_puts put_app0-Puts
    then_puts put_qtable-Puts 0x00 q_luma
    then_puts put_qtable-Puts 0x01 q_chroma
    then_puts put_frame-Puts width height
    then_puts put_huffman-Puts 31 0x00 0 (drop 1 dc_luma_bits) dc_luma_vals
    then_puts put_huffman-Puts 181 0x10 0 (drop 1 ac_luma_bits) ac_luma_vals
    then_puts put_huffman-Puts 31 0x01 0 (drop 1 dc_chroma_bits) dc_chroma_vals
    then_puts put_huffman-Puts 181 0x11 0 (drop 1 ac_chroma_bits) ac_chroma_vals
    then_puts put_scan_header-Puts
