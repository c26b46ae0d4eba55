-- ===== src/Codec/Headers.antt =====
-- kernel/trigger6_codec.c: the JPEG headers, marker by marker.
use jcd543_mct_t6_linux_driv.Prelude.{ℕ, List, [], ◌∷◌, map, get_or}
use jcd543_mct_t6_linux_driv.Prelude.Words.{u16}
use jcd543_mct_t6_linux_driv.Codec.Tables.{
  zigzag, dc_luma_bits, dc_luma_vals, ac_luma_bits, ac_luma_vals, dc_chroma_bits, dc_chroma_vals,
  ac_chroma_bits, ac_chroma_vals,
}
use jcd543_mct_t6_linux_driv.Codec.Writer.{Writer, ◌>>◌, succeed, put_byte, put_marker, put_be16}

-- A loop that puts the bytes of an array.
unfoldable pub put_all : List ℕ → Writer
put_all [] = succeed
put_all (b ∷ bs) = let rest = put_all bs in put_byte b >> rest

-- `for (i = 1; i <= 16; i++)` over the counts of a Huffman table: the first is not read.
unfoldable pub put_counts : List ℕ → Writer
unfolding put_all
put_counts [] = succeed
put_counts (b ∷ bs) = put_all bs

unfoldable pub put_app0 : Writer
put_app0 = do
  put_marker 0xe0
  put_be16 16
  put_byte b'J'
  put_byte b'F'
  put_byte b'I'
  put_byte b'F'
  put_byte 0x00
  put_be16 0x0101
  put_byte 0x00
  put_be16 1
  put_be16 1
  put_byte 0x00
  put_byte 0x00

-- DQT, in zigzag order.
unfoldable pub put_qtable : ℕ → List ℕ → Writer
unfolding put_all
put_qtable id q = do
  put_marker 0xdb
  put_be16 67
  put_byte id
  put_all (map (λ i. get_or q i 0) zigzag)

-- SOF0; the casts are those to the parameter of `t6_jpeg_put_be16`.
unfoldable pub put_frame : ℕ → ℕ → Writer
put_frame width height = do
  put_marker 0xc0
  put_be16 17
  put_byte 8
  put_be16 (u16 height)
  put_be16 (u16 width)
  put_byte 3
  put_byte 1
  put_byte 0x22
  put_byte 0x00
  put_byte 2
  put_byte 0x11
  put_byte 0x01
  put_byte 3
  put_byte 0x11
  put_byte 0x01

-- DHT
unfoldable pub put_huffman : ℕ → ℕ → List ℕ → List ℕ → Writer
unfolding put_counts put_all
put_huffman size id bits vals = do
  put_marker 0xc4
  put_be16 size
  put_byte id
  put_counts bits
  put_all vals

-- SOS
unfoldable pub put_scan_header : Writer
put_scan_header = do
  put_marker 0xda
  put_be16 12
  put_byte 3
  put_byte 1
  put_byte 0x00
  put_byte 2
  put_byte 0x11
  put_byte 3
  put_byte 0x11
  put_byte 0x00
  put_byte 0x3f
  put_byte 0x00

unfoldable pub write_headers : ℕ → ℕ → List ℕ → List ℕ → Writer
unfolding put_app0 put_qtable put_frame put_huffman put_scan_header
write_headers width height q_luma q_chroma = do
  put_marker 0xd8
  put_app0
  put_qtable 0x00 q_luma
  put_qtable 0x01 q_chroma
  put_frame width height
  put_huffman 31 0x00 dc_luma_bits dc_luma_vals
  put_huffman 181 0x10 ac_luma_bits ac_luma_vals
  put_huffman 31 0x01 dc_chroma_bits dc_chroma_vals
  put_huffman 181 0x11 ac_chroma_bits ac_chroma_vals
  put_scan_header
