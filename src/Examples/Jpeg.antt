-- ===== src/Examples/Jpeg.antt =====
-- kernel/trigger6_codec.c: the encoder on a frame of one pixel, with room for the whole file.
use jcd543_mct_t6_linux_driv.Prelude.{ℕ, ◌≡◌, refl, true, some, List, [], ◌∷◌, arith, replicate}
use jcd543_mct_t6_linux_driv.Codec.Headers.{
  write_headers, put_all, put_app0, put_counts, put_frame, put_huffman, put_qtable, put_scan_header,
}
use jcd543_mct_t6_linux_driv.Codec.Writer.{
  put_marker, put_byte, put_be16, put_bits, flush_bits, pad_ones, put_scan_byte,
}
use jcd543_mct_t6_linux_driv.Codec.Block.{
  encode_block, put_symbol, value_bits, count_bits, put_ac, put_coeffs, put_runs, put_value,
}
use jcd543_mct_t6_linux_driv.Codec.Huffman.{init_huff_tables, built_tables, build_huff}
use jcd543_mct_t6_linux_driv.Prelude.Int.{◌-ℤ◌, clamp_ℤ, ◌+ℤ◌, ◌*ℤ◌, to_unsigned, ◌>>ℤ◌, pos}
use jcd543_mct_t6_linux_driv.Codec.Quant.{
  fdct_quantize, precompute_dct_qtable, build_qtable, quantize,
}
use jcd543_mct_t6_linux_driv.Codec.Sample.{
  load_y_block, chroma_blue, chroma_pixel, chroma_red, clamp_byte, load_chroma_block, luma,
  mean_pixel, pixel_index, read_pixel,
}
use jcd543_mct_t6_linux_driv.Codec.Encode.{
  encode_cb, encode_cr, encode_file, encode_frame, encode_mcu, encode_row, encode_rows, encode_y,
  EncodeCall, encode_xrgb8888,
}
use jcd543_mct_t6_linux_driv.Codec.Decode.File.{IsJpeg}
use jcd543_mct_t6_linux_driv.Codec.Decode.Call.{encode_xrgb8888-IsJpeg}
use jcd543_mct_t6_linux_driv.Codec.Enough.Blocks.Call.{encode_xrgb8888_succeeds}
use jcd543_mct_t6_linux_driv.Examples.Encoder.{not_ready}

abbrev pixel : List ℕ
pixel = 10 ∷ 20 ∷ 30 ∷ 0 ∷ []

abbrev room : List ℕ
room = replicate 700 0

abbrev call : EncodeCall
call = record {
  src = some pixel;
  width = 1;
  height = 1;
  stride = 4;
  quality = 40;
  dst = some room;
  dst_size = 700;
  allocated = true;
  tables = not_ready;
  seen = not_ready;
}

-- The length of the file.
encoded : (encode_xrgb8888 call).0 ≡ pos 631
unfolding encode_xrgb8888 write_headers put_marker put_byte put_be16 encode_block put_symbol
    put_bits init_huff_tables built_tables value_bits ◌-ℤ◌ fdct_quantize clamp_ℤ ◌+ℤ◌ ◌*ℤ◌
    load_y_block precompute_dct_qtable count_bits put_ac put_coeffs put_runs put_value encode_cb
    encode_cr encode_file encode_frame encode_mcu encode_row encode_rows encode_y put_all put_app0
    put_counts put_frame put_huffman put_qtable put_scan_header build_huff build_qtable quantize
    chroma_blue chroma_pixel chroma_red clamp_byte load_chroma_block luma mean_pixel pixel_index
    read_pixel flush_bits pad_ones put_scan_byte to_unsigned ◌>>ℤ◌
encoded = refl

encode_xrgb8888-IsJpeg_example :
    IsJpeg
      (record { src = pixel; width = 1; height = 1; stride = 4 })
      40
      631
      (encode_xrgb8888 call).1
encode_xrgb8888-IsJpeg_example =
    encode_xrgb8888-IsJpeg call pixel room 631 refl refl (omega arith) (omega arith) (omega arith)
      (omega arith) (λ h. absurd (cc h)) (λ h. absurd (cc h)) encoded

abbrev large_call : EncodeCall
large_call = record call { dst = some (replicate 4000 0); dst_size = 4000 }

encode_xrgb8888_succeeds_example : (n : ℕ) × ((encode_xrgb8888 large_call).0 ≡ pos n)
encode_xrgb8888_succeeds_example =
    encode_xrgb8888_succeeds large_call pixel (replicate 4000 0) refl refl (omega arith)
      (omega arith) (omega arith) refl (λ h. absurd (cc h)) (λ h. absurd (cc h)) (omega arith)
      (omega arith)
