-- ===== src/Examples/Encoder.antt =====
-- kernel/trigger6_codec.c: the encoder on a frame of one pixel, a table and a frame's corner.
use jcd543_mct_t6_linux_driv.Prelude.{ℕ, ◌+◌, ◌<◌, refl, true, false, some, List, [], ◌∷◌, arith}
use jcd543_mct_t6_linux_driv.Codec.Huffman.{HuffTable, HuffTables}
use jcd543_mct_t6_linux_driv.Codec.Tables.{qt_luma}
use jcd543_mct_t6_linux_driv.Codec.Quant.{build_qtable}
use jcd543_mct_t6_linux_driv.Codec.Quant.Range.{AllWithin, AllBelow, build_qtable_better}
use jcd543_mct_t6_linux_driv.Codec.Sample.{Frame, pixel_index}
use jcd543_mct_t6_linux_driv.Codec.Sample.Range.{IsFrame, pixel_index_inside}
use jcd543_mct_t6_linux_driv.Codec.Encode.{EncodeCall, encode_xrgb8888}
use jcd543_mct_t6_linux_driv.Codec.Bounds.Scan.{IsContained}
use jcd543_mct_t6_linux_driv.Codec.Bounds.Call.{encode_xrgb8888-IsContained}

abbrev no_codes : HuffTable
no_codes = record { codes = []; sizes = [] }

abbrev pub not_ready : HuffTables
not_ready = record {
  ready = false;
  dc_luma = no_codes;
  ac_luma = no_codes;
  dc_chroma = no_codes;
  ac_chroma = no_codes;
}

-- Four bytes, of which the call may use two: too few for the headers.
abbrev four_bytes : List ℕ
four_bytes = 1 ∷ 2 ∷ 3 ∷ 4 ∷ []

abbrev one_pixel : EncodeCall
one_pixel = record {
  src = some (10 ∷ 20 ∷ 30 ∷ 0 ∷ []);
  width = 1;
  height = 1;
  stride = 4;
  quality = 40;
  dst = some four_bytes;
  dst_size = 2;
  allocated = true;
  tables = not_ready;
  seen = not_ready;
}

abbrev one_pixel_frame : Frame
one_pixel_frame = record { src = 10 ∷ 20 ∷ 30 ∷ 0 ∷ []; width = 1; height = 1; stride = 4 }

encode_xrgb8888-IsContained_example : IsContained four_bytes 2 (encode_xrgb8888 one_pixel)
encode_xrgb8888-IsContained_example =
    encode_xrgb8888-IsContained one_pixel four_bytes refl (omega arith)

qt_luma-AllWithin : AllWithin 0 255 qt_luma
qt_luma-AllWithin = omega arith

build_qtable_better_example :
    AllWithin 1 255 (build_qtable qt_luma 40)
    × AllBelow (build_qtable qt_luma 90) (build_qtable qt_luma 40)
build_qtable_better_example = build_qtable_better qt_luma 40 90 (omega arith) qt_luma-AllWithin

one_pixel-IsFrame : IsFrame one_pixel_frame
one_pixel-IsFrame = record {
  wide = omega arith;
  high = omega arith;
  row = omega arith;
  buffer = omega arith;
  small = omega arith;
}

pixel_index_inside_example : pixel_index one_pixel_frame 15 7 + 3 < 4
pixel_index_inside_example = pixel_index_inside one_pixel_frame 15 7 one_pixel-IsFrame
