-- ===== src/Codec/Bounds/Call.antt =====
-- kernel/trigger6_codec.c: what `t6_jpeg_encode_xrgb8888` may write, and what it returns.
use jcd543_mct_t6_linux_driv.Prelude.{ℕ, ◌≤◌, ◌≡◌, refl, List, none, some, length, arith}
use jcd543_mct_t6_linux_driv.Codec.Encode.{EncodeCall, encode_xrgb8888}
use jcd543_mct_t6_linux_driv.Codec.Huffman.{init_huff_tables}
use jcd543_mct_t6_linux_driv.Codec.Sample.{Frame}
use jcd543_mct_t6_linux_driv.Codec.Bounds.Scan.{IsContained, encode_frame-IsContained}

-- For a destination of at least `dst_size` bytes the encoder changes no byte behind `dst_size`, whatever the
-- frame, and it returns an error or a length of at most `dst_size`.
pub encode_xrgb8888-IsContained :
    (a : EncodeCall) (dst : List ℕ)
    → a.dst ≡ some dst
    → a.dst_size ≤ length dst
    → IsContained dst a.dst_size (encode_xrgb8888 a)
unfolding encode_xrgb8888
encode_xrgb8888-IsContained a dst given room =
    elim a.src as (λ s. a.src ≡ s → IsContained dst a.dst_size (encode_xrgb8888 a)) [
      | none ↦ λ e. ground arith
      | some src ↦ λ e.
          (let f : Frame = record {
            src = src;
            width = a.width;
            height = a.height;
            stride = a.stride;
          } in
            ground (
              arith,
              encode_frame-IsContained (init_huff_tables a.tables a.seen) f a.quality dst a.dst_size
                  room,
            ))
    ]
      refl
