-- ===== src/Codec/Decode/Call.antt =====
-- kernel/trigger6_codec.c: a call of `t6_jpeg_encode_xrgb8888` that succeeds has written a JPEG file.
use jcd543_mct_t6_linux_driv.Prelude.{
  ℕ, ◌*◌, ◌^◌, ◌<◌, ◌≤◌, ◌≡◌, refl, Bool, true, false, not, ◌||◌, ◌==◌, ltb, if◌then◌else◌, List,
  some, length,
}
use jcd543_mct_t6_linux_driv.Prelude.Words.{u32}
use jcd543_mct_t6_linux_driv.Prelude.Int.{pos}
use jcd543_mct_t6_linux_driv.Prelude.Errno.{einval, enomem}
use jcd543_mct_t6_linux_driv.Codec.Huffman.{HuffTables, built_tables, init_huff_tables}
use jcd543_mct_t6_linux_driv.Codec.Sample.{Frame}
use jcd543_mct_t6_linux_driv.Codec.Encode.{encode_frame, EncodeCall, encode_xrgb8888}
use jcd543_mct_t6_linux_driv.Codec.Decode.File.{IsJpeg, encode_frame-IsJpeg}

-- What holds of the static tables at all times: when their flag is set they are those that are built.
abbrev pub IsConsistent : HuffTables → Type 0
IsConsistent t = t.ready ≡ true → t ≡ built_tables

either {ℓ} :
    {A : Type ℓ} (b : Bool) {x y z : A} → (b ≡ true → x ≡ z) → y ≡ z → (if b then x else y) ≡ z
either true f e = f refl
either false f e = e

pub init_huff_tables_lem :
    (tables seen : HuffTables)
    → IsConsistent tables
    → IsConsistent seen
    → init_huff_tables tables seen ≡ built_tables
unfolding init_huff_tables
init_huff_tables_lem tables seen s t = either tables.ready s (either seen.ready t refl)

-- Behind the checks of the arguments and the allocations, which return errors.
checked :
    (f : Frame) (quality : ℕ) (dst : List ℕ) (dst_size n : ℕ)
    → f.width ≤ 65535
    → f.height ≤ 65535
    → dst_size ≤ length dst
    → dst_size < 2 ^ 31
    → (refused failed : Bool)
    → (let r =
          if refused
          then (einval, dst)
          else if failed
          then (enomem, dst)
          else encode_frame built_tables f quality dst dst_size in
        r.0 ≡ pos n → IsJpeg f quality n r.1)
checked f quality dst dst_size n narrow low room limit true failed h = absurd (cc h)
checked f quality dst dst_size n narrow low room limit false true h = absurd (cc h)
checked f quality dst dst_size n narrow low room limit false false h =
    encode_frame-IsJpeg f quality dst dst_size n narrow low room limit h

-- When `t6_jpeg_encode_xrgb8888` returns a length, that many bytes at the front of the destination are a JPEG file of the frame: the
-- segments of the standard, each with its true length, the stuffed scan and the end marker. A decoder that knows only the Huffman tables
-- of the file reads the scan back as the quantised coefficients of every block, in the order of the standard, and only a padding of
-- less than eight ones is left. It is assumed that the destination holds `dst_size` bytes, fewer than 2 GiB, that neither side of the frame is above 65535, and that the static tables are those that are built whenever
-- their flag says so.
pub encode_xrgb8888-IsJpeg :
    (a : EncodeCall) (src dst : List ℕ) (n : ℕ)
    → a.src ≡ some src
    → a.dst ≡ some dst
    → a.width ≤ 65535
    → a.height ≤ 65535
    → a.dst_size ≤ length dst
    → a.dst_size < 2 ^ 31
    → IsConsistent a.tables
    → IsConsistent a.seen
    → (encode_xrgb8888 a).0 ≡ pos n
    → IsJpeg
        (record { src = src; width = a.width; height = a.height; stride = a.stride })
        a.quality
        n
        (encode_xrgb8888 a).1
unfolding encode_xrgb8888
encode_xrgb8888-IsJpeg a src dst n has_src has_dst narrow low room limit s t returned =
    let f : Frame = record { src = src; width = a.width; height = a.height; stride = a.stride } in
    let built : init_huff_tables a.tables a.seen ≡ built_tables =
      init_huff_tables_lem a.tables a.seen s t in
    let refused : Bool = a.width == 0 || a.height == 0 || ltb a.stride (u32 (a.width * 4)) in
    let go = checked f a.quality dst a.dst_size n narrow low room limit refused (not a.allocated) in
    rw (has_dst, has_src, built) (go (rw (has_dst, has_src, built) at returned))
