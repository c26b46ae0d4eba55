-- ===== src/Codec/Nv12.antt =====
-- kernel/trigger6_codec.c: `t6_convert_xrgb8888_to_nv12`. Both planes lie in one buffer, as the driver calls
-- it; they are given by the indices at which they begin.
pub mod Range
use jcd543_mct_t6_linux_driv.Prelude.{
  ℕ, zero, suc, ◌+◌, ◌*◌, ◌/◌, ◌%◌, ◌^◌, Bool, true, false, ◌||◌, ltb, ◌==◌, if◌then◌else◌, List,
  get_or, set,
}
use jcd543_mct_t6_linux_driv.Prelude.Words.{u8, u32, ◌>>>◌}
use jcd543_mct_t6_linux_driv.Prelude.Int.{ℤ, pos, neg, ◌+ℤ◌, ◌-ℤ◌, ◌*ℤ◌, ◌>>ℤ◌, to_unsigned}
use jcd543_mct_t6_linux_driv.Prelude.Errno.{einval}

-- The arguments that the loops only read.
pub record Convert : Type 0 where
  pub src : List ℕ
  pub width : ℕ
  pub height : ℕ
  pub src_stride : ℕ
  pub y_base : ℕ
  pub uv_base : ℕ
  pub y_pitch : ℕ
  pub uv_pitch : ℕ

-- `row32[x]` of row `y`, a little-endian word.
unfoldable pub word_at : Convert → ℕ → ℕ → ℕ
word_at k x y =
    let i = y * k.src_stride + 4 * x in
    get_or k.src i 0
    + 2 ^ 8 * get_or k.src (i + 1) 0
    + 2 ^ 16 * get_or k.src (i + 2) 0
    + 2 ^ 24 * get_or k.src (i + 3) 0

abbrev pub red_of : ℕ → ℕ
red_of p = (p >>> 16) % 2 ^ 8

abbrev pub green_of : ℕ → ℕ
green_of p = (p >>> 8) % 2 ^ 8

abbrev pub blue_of : ℕ → ℕ
blue_of p = p % 2 ^ 8

unfoldable pub luma_byte : ℕ → ℕ
luma_byte p = u8 ((u32 (66 * red_of p + 129 * green_of p + 25 * blue_of p + 128) >>> 8) + 16)

unfoldable pub u_byte : ℕ → ℕ
u_byte p = to_unsigned 256 (
    ((neg 38 *ℤ pos (red_of p)
        -ℤ pos 74 *ℤ pos (green_of p)
        +ℤ pos 112 *ℤ pos (blue_of p)
        +ℤ pos 128)
      >>ℤ 8)
    +ℤ pos 128)

unfoldable pub v_byte : ℕ → ℕ
v_byte p = to_unsigned 256 (
    ((pos 112 *ℤ pos (red_of p)
        -ℤ pos 94 *ℤ pos (green_of p)
        -ℤ pos 18 *ℤ pos (blue_of p)
        +ℤ pos 128)
      >>ℤ 8)
    +ℤ pos 128)

pub put_luma : Convert → ℕ → ℕ → List ℕ → List ℕ
put_luma k x y out = set out (k.y_base + (y * k.y_pitch + x)) (luma_byte (word_at k x y))

-- A row of the first pass from column `x` on: two pixels a round, and the last one of an odd width.
-- Half the width is enough fuel.
pub luma_row : Convert → ℕ → ℕ → ℕ → List ℕ → List ℕ
unfolding put_luma
luma_row k zero x y out = if ltb x k.width then put_luma k x y out else out
luma_row k (suc fuel) x y out =
    let more = luma_row k fuel (x + 2) y (put_luma k (x + 1) y (put_luma k x y out)) in
    let last = if ltb x k.width then put_luma k x y out else out in
    if ltb (x + 1) k.width then more else last

-- The first pass, with `n` rows left from `y` on.
pub luma_rows : Convert → ℕ → ℕ → List ℕ → List ℕ
unfolding luma_row
luma_rows k zero y out = out
luma_rows k (suc n) y out = luma_rows k n (y + 1) (luma_row k (k.width / 2) 0 y out)

pub put_chroma : Convert → ℕ → ℕ → List ℕ → List ℕ
put_chroma k x y out =
    let i = k.uv_base + (y / 2 * k.uv_pitch + x) in
    set (set out i (u_byte (word_at k x y))) (i + 1) (v_byte (word_at k x y))

-- A row of the second pass from column `x` on: the left pixel of each pair.
pub chroma_row : Convert → ℕ → ℕ → ℕ → List ℕ → List ℕ
unfolding put_chroma
chroma_row k zero x y out = out
chroma_row k (suc fuel) x y out =
    let more = chroma_row k fuel (x + 2) y (put_chroma k x y out) in
    if ltb (x + 1) k.width then more else out

-- The second pass from row `y` on, two rows a round. The height is enough fuel.
pub chroma_rows : Convert → ℕ → ℕ → List ℕ → List ℕ
unfolding chroma_row
chroma_rows k zero y out = out
chroma_rows k (suc fuel) y out =
    let more = chroma_rows k fuel (y + 2) (chroma_row k (k.width / 2) 0 y out) in
    if ltb y k.height then more else out

-- `null` says that one of the pointers is null.
unfoldable pub convert_xrgb8888_to_nv12 : Bool → Convert → List ℕ → ℤ × List ℕ
unfolding luma_rows chroma_rows
convert_xrgb8888_to_nv12 null k out =
    if null || k.width == 0 || k.height == 0
    then (einval, out)
    else (pos 0, chroma_rows k k.height 0 (luma_rows k k.height 0 out))
