-- ===== src/Codec/Sample.antt =====
-- kernel/trigger6_codec.c: reading 8 by 8 blocks of samples from an XRGB8888 frame. A frame is the array
-- of its bytes, blue first.
pub mod Range
pub mod Levels
use jcd543_mct_t6_linux_driv.Prelude.{ℕ, ◌+◌, ◌-◌, ◌*◌, ◌/◌, min, List, get_or}
use jcd543_mct_t6_linux_driv.Prelude.Words.{u32, ◌>>>◌}
use jcd543_mct_t6_linux_driv.Prelude.Int.{ℤ, pos, neg, ◌+ℤ◌, ◌-ℤ◌, ◌*ℤ◌, ◌>>ℤ◌, clamp_ℤ}
use jcd543_mct_t6_linux_driv.Prelude.Kernel.{div_round_closest}
use jcd543_mct_t6_linux_driv.Codec.Quant.{tabulate}

pub record Rgb : Type 0 where
  pub red : ℕ
  pub green : ℕ
  pub blue : ℕ

unfoldable pub clamp_byte : ℤ → ℤ
clamp_byte value = clamp_ℤ (pos 0) (pos 255) value

-- A frame in memory, with its size in pixels and the bytes of a row.
pub record Frame : Type 0 where
  pub src : List ℕ
  pub width : ℕ
  pub height : ℕ
  pub stride : ℕ

-- `src + py * stride + px * 4`, the coordinates cut to the frame.
unfoldable pub pixel_index : Frame → ℕ → ℕ → ℕ
pixel_index f x y =
    let py = min (u32 y) (f.height - 1) in
    let px = min (u32 x) (f.width - 1) in u32 (py * f.stride) + u32 (px * 4)

unfoldable pub read_pixel : Frame → ℕ → ℕ → Rgb
unfolding pixel_index
read_pixel f x y =
    let i = pixel_index f x y in
    record { blue = get_or f.src i 0; green = get_or f.src (i + 1) 0; red = get_or f.src (i + 2) 0 }

-- The luma sample of a pixel, centred on 0.
unfoldable pub luma : Rgb → ℤ
unfolding clamp_byte
luma p = clamp_byte (pos ((77 * p.red + 150 * p.green + 29 * p.blue + 128) >>> 8)) -ℤ pos 128

unfoldable pub load_y_block : Frame → ℕ → ℕ → List ℤ
unfolding read_pixel luma
load_y_block f base_x base_y =
    tabulate 64 0 λ i. luma (read_pixel f (base_x + (i - i / 8 * 8)) (base_y + i / 8))

-- The rounded mean of the four pixels of a chroma sample.
unfoldable pub mean_pixel : Rgb → Rgb → Rgb → Rgb → Rgb
mean_pixel a b c d = record {
  red = div_round_closest (a.red + b.red + c.red + d.red) 4;
  green = div_round_closest (a.green + b.green + c.green + d.green) 4;
  blue = div_round_closest (a.blue + b.blue + c.blue + d.blue) 4;
}

-- The two chroma samples of a pixel, centred on 0.
unfoldable pub chroma_blue : Rgb → ℤ
unfolding clamp_byte
chroma_blue p =
    clamp_byte (
      ((neg 43 *ℤ pos p.red -ℤ pos 85 *ℤ pos p.green +ℤ pos 128 *ℤ pos p.blue +ℤ pos 128) >>ℤ 8)
      +ℤ pos 128)
    -ℤ pos 128

unfoldable pub chroma_red : Rgb → ℤ
unfolding clamp_byte
chroma_red p =
    clamp_byte (
      ((pos 128 *ℤ pos p.red -ℤ pos 107 *ℤ pos p.green -ℤ pos 21 *ℤ pos p.blue +ℤ pos 128) >>ℤ 8)
      +ℤ pos 128)
    -ℤ pos 128

-- The pixel that the chroma sample at `x`, `y` of the block stands for.
unfoldable pub chroma_pixel : Frame → ℕ → ℕ → ℕ → Rgb
unfolding read_pixel mean_pixel
chroma_pixel f base_x base_y i =
    let x = base_x + (i - i / 8 * 8) * 2 in
    let y = base_y + i / 8 * 2 in
    mean_pixel (read_pixel f x y) (read_pixel f (x + 1) y) (read_pixel f x (y + 1))
      (read_pixel f (x + 1) (y + 1))

-- `cb_block` and `cr_block`
unfoldable pub load_chroma_block : Frame → ℕ → ℕ → List ℤ × List ℤ
unfolding chroma_pixel chroma_blue chroma_red
load_chroma_block f base_x base_y = (
  tabulate 64 0 (λ i. chroma_blue (chroma_pixel f base_x base_y i)),
  tabulate 64 0 (λ i. chroma_red (chroma_pixel f base_x base_y i)),
)
