-- ===== src/Codec/Sample/Levels.antt =====
-- kernel/trigger6_codec.c: every sample of a block is a byte less 128.
use jcd543_mct_t6_linux_driv.Prelude.{ℕ, ◌+◌, ◌-◌, ◌*◌, ◌/◌, arith, dec_lt}
use jcd543_mct_t6_linux_driv.Prelude.Int.{ℤ, pos, ◌-ℤ◌, clamp_ℤ}
use jcd543_mct_t6_linux_driv.Codec.Quant.{tabulate}
use jcd543_mct_t6_linux_driv.Codec.Quant.Span.{
  IsWithin, IsSamples, tabulate-at, tabulate-past, zero-IsWithin,
}
use jcd543_mct_t6_linux_driv.Codec.Sample.{
  Rgb, Frame, clamp_byte, luma, chroma_blue, chroma_red, load_y_block, load_chroma_block,
  read_pixel, chroma_pixel,
}

centred : (x : ℤ) → IsWithin 128 127 (clamp_byte x -ℤ pos 128)
unfolding clamp_byte clamp_ℤ ◌-ℤ◌
centred x = record { below = ground arith; above = ground arith }

tabulate-IsSamples : (f : ℕ → ℤ) → ((i : ℕ) → IsWithin 128 127 (f i)) → IsSamples (tabulate 64 0 f)
tabulate-IsSamples f h = record {
  sample = λ i. elim (dec_lt i 64) [
    | yes inside ↦ rw (tabulate-at f 64 0 i inside) (h (0 + i))
    | no outside ↦ rw (tabulate-past f 64 0 i (omega arith)) (zero-IsWithin 128 127)
  ];
}

luma-IsWithin : (p : Rgb) → IsWithin 128 127 (luma p)
unfolding luma
luma-IsWithin p = centred _

chroma_blue-IsWithin : (p : Rgb) → IsWithin 128 127 (chroma_blue p)
unfolding chroma_blue
chroma_blue-IsWithin p = centred _

chroma_red-IsWithin : (p : Rgb) → IsWithin 128 127 (chroma_red p)
unfolding chroma_red
chroma_red-IsWithin p = centred _

pub load_y_block-IsSamples : (f : Frame) (x y : ℕ) → IsSamples (load_y_block f x y)
unfolding load_y_block
load_y_block-IsSamples f x y =
    tabulate-IsSamples _ (λ i. luma-IsWithin (read_pixel f (x + (i - i / 8 * 8)) (y + i / 8)))

pub load_chroma_block-IsSamples :
    (f : Frame) (x y : ℕ)
    → IsSamples (load_chroma_block f x y).0 × IsSamples (load_chroma_block f x y).1
unfolding load_chroma_block
load_chroma_block-IsSamples f x y = (
  tabulate-IsSamples _ (λ i. chroma_blue-IsWithin (chroma_pixel f x y i)),
  tabulate-IsSamples _ (λ i. chroma_red-IsWithin (chroma_pixel f x y i)),
)
