-- ===== src/Codec/Sample/Range.antt =====
-- kernel/trigger6_codec.c: the samples of a block are centred bytes, and no pixel is read outside the frame.
use jcd543_mct_t6_linux_driv.Prelude.{
  ℕ, suc, ◌+◌, ◌-◌, ◌*◌, ◌^◌, ◌≤◌, ◌<◌, ◌≡◌, sym, ap, ◌∙◌, arith, length, min,
}
use jcd543_mct_t6_linux_driv.Prelude.Words.{u32}
use jcd543_mct_t6_linux_driv.Codec.Sample.{Frame, pixel_index}
use native.Mathlib.Nat.{suc-mul, mul-le-mul_right}

-- A frame whose buffer holds all its rows, with no 32-bit overflow in an offset.
pub record IsFrame (f : Frame) : Type 0 where
  pub wide : 1 ≤ f.width
  pub high : 1 ≤ f.height
  pub row : f.width * 4 ≤ f.stride
  pub buffer : f.height * f.stride ≤ length f.src
  pub small : f.height * f.stride < 2 ^ 32

-- For a frame that its buffer holds, with offsets of 32 bits, the four bytes of the pixel that is read for any
-- coordinates, also those outside the frame, lie in the buffer.
pub pixel_index_inside : (f : Frame) (x y : ℕ) → IsFrame f → pixel_index f x y + 3 < length f.src
unfolding pixel_index
pixel_index_inside f x y s =
    let py : ℕ = min (u32 y) (f.height - 1) in
    let px : ℕ = min (u32 x) (f.width - 1) in
    let a : py * f.stride ≤ (f.height - 1) * f.stride = mul-le-mul_right f.stride (omega arith) in
    let last : suc (f.height - 1) ≡ f.height = omega (arith, s.high) in
    let b : (f.height - 1) * f.stride + f.stride ≡ f.height * f.stride =
      sym (suc-mul (f.height - 1) f.stride) ∙ ap (λ (n : ℕ). n * f.stride) last in
    omega (arith, a, b, s.wide, s.high, s.row, s.buffer, s.small)
