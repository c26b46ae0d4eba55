-- ===== src/Driver/Nv12/Payload.antt =====
-- kernel/trigger6_drv.c: the size of an NV12 payload.
use native.Mathlib.Nat.{mul-le-mul_right}
use jcd543_mct_t6_linux_driv.Prelude.{ℕ, ◌+◌, ◌*◌, ◌/◌, ◌%◌, ◌^◌, ◌≤◌, ◌<◌, ◌≡◌, arith}
use jcd543_mct_t6_linux_driv.Prelude.Words.{u32}
use jcd543_mct_t6_linux_driv.Driver.Device.{Head}
use jcd543_mct_t6_linux_driv.Driver.Addressing.{mib, flip_header_size, jpeg_padding_size}
use jcd543_mct_t6_linux_driv.Driver.Nv12.{nv12_pitch, nv12_size, nv12_total}

u32_small : (n : ℕ) → n < 2 ^ 32 → u32 n ≡ n
u32_small n h = omega arith

-- For a head of at most 1920 columns and 1080 rows no step of the computation of its NV12 frame wraps: the pitch is the multiple of 16 that the width is rounded up to,
-- the frame is the luma plane and half as many rows of chroma, the payload is the frame with its header and its padding, and it fits the three megabytes of the staging
-- buffer.
pub nv12_total_fits :
    (h : Head)
    → h.sink.width ≤ 1920
    → h.sink.height ≤ 1080
    → (h.sink.width ≤ nv12_pitch h)
      × (nv12_pitch h ≤ h.sink.width + 15)
      × (nv12_pitch h % 16 ≡ 0)
      × (nv12_size h ≡ nv12_pitch h * h.sink.height + nv12_pitch h * (h.sink.height / 2))
      × (nv12_total (nv12_size h) ≡ flip_header_size + nv12_size h + jpeg_padding_size)
      × (nv12_total (nv12_size h) ≤ 3 * mib)
nv12_total_fits h wide high =
    let pitch = nv12_pitch h in
    let rows = h.sink.height in
    let p : pitch ≤ 1920 = omega arith in
    let y : pitch * rows ≤ 1920 * rows = mul-le-mul_right rows p in
    let c : pitch * (rows / 2) ≤ 1920 * (rows / 2) = mul-le-mul_right (rows / 2) p in
    let ey : u32 (pitch * rows) ≡ pitch * rows =
      u32_small (pitch * rows) (omega (arith, y, high)) in
    let ec : u32 (pitch * (rows / 2)) ≡ pitch * (rows / 2) =
      u32_small (pitch * (rows / 2)) (omega (arith, c, high)) in
    let whole : nv12_size h ≡ pitch * rows + pitch * (rows / 2) =
      rw (ey, ec) (u32_small (pitch * rows + pitch * (rows / 2)) (omega (arith, y, c, high))) in
    let total : nv12_total (nv12_size h) ≡ flip_header_size + nv12_size h + jpeg_padding_size =
      u32_small (flip_header_size + nv12_size h + jpeg_padding_size)
        (omega (arith, whole, y, c, high)) in
    (omega arith, omega arith, omega arith, whole, total, omega (arith, total, whole, y, c, high))
