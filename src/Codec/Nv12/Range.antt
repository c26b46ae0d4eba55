-- ===== src/Codec/Nv12/Range.antt =====
-- kernel/trigger6_codec.c: the colours of the NV12 converter are studio range, so its casts cut nothing off.
use jcd543_mct_t6_linux_driv.Prelude.{ℕ, ◌+◌, ◌-◌, ◌*◌, ◌/◌, ◌%◌, ◌≤◌, ◌≡◌, arith}
use jcd543_mct_t6_linux_driv.Prelude.Int.{int_laws, mul_parts, shift_offset}
use jcd543_mct_t6_linux_driv.Codec.Nv12.{luma_byte, u_byte, v_byte, red_of, green_of, blue_of}

pub luma_byte_studio : (p : ℕ) → (16 ≤ luma_byte p) × (luma_byte p ≤ 235)
unfolding luma_byte
luma_byte_studio p = omega arith

u_byte_lem :
    (p : ℕ)
    → u_byte p ≡ (112 * blue_of p + 128 + 32768 - (38 * red_of p + 74 * green_of p)) / 256 % 256
unfolding u_byte
u_byte_lem p =
    shift_offset _ (112 * blue_of p + 128) (38 * red_of p + 74 * green_of p)
      (omega
        (int_laws, mul_parts 37 (red_of p), mul_parts 74 (green_of p), mul_parts 112 (blue_of p)))
      (omega arith)

v_byte_lem :
    (p : ℕ)
    → v_byte p ≡ (112 * red_of p + 128 + 32768 - (94 * green_of p + 18 * blue_of p)) / 256 % 256
unfolding v_byte
v_byte_lem p =
    shift_offset _ (112 * red_of p + 128) (94 * green_of p + 18 * blue_of p)
      (omega
        (int_laws, mul_parts 112 (red_of p), mul_parts 94 (green_of p), mul_parts 18 (blue_of p)))
      (omega arith)

-- For every pixel word the luma byte is from 16 to 235, and both chroma bytes are from 16 to 240.
pub nv12_studio_range :
    (p : ℕ)
    → ((16 ≤ luma_byte p) × (luma_byte p ≤ 235))
      × ((16 ≤ u_byte p) × (u_byte p ≤ 240))
      × ((16 ≤ v_byte p) × (v_byte p ≤ 240))
nv12_studio_range p = omega (arith, luma_byte_studio p, u_byte_lem p, v_byte_lem p)
