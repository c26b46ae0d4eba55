-- ===== src/Examples/Senders.antt =====
-- kernel/trigger6_drv.c: the JPEG sender, the packing of a frame and the loop of a bulk write on concrete inputs.
use jcd543_mct_t6_linux_driv.Prelude.{
  ℕ, none, ◌%◌, ◌+◌, ◌≡◌, ◌≤◌, ◌<◌, ◌⊎◌, some, List, [], ◌∷◌, arith, refl, inr, ◌*◌, ◌/◌,
}
use jcd543_mct_t6_linux_driv.Prelude.Int.{pos}
use jcd543_mct_t6_linux_driv.Driver.Device.{get_head}
use jcd543_mct_t6_linux_driv.Driver.Addressing.{mib, flip_header_size, jpeg_padding_size}
use jcd543_mct_t6_linux_driv.Driver.Usb.{bulk_loop}
use jcd543_mct_t6_linux_driv.Driver.Usb.Fuel.{bulk_loop_ends}
use jcd543_mct_t6_linux_driv.Driver.Jpeg.{outside, bytes_of, send_jpeg_blob, adapt_quality}
use jcd543_mct_t6_linux_driv.Driver.Jpeg.Buffers.{
  IsSender, send_jpeg_blob-IsSender, head_defaults-IsSender,
}
use jcd543_mct_t6_linux_driv.Driver.Jpeg.Quality.{adapt_quality_bounds}
use jcd543_mct_t6_linux_driv.Driver.Chip.{head_defaults}
use jcd543_mct_t6_linux_driv.Driver.Nv12.{nv12_pitch, nv12_size, nv12_total}
use jcd543_mct_t6_linux_driv.Driver.Nv12.Payload.{nv12_total_fits}
use jcd543_mct_t6_linux_driv.Driver.Modeset.{pack_xrgb8888_tight}
use jcd543_mct_t6_linux_driv.Driver.Modeset.Rows.{IsPacked, pack_xrgb8888_tight-IsPacked}
use jcd543_mct_t6_linux_driv.Examples.Data.{device, params, clock, bus, secondary}

secondary-IsSender : IsSender secondary
secondary-IsSender = record {
  ring = record {
    fits = omega arith;
    no_wrap = omega arith;
    cursor_above = omega arith;
    cursor_below = omega arith;
  };
  several = omega arith;
  slot = omega arith;
  kept = omega arith;
}

send_jpeg_blob-IsSender_example :
    IsSender (get_head (send_jpeg_blob params bus clock 1 (outside (255 ∷ 216 ∷ [])) 2 device).0 1)
send_jpeg_blob-IsSender_example =
    send_jpeg_blob-IsSender params bus clock 1 (outside (255 ∷ 216 ∷ [])) 2 device
      secondary-IsSender

-- Two rows of one pixel, the second four bytes behind the end of the first.
abbrev two_rows : List ℕ
two_rows = 1 ∷ 2 ∷ 3 ∷ 4 ∷ 0 ∷ 0 ∷ 0 ∷ 0 ∷ 5 ∷ 6 ∷ 7 ∷ 8 ∷ 0 ∷ 0 ∷ 0 ∷ 0 ∷ []

abbrev blank : List ℕ
blank = 9 ∷ 9 ∷ 9 ∷ 9 ∷ 9 ∷ 9 ∷ 9 ∷ 9 ∷ 9 ∷ []

pack_xrgb8888_tight-IsPacked_example :
    let (ret, out) = pack_xrgb8888_tight 1 2 (some two_rows) 8 (some blank) 9 in
    (ret ≡ pos 0) × IsPacked 4 8 two_rows 2 0 blank (bytes_of out)
pack_xrgb8888_tight-IsPacked_example =
    pack_xrgb8888_tight-IsPacked 1 2 8 9 two_rows blank (omega arith) (omega arith) (omega arith)
      (omega arith) (omega arith)

adapt_quality_bounds_example :
    (20 ≤ adapt_quality 40 60)
    × (adapt_quality 40 60 ≤ 95)
    × ((60 < 20)
        ⊎ ((95 < 60)
            ⊎ (((40 ≤ 30) ⊎ (adapt_quality 40 60 ≤ 60))
                × ((21 ≤ 40) ⊎ (60 ≤ adapt_quality 40 60))
                × ((40 < 21) ⊎ ((30 < 40) ⊎ (adapt_quality 40 60 ≡ 60)))
                × (adapt_quality 40 60 ≤ 60 + 2)
                × (60 ≤ adapt_quality 40 60 + 5))))
adapt_quality_bounds_example = adapt_quality_bounds 40 60

bulk_loop_ends_example :
    bulk_loop params bus 3 (7 ∷ 8 ∷ []) (pos 0) device
    ≡ bulk_loop params bus 5 (7 ∷ 8 ∷ []) (pos 0) device
bulk_loop_ends_example =
    bulk_loop_ends params bus 3 5 (7 ∷ 8 ∷ []) (pos 0) device (omega arith) (omega arith)

head_defaults-IsSender_example :
    IsSender (head_defaults params 58 1)
    × ((head_defaults params 58 1).last_jpeg_data ≡ none)
    × ((head_defaults params 58 1).last_jpeg_len ≡ 0)
head_defaults-IsSender_example =
    head_defaults-IsSender params 58 (omega arith) (omega arith) (inr refl)

nv12_total_fits_example :
    (1920 ≤ nv12_pitch secondary)
    × (nv12_pitch secondary ≤ 1920 + 15)
    × (nv12_pitch secondary % 16 ≡ 0)
    × (nv12_size secondary ≡ nv12_pitch secondary * 1080 + nv12_pitch secondary * (1080 / 2))
    × (nv12_total (nv12_size secondary)
        ≡ flip_header_size + nv12_size secondary + jpeg_padding_size)
    × (nv12_total (nv12_size secondary) ≤ 3 * mib)
nv12_total_fits_example = nv12_total_fits secondary (omega arith) (omega arith)
