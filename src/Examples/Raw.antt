-- ===== src/Examples/Raw.antt =====
-- kernel/trigger6_drv.c: the raw sender on the concrete device, and on a head of two rows of one pixel.
use jcd543_mct_t6_linux_driv.Prelude.{
  ℕ, ◌≡◌, inr, refl, true, false, none, some, List, [], ◌∷◌, arith,
}
use jcd543_mct_t6_linux_driv.Driver.Device.{Device, Head, get_head}
use jcd543_mct_t6_linux_driv.Driver.Packet.{bulk_header_bytes, flip_header_bytes}
use jcd543_mct_t6_linux_driv.Driver.Damage.{compute_frame_damage, scan_rows}
use jcd543_mct_t6_linux_driv.Driver.Raw.{
  send_frame_raw, raw_partial, send_partial, send_ranges, send_block, conclude_raw,
}
use jcd543_mct_t6_linux_driv.Driver.Raw.Reference.{IsReference, send_frame_raw-IsReference}
use jcd543_mct_t6_linux_driv.Driver.Raw.Refreshed.{IsFrame, damage_of}
use jcd543_mct_t6_linux_driv.Driver.Usb.{
  bulk_write, bulk_loop, bulk_chunk, observe_suspend, latch_io_error,
}
use jcd543_mct_t6_linux_driv.Prelude.Int.{pos}
use jcd543_mct_t6_linux_driv.Driver.Raw.Stopped.{Untouched, send_frame_raw-Untouched}
use jcd543_mct_t6_linux_driv.Examples.Data.{primary, device, params, clock, bus}

abbrev pixels : List ℕ
pixels = 1 ∷ 2 ∷ 3 ∷ 4 ∷ 5 ∷ 6 ∷ 7 ∷ 8 ∷ []

abbrev sent_before : List ℕ
sent_before = 1 ∷ 2 ∷ 3 ∷ 4 ∷ 5 ∷ 6 ∷ 0 ∷ 8 ∷ []

abbrev small_head : Head
small_head = record primary {
  sink = record (primary.sink) { width = 1; height = 2 };
  last_sent_frame = some sent_before;
  last_sent_valid = true;
}

abbrev faulted_device : Device
faulted_device = record device { head0 = small_head; io_faulted = true }

abbrev small_device : Device
small_device = record device { head0 = small_head }

small-IsFrame : IsFrame small_head pixels
small-IsFrame = record { wide = omega arith; row = omega arith; area = omega arith; size = refl }

-- The changed row is sent.
small_sent :
    (send_frame_raw params bus clock 0 pixels 8
      (some (damage_of small_head pixels sent_before))
      false
      small_device).1
    ≡ pos 0
unfolding send_frame_raw raw_partial send_partial send_ranges send_block conclude_raw
    compute_frame_damage scan_rows bulk_write bulk_loop bulk_chunk observe_suspend latch_io_error
    bulk_header_bytes flip_header_bytes
small_sent = refl

send_frame_raw-IsReference_example : IsReference pixels (
    get_head
      (send_frame_raw params bus clock 0 pixels 8
        (some (damage_of small_head pixels sent_before))
        false
        small_device).0
      0)
send_frame_raw-IsReference_example =
    send_frame_raw-IsReference params bus clock 0 pixels sent_before 8 small_device refl
      small-IsFrame refl small_sent

send_frame_raw-Untouched_example :
    Untouched params bus 0 faulted_device
      (send_frame_raw params bus clock 0 pixels 8 none false faulted_device).0
send_frame_raw-Untouched_example =
    send_frame_raw-Untouched params bus clock 0 pixels 8 none false faulted_device (inr (inr refl))
