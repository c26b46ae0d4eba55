-- ===== src/Examples/Reports.antt =====
-- The text of the sysfs attribute, and a frame that is handed to a program.
use jcd543_mct_t6_linux_driv.Prelude.{ℕ, min, ◌-◌, refl, arith, some, List, [], ◌∷◌, true}
use jcd543_mct_t6_linux_driv.Driver.Device.{Device, Head, user_jpeg}
use jcd543_mct_t6_linux_driv.Driver.Modeset.{Plane, plane_atomic_update}
use jcd543_mct_t6_linux_driv.Driver.Report.{Line, BusName, metrics_show}
use jcd543_mct_t6_linux_driv.Driver.Report.Page.{IsText, lines_of, metrics_show-IsText}
use jcd543_mct_t6_linux_driv.Driver.Export.{Waiting, woken, signal, jpeg_misc_read}
use jcd543_mct_t6_linux_driv.Prelude.Errno.{eagain}
use jcd543_mct_t6_linux_driv.Driver.Export.Stale.{IsStale, GetsNothing, jpeg_misc_read-GetsNothing}
use jcd543_mct_t6_linux_driv.Driver.Export.Handover.{
  IsExport, IsFrameOf, WillReturn, jpeg_misc_read-plane_atomic_update,
}
use jcd543_mct_t6_linux_driv.Examples.Data.{device, params, bus, secondary}

-- Every line has 400 characters, as far as the page has room, so the text stops behind the eleventh.
abbrev emit : ℕ → Line → ℕ
emit at line = min 400 (4095 - at)

abbrev bus_name : BusName
bus_name = record { busnum = 2; devnum = 7; interface_name = [] }

metrics_show-IsText_example :
    IsText 4096
      (lines_of params bus_name (some device))
      (metrics_show emit 4096 params bus_name (some device))
metrics_show-IsText_example = metrics_show-IsText emit 4096 params bus_name (some device)

-- A head with frames of two pixels in one row, which a program reads.
abbrev exporting : Head
exporting = record secondary {
  transport = user_jpeg;
  sink = record (secondary.sink) { width = 2; height = 1 };
  tx = record (secondary.tx) { back = some (0 ∷ 0 ∷ 0 ∷ 0 ∷ 0 ∷ 0 ∷ 0 ∷ 0 ∷ []); buf_size = 8 };
  fb_export_buf = some (9 ∷ 9 ∷ 9 ∷ 9 ∷ 9 ∷ 9 ∷ 9 ∷ 9 ∷ []);
}

abbrev exporter : Device
exporter = record device { head1 = exporting }

abbrev row : List ℕ
row = 1 ∷ 2 ∷ 3 ∷ 4 ∷ 5 ∷ 6 ∷ 7 ∷ 8 ∷ 0 ∷ 0 ∷ []

abbrev plane : Plane
plane = record { pixels = some row; pitch = 10 }

abbrev waiting : Waiting
waiting = record {
  wakeups = woken (plane_atomic_update params bus 5 plane 1 exporter) ∷ [];
  copies = true;
}

exporter-IsExport :
    IsExport exporter 1 plane row
      (0 ∷ 0 ∷ 0 ∷ 0 ∷ 0 ∷ 0 ∷ 0 ∷ 0 ∷ [])
      (9 ∷ 9 ∷ 9 ∷ 9 ∷ 9 ∷ 9 ∷ 9 ∷ 9 ∷ [])
exporter-IsExport = record {
  user = refl;
  pixels = refl;
  back = refl;
  exported = refl;
  wide = omega arith;
  pitch = omega arith;
  some_pixels = omega arith;
  room = omega arith;
  whole = omega arith;
  given = omega arith;
}

jpeg_misc_read-plane_atomic_update_example :
    WillReturn (IsFrameOf 2 1 10 row) (jpeg_misc_read waiting 1 0 8 exporter)
jpeg_misc_read-plane_atomic_update_example =
    jpeg_misc_read-plane_atomic_update params bus 1 plane waiting 5 8 exporter row
      (0 ∷ 0 ∷ 0 ∷ 0 ∷ 0 ∷ 0 ∷ 0 ∷ 0 ∷ []) (9 ∷ 9 ∷ 9 ∷ 9 ∷ 9 ∷ 9 ∷ 9 ∷ 9 ∷ []) [] exporter-IsExport
      (omega arith) refl refl refl

-- A reader that is roused for nothing, and then has a signal.
abbrev interrupted : Waiting
interrupted = record { wakeups = woken exporter ∷ signal eagain exporter ∷ []; copies = true }

exporter-IsStale : IsStale 1 0 exporter
exporter-IsStale = record { same_seq = refl; plugged = refl }

jpeg_misc_read-GetsNothing_example : GetsNothing (jpeg_misc_read interrupted 1 0 8 exporter)
jpeg_misc_read-GetsNothing_example =
    jpeg_misc_read-GetsNothing interrupted 1 0 8 exporter refl
      (exporter-IsStale, (refl, exporter-IsStale, tt))
