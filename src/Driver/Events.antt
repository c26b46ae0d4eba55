-- ===== src/Driver/Events.antt =====
-- kernel/trigger6_drv.c: the events of a bound device, in any order: its work items and timers, the calls of the
-- display core and of the power management, writes to its device node, and suspends that the transport sees.
pub mod Halted
use jcd543_mct_t6_linux_driv.Prelude.{ℕ, List}
use jcd543_mct_t6_linux_driv.Codec.Huffman.{HuffTables}
use jcd543_mct_t6_linux_driv.Driver.Device.{Device, Params}
use jcd543_mct_t6_linux_driv.Driver.Queue.{Clock}
use jcd543_mct_t6_linux_driv.Driver.Usb.{Bus}
use jcd543_mct_t6_linux_driv.Driver.Keepalive.{keepalive_timeout, boot_keepalive_fn}
use jcd543_mct_t6_linux_driv.Driver.Frame.{frame_work, frame_defer_work}
use jcd543_mct_t6_linux_driv.Driver.Fault.{usb_suspend, usb_resume}
use jcd543_mct_t6_linux_driv.Driver.Modeset.{
  Plane, crtc_atomic_enable, crtc_atomic_disable, plane_atomic_update,
}
use jcd543_mct_t6_linux_driv.Driver.Misc.{jpeg_misc_write}
use jcd543_mct_t6_linux_driv.Driver.Unbind.{Interface, usb_disconnect}

module _ (params : Params) (bus : Bus) (tables : HuffTables) where
  -- One event takes a device to another.
  pub data Step : Device → Device → Type 0 where
    on_frame :
        (clock later : Clock) (idx : ℕ) (t : Device)
        → Step t (frame_work params bus tables clock later idx t)
    on_defer : (idx : ℕ) (t : Device) → Step t (frame_defer_work idx t)
    on_timer :
        (clock : Clock) (idx : ℕ) (t : Device) → Step t (keepalive_timeout params clock idx t)
    on_boot :
        (clock : Clock) (idx : ℕ) (t : Device) → Step t (boot_keepalive_fn params bus clock idx t)
    on_enable :
        (clock : Clock) (idx : ℕ) (t : Device) → Step t (crtc_atomic_enable params bus clock idx t)
    on_disable : (idx : ℕ) (t : Device) → Step t (crtc_atomic_disable params bus idx t)
    on_plane :
        (now_ns : ℕ) (plane : Plane) (idx : ℕ) (t : Device)
        → Step t (plane_atomic_update params bus now_ns plane idx t)
    on_write :
        (clock : Clock) (idx at : ℕ) (image : List ℕ) (t : Device)
        → Step t (jpeg_misc_write params bus clock idx at image t).0
    on_suspend : (t : Device) → Step t (usb_suspend t)
    on_resume : (t : Device) → Step t (usb_resume t)
    on_disconnect :
        (intf locked : Interface) (enabled : List ℕ) (t : Device)
        → Step t (usb_disconnect params bus intf locked enabled t)

  -- A sequence of events.
  pub data Run : Device → Device → Type 0 where
    ended : (t : Device) → Run t t
    then_step : (t u v : Device) → Step t u → Run u v → Run t v
