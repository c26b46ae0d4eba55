-- ===== src/Driver/Events/Halted.antt =====
-- kernel/trigger6_drv.c: what an event does to a device with a latched I/O error.
use jcd543_mct_t6_linux_driv.Prelude.{ℕ, ◌≡◌, refl, ◌∙◌, Bool, true, false, List, [], ◌∷◌, arith}
use jcd543_mct_t6_linux_driv.Codec.Huffman.{HuffTables}
use jcd543_mct_t6_linux_driv.Driver.Device.{
  Device, Head, Params, get_head, set_head, head_runtime_connected,
}
use jcd543_mct_t6_linux_driv.Driver.Queue.{Clock, queue_head_tx_work}
use jcd543_mct_t6_linux_driv.Driver.Usb.{Bus, ctrl_out}
use jcd543_mct_t6_linux_driv.Driver.Keepalive.{keepalive_timeout, boot_keepalive_fn}
use jcd543_mct_t6_linux_driv.Driver.Frame.{frame_work, frame_defer_work}
use jcd543_mct_t6_linux_driv.Driver.Fault.{
  usb_suspend, usb_resume, cancel_head_activity, hotplug_event,
}
use jcd543_mct_t6_linux_driv.Driver.Modeset.{
  Plane, crtc_atomic_enable, crtc_atomic_disable, plane_atomic_update, export_frame,
}
use jcd543_mct_t6_linux_driv.Driver.Misc.{jpeg_misc_write}
use jcd543_mct_t6_linux_driv.Policy.Quiesce.{final_off_skip}
use jcd543_mct_t6_linux_driv.Driver.Chip.{free_head_buffers}
use jcd543_mct_t6_linux_driv.Driver.Unbind.{
  Interface, drain_device, shut_down, final_off_disconnect, final_off_policy, final_off_state,
  usb_disconnect,
}
use jcd543_mct_t6_linux_driv.Driver.Events.{
  Step, on_frame, on_defer, on_timer, on_boot, on_enable, on_disable, on_plane, on_write,
  on_suspend, on_resume, on_disconnect, Run, ended, then_step,
}

-- The second device has the wire of the first, and its fault.
pub record StaysHalted (t6 t : Device) : Type 0 where
  pub same_wire : t.wire ≡ t6.wire
  pub faulted : t.io_faulted ≡ true

set_head_halted :
    (t6 : Device) (idx : ℕ) (h : Head) → t6.io_faulted ≡ true → StaysHalted t6 (set_head t6 idx h)
set_head_halted t6 idx h f = ground arith

queue_head_tx_work_halted :
    (idx : ℕ) (t6 : Device) → t6.io_faulted ≡ true → StaysHalted t6 (queue_head_tx_work idx t6)
unfolding queue_head_tx_work
queue_head_tx_work_halted idx t6 f = ground arith

-- The first of two steps that stay halted gives the premise of the second.
StaysHalted-trans : (a b c : Device) → StaysHalted a b → StaysHalted b c → StaysHalted a c
StaysHalted-trans a b c u v = record { same_wire = v.same_wire ∙ u.same_wire; faulted = v.faulted }

frame_defer_work_halted :
    (idx : ℕ) (t : Device) → t.io_faulted ≡ true → StaysHalted t (frame_defer_work idx t)
unfolding frame_defer_work queue_head_tx_work
frame_defer_work_halted idx t f = ground arith

cancel_halted : (t : Device) → StaysHalted t (usb_suspend t) × StaysHalted t (usb_resume t)
unfolding usb_suspend usb_resume cancel_head_activity hotplug_event
cancel_halted t = ground arith

free_halted : (t : Device) → t.io_faulted ≡ true → StaysHalted t (free_head_buffers t)
unfolding free_head_buffers
free_halted t f = ground arith

drain_halted : (t : Device) → t.io_faulted ≡ true → StaysHalted t (drain_device t)
unfolding drain_device cancel_head_activity
drain_halted t f = ground arith

not_connected : (t : Device) (h : Head) → t.io_faulted ≡ true → head_runtime_connected t h ≡ false
unfolding head_runtime_connected
not_connected t h f = ground arith

module _ (params : Params) where
  keepalive_timeout_halted :
      (clock : Clock) (idx : ℕ) (t : Device)
      → t.io_faulted ≡ true
      → StaysHalted t (keepalive_timeout params clock idx t)
  unfolding keepalive_timeout
  keepalive_timeout_halted clock idx t f = ground arith

  final_off_halted :
      (intf locked : Interface) (was : Bool) (t : Device)
      → t.io_faulted ≡ true
      → StaysHalted t (final_off_disconnect params intf locked was t)
  unfolding final_off_disconnect final_off_policy final_off_state final_off_skip
  final_off_halted intf locked was t f = ground arith

module _ (params : Params) (bus : Bus) where
  boot_keepalive_halted :
      (clock : Clock) (idx : ℕ) (t : Device)
      → t.io_faulted ≡ true
      → StaysHalted t (boot_keepalive_fn params bus clock idx t)
  unfolding boot_keepalive_fn
  boot_keepalive_halted clock idx t f = ground arith

  crtc_enable_halted :
      (clock : Clock) (idx : ℕ) (t : Device)
      → t.io_faulted ≡ true
      → StaysHalted t (crtc_atomic_enable params bus clock idx t)
  unfolding crtc_atomic_enable
  crtc_enable_halted clock idx t f = ground (arith, not_connected t (get_head t idx) f)

  crtc_disable_halted :
      (idx : ℕ) (t : Device)
      → t.io_faulted ≡ true
      → StaysHalted t (crtc_atomic_disable params bus idx t)
  unfolding crtc_atomic_disable ctrl_out
  crtc_disable_halted idx t f = ground arith

  shut_down_halted :
      (enabled : List ℕ) (t : Device)
      → t.io_faulted ≡ true
      → StaysHalted t (shut_down params bus enabled t)
  unfolding shut_down
  shut_down_halted [] t f = record { same_wire = refl; faulted = f }
  shut_down_halted (idx ∷ rest) t f =
      let next = crtc_atomic_disable params bus idx t in
      let here = crtc_disable_halted idx t f in
      StaysHalted-trans t next (shut_down params bus rest next) here
        (shut_down_halted rest next here.faulted)

  plane_halted :
      (now_ns : ℕ) (plane : Plane) (idx : ℕ) (t : Device)
      → t.io_faulted ≡ true
      → StaysHalted t (plane_atomic_update params bus now_ns plane idx t)
  unfolding plane_atomic_update export_frame
  plane_halted now_ns plane idx t f = ground arith

  misc_write_halted :
      (clock : Clock) (idx at : ℕ) (image : List ℕ) (t : Device)
      → t.io_faulted ≡ true
      → StaysHalted t (jpeg_misc_write params bus clock idx at image t).0
  unfolding jpeg_misc_write
  misc_write_halted clock idx at image t f = ground arith

  disconnect_halted :
      (intf locked : Interface) (enabled : List ℕ) (t : Device)
      → t.io_faulted ≡ true
      → StaysHalted t (usb_disconnect params bus intf locked enabled t)
  unfolding usb_disconnect
  disconnect_halted intf locked enabled t f =
      let was = t.head0.scanout_active in
      let d = drain_device t in
      let off = final_off_disconnect params intf locked was d in
      let s = shut_down params bus enabled off in
      let hd = drain_halted t f in
      let ho = final_off_halted params intf locked was d hd.faulted in
      let hs = shut_down_halted enabled off ho.faulted in
      StaysHalted-trans t d (free_head_buffers s) hd (
        StaysHalted-trans d off (free_head_buffers s) ho
          (StaysHalted-trans off s (free_head_buffers s) hs (free_halted s hs.faulted)))

module _ (params : Params) (bus : Bus) (tables : HuffTables) where
  frame_work_halted :
      (clock later : Clock) (idx : ℕ) (t : Device)
      → t.io_faulted ≡ true
      → StaysHalted t (frame_work params bus tables clock later idx t)
  unfolding frame_work
  frame_work_halted clock later idx t f = ground arith

  Step-StaysHalted :
      (t u : Device) → Step params bus tables t u → t.io_faulted ≡ true → StaysHalted t u
  Step-StaysHalted _ _ (on_frame clock later idx t) f = frame_work_halted clock later idx t f
  Step-StaysHalted _ _ (on_defer idx t) f = frame_defer_work_halted idx t f
  Step-StaysHalted _ _ (on_timer clock idx t) f = keepalive_timeout_halted params clock idx t f
  Step-StaysHalted _ _ (on_boot clock idx t) f = boot_keepalive_halted params bus clock idx t f
  Step-StaysHalted _ _ (on_enable clock idx t) f = crtc_enable_halted params bus clock idx t f
  Step-StaysHalted _ _ (on_disable idx t) f = crtc_disable_halted params bus idx t f
  Step-StaysHalted _ _ (on_plane now_ns plane idx t) f =
      plane_halted params bus now_ns plane idx t f
  Step-StaysHalted _ _ (on_write clock idx at image t) f =
      misc_write_halted params bus clock idx at image t f
  Step-StaysHalted _ _ (on_suspend t) f = (cancel_halted t).0
  Step-StaysHalted _ _ (on_resume t) f = (cancel_halted t).1
  Step-StaysHalted _ _ (on_disconnect intf locked enabled t) f =
      disconnect_halted params bus intf locked enabled t f

  -- Once an I/O error is latched, no sequence of events makes a transfer, and the error stays latched: not the
  -- work items and timers, nor enabling or disabling an output, an update of a plane, a write of an image, suspend, resume or
  -- disconnect.
  pub Run-StaysHalted :
      (t u : Device) → t.io_faulted ≡ true → Run params bus tables t u → StaysHalted t u
  Run-StaysHalted _ _ f (ended t) = record { same_wire = refl; faulted = f }
  Run-StaysHalted _ _ f (then_step t u v s rest) =
      let here = Step-StaysHalted t u s f in
      StaysHalted-trans t u v here (Run-StaysHalted u v here.faulted rest)
