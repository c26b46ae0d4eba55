-- ===== src/Examples/Lifecycle.antt =====
-- kernel/trigger6_drv.c: a probe, events and a disconnect on concrete devices.
use jcd543_mct_t6_linux_driv.Prelude.{◌≡◌, ◌⊎◌, refl, true, false, none, [], ◌∷◌, ◌++◌}
use jcd543_mct_t6_linux_driv.Prelude.Int.{pos, is_negative}
use jcd543_mct_t6_linux_driv.Policy.Quiesce.Permit.{IsQuiesced}
use jcd543_mct_t6_linux_driv.Driver.Device.{Device, Params}
use jcd543_mct_t6_linux_driv.Driver.Chip.{send_requests, init_head, chip_init}
use jcd543_mct_t6_linux_driv.Driver.Chip.Sent.{init_transfers, chip_init_sends}
use jcd543_mct_t6_linux_driv.Driver.Fault.{usb_resume}
use jcd543_mct_t6_linux_driv.Driver.Usb.{ctrl_out}
use jcd543_mct_t6_linux_driv.Driver.Frame.{frame_work}
use jcd543_mct_t6_linux_driv.Driver.Unbind.{
  Interface, drain_device, final_off_state, final_off_transfer, usb_disconnect,
}
use jcd543_mct_t6_linux_driv.Driver.Unbind.Last.{IsReleased, usb_disconnect-IsReleased}
use jcd543_mct_t6_linux_driv.Driver.Bind.{Core, usb_probe}
use jcd543_mct_t6_linux_driv.Driver.Bind.Guards.{IsPermitted, usb_probe-IsPermitted}
use jcd543_mct_t6_linux_driv.Driver.Bind.Queries.{Reads, usb_probe-Reads}
use jcd543_mct_t6_linux_driv.Driver.Events.{Run, then_step, ended, on_frame, on_resume}
use jcd543_mct_t6_linux_driv.Driver.Events.Halted.{StaysHalted, Run-StaysHalted}
use jcd543_mct_t6_linux_driv.Examples.Policy.{adapter}
use jcd543_mct_t6_linux_driv.Examples.Encoder.{not_ready}
use jcd543_mct_t6_linux_driv.Examples.Data.{device, params, clock, bus}

abbrev faulted : Device
faulted = record device { io_faulted = true }

abbrev worked : Device
worked = frame_work params bus not_ready clock clock 1 faulted

abbrev worked_run : Run params bus not_ready faulted (usb_resume worked)
worked_run = then_step faulted worked (usb_resume worked) (on_frame clock clock 1 faulted) (
    then_step worked (usb_resume worked) (usb_resume worked) (on_resume worked)
      (ended (usb_resume worked)))

Run-StaysHalted_example : StaysHalted faulted (usb_resume worked)
Run-StaysHalted_example =
    Run-StaysHalted params bus not_ready faulted (usb_resume worked) refl worked_run

abbrev pub interface : Interface
interface = record {
  described = true;
  profile = adapter;
  dev_name = 50 ∷ 45 ∷ 49 ∷ [];
  configured = true;
  unbinding = true;
}

usb_disconnect-IsReleased_example :
    let u = usb_disconnect params bus interface interface (0 ∷ 1 ∷ []) device in
    ((u.wire ≡ [])
      ⊎ ((u.wire ≡ [] ++ final_off_transfer ∷ [])
          × IsQuiesced (final_off_state params interface true (drain_device device))))
    × (u.unplugged ≡ true)
    × (u.has_wq ≡ false)
    × IsReleased u.head0
    × IsReleased u.head1
usb_disconnect-IsReleased_example =
    usb_disconnect-IsReleased params bus interface interface (0 ∷ 1 ∷ []) device

abbrev pub core : Core
core = record {
  dev_alloc = pos 0;
  workqueue = true;
  chunk = true;
  room0 = λ n. true;
  room1 = λ n. true;
  objects = pos 0;
  misc_register = pos 0;
  dev_register = pos 0;
}

abbrev pub query_params : Params
query_params = record params {
  device_path = 50 ∷ 45 ∷ 49 ∷ [];
  output_mask = 1;
  query_only = true;
  serialize_usb_bus = true;
}

usb_probe-IsPermitted_example :
    let p = usb_probe query_params bus core interface false [] in
    ((p.wire ≡ []) × (p.bound ≡ none))
    ⊎ (IsPermitted query_params interface false × (p.used ≡ true))
usb_probe-IsPermitted_example = usb_probe-IsPermitted query_params bus core interface false []

usb_probe-Reads_example :
    let p = usb_probe query_params bus core interface false [] in
    (p.bound ≡ none) × Reads query_params [] p.wire
usb_probe-Reads_example = usb_probe-Reads query_params bus core interface false [] refl

chip_init_ok : is_negative (chip_init params bus device).1 ≡ false
unfolding chip_init send_requests init_head ctrl_out
chip_init_ok = refl

chip_init_sends_example :
    ((chip_init params bus device).0.wire ≡ [] ++ init_transfers device)
    × ((chip_init params bus device).0.io_faulted ≡ false)
chip_init_sends_example = chip_init_sends params bus device chip_init_ok
