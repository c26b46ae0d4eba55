-- ===== src/Examples/Bound.antt =====
-- kernel/trigger6_drv.c: a probe of a dock with 58 megabytes and one monitor, which binds it.
use jcd543_mct_t6_linux_driv.Prelude.{
  ℕ, ◌≡◌, ◌==◌, refl, true, false, some, List, [], ◌∷◌, if◌then◌else◌,
}
use jcd543_mct_t6_linux_driv.Prelude.Int.{pos, is_zero, is_negative}
use jcd543_mct_t6_linux_driv.Driver.Device.{Device, Params, Setup, Transfer}
use jcd543_mct_t6_linux_driv.Driver.Usb.{Bus, ctrl_in, ctrl_out}
use jcd543_mct_t6_linux_driv.Policy.Match.{
  profile_matches, header_matches, endpoints_match, see, endpoint_bit, output_mask_valid,
}
use jcd543_mct_t6_linux_driv.Driver.Probe.{probe_head, read_edid, accept_edid, checksum}
use jcd543_mct_t6_linux_driv.Driver.Chip.{
  head_defaults, with_buffers, alloc_head_buffers, alloc_head, chip_init, send_requests, init_head,
}
use jcd543_mct_t6_linux_driv.Driver.Unbind.{match_interface}
use jcd543_mct_t6_linux_driv.Driver.Bind.{
  fresh_device, active_options, query_ram, probe_fresh_head, query_sinks, register_device,
  initialize_device, start_device, active_probe, usb_probe,
}
use jcd543_mct_t6_linux_driv.Driver.Bind.Ready.{IsStarted, usb_probe-IsStarted}
use jcd543_mct_t6_linux_driv.Examples.Probe.{edid_block}
use jcd543_mct_t6_linux_driv.Examples.Lifecycle.{interface, core, query_params}
use jcd543_mct_t6_linux_driv.Examples.Data.{bus}

abbrev active_params : Params
active_params = record query_params { query_only = false }

-- What the dock answers to the queries.
abbrev answers : List Transfer → Setup → List ℕ
answers w s =
    if s.req == 0x88 then 58 ∷ 0 ∷ 0 ∷ 0 ∷ [] else if s.req == 0x87 then 1 ∷ [] else edid_block

abbrev dock : Bus
dock = record bus { control_data = answers }

abbrev queried : Device
queried = (query_sinks active_params dock (fresh_device active_params [])).0

abbrev bound_device : Device
bound_device = (start_device active_params dock core queried).0

interface_matches : match_interface interface ≡ true
unfolding match_interface profile_matches header_matches endpoints_match see endpoint_bit
interface_matches = refl

options_fit : active_options active_params false ≡ pos 0
unfolding active_options output_mask_valid
options_fit = refl

queries_succeed :
    is_negative (query_sinks active_params dock (fresh_device active_params [])).1 ≡ false
unfolding query_sinks query_ram probe_fresh_head ctrl_in probe_head read_edid accept_edid
    head_defaults checksum
queries_succeed = refl

start_succeeds : is_zero (start_device active_params dock core queried).1 ≡ true
unfolding start_device initialize_device query_sinks query_ram probe_fresh_head ctrl_in probe_head
    read_edid accept_edid alloc_head_buffers alloc_head chip_init send_requests init_head ctrl_out
    register_device head_defaults checksum with_buffers
start_succeeds = refl

dock_binds : (usb_probe active_params dock core interface false []).bound ≡ some bound_device
unfolding usb_probe active_probe
dock_binds = rw (interface_matches, options_fit, queries_succeed, start_succeeds) refl

usb_probe-IsStarted_example :
    (is_zero (usb_probe active_params dock core interface false []).ret ≡ true)
    × ((usb_probe active_params dock core interface false []).wire ≡ bound_device.wire)
    × (bound_device.ram_mb ≡ 58)
    × IsStarted queried bound_device
usb_probe-IsStarted_example =
    usb_probe-IsStarted active_params dock core interface false [] bound_device dock_binds
