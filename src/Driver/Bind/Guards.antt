-- ===== src/Driver/Bind/Guards.antt =====
-- kernel/trigger6_drv.c: what must hold before a probe touches the device.
use jcd543_mct_t6_linux_driv.Prelude.{◌≡◌, ◌⊎◌, Bool, true, false, none, List, arith}
use jcd543_mct_t6_linux_driv.Prelude.Int.{pos}
use jcd543_mct_t6_linux_driv.Policy.Match.{profile_matches, output_mask_valid}
use jcd543_mct_t6_linux_driv.Driver.Device.{Params, Transfer}
use jcd543_mct_t6_linux_driv.Driver.Usb.{Bus}
use jcd543_mct_t6_linux_driv.Driver.Unbind.{Interface, match_interface, path_matches}
use jcd543_mct_t6_linux_driv.Driver.Bind.{Core, active_options, usb_probe, active_probe}

-- The permission for an active probe.
pub record IsPermitted (params : Params) (intf : Interface) (used : Bool) : Type 0 where
  pub profile : profile_matches intf.profile ≡ true
  pub path : path_matches params intf ≡ true
  pub mask : (params.output_mask ≡ 1) ⊎ (params.output_mask ≡ 2)
  pub automatic : params.manual_only ≡ false
  pub transports :
      (params.experimental_secondary_raw ≡ false) × (params.secondary_userspace_jpeg ≡ false)
  pub serialized : params.serialize_usb_bus ≡ true
  pub first_probe : used ≡ false
  pub last_off :
      (params.final_monitor_off ≡ false) ⊎ ((params.query_only ≡ false) × (params.output_mask ≡ 1))
  pub page : (params.query_timing_page1 ≡ false) ⊎ (params.query_timings ≡ true)
  pub shim : (params.aquamarine_evdi_name ≡ false) ⊎ (params.output_mask ≡ 1)
  pub refresh : (params.raw_idle_refresh ≡ false) ⊎ (params.output_mask ≡ 1)
  pub timings :
      (params.query_timings ≡ false)
      ⊎ ((params.query_only ≡ true)
          × (params.output_mask ≡ 1)
          × (params.aquamarine_evdi_name ≡ false)
          × (params.raw_idle_refresh ≡ false))

active_options-IsPermitted :
    (params : Params) (intf : Interface) (used : Bool)
    → match_interface intf ≡ true
    → path_matches params intf ≡ true
    → params.manual_only ≡ false
    → active_options params used ≡ pos 0
    → IsPermitted params intf used
unfolding active_options match_interface output_mask_valid
active_options-IsPermitted params intf used m p a o = ground arith

module _ (params : Params) (bus : Bus) (core : Core) where
  -- A probe makes no transfer and binds no device, or everything that permits an active probe holds: the descriptors
  -- are those of the dock, its path is the configured one, the parameters select one output with the default
  -- transports and USB serialization and fit together, and no active probe was made since the module was loaded; then
  -- the one active probe is used up.
  pub usb_probe-IsPermitted :
      (intf : Interface) (used : Bool) (wire : List Transfer)
      → let p = usb_probe params bus core intf used wire in
        ((p.wire ≡ wire) × (p.bound ≡ none)) ⊎ (IsPermitted params intf used × (p.used ≡ true))
  unfolding usb_probe active_probe
  usb_probe-IsPermitted intf used wire = ground (arith, active_options-IsPermitted params intf used)
