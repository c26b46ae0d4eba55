-- ===== src/Driver/Unbind.antt =====
-- kernel/trigger6_drv.c: `t6_match_interface`, the last monitor-off and `t6_usb_disconnect`.
pub mod Last
use jcd543_mct_t6_linux_driv.Prelude.{
  ℕ, Bool, true, false, ◌&&◌, ◌||◌, not, ◌==◌, if◌then◌else◌, Option, none, some, List, [], ◌∷◌,
  length,
}
use jcd543_mct_t6_linux_driv.Policy.Match.{UsbProfile, profile_matches}
use jcd543_mct_t6_linux_driv.Policy.Quiesce.{FinalOffState, SkipReason, final_off_skip}
use jcd543_mct_t6_linux_driv.Driver.Device.{
  Device, Head, Params, Transfer, control_out, get_head, is_raw,
}
use jcd543_mct_t6_linux_driv.Driver.Damage.{same_bytes}
use jcd543_mct_t6_linux_driv.Driver.Probe.{edid_base_block_valid}
use jcd543_mct_t6_linux_driv.Driver.Usb.{Bus, submit}
use jcd543_mct_t6_linux_driv.Driver.Fault.{cancel_head_activity}
use jcd543_mct_t6_linux_driv.Driver.Chip.{free_head_buffers}
use jcd543_mct_t6_linux_driv.Driver.Modeset.{crtc_atomic_disable, monitor_ctrl}

-- What the USB core keeps of an interface and of its device: whether there are an active configuration and
-- alternate setting, the descriptors (`superspeed` is 1 for `USB_SPEED_SUPER`), the device's name, whether its
-- state is `USB_STATE_CONFIGURED`, and whether the interface is unbinding.
pub record Interface : Type 0 where
  pub described : Bool
  pub profile : UsbProfile
  pub dev_name : List ℕ
  pub configured : Bool
  pub unbinding : Bool

-- `t6_match_interface`
unfoldable pub match_interface : Interface → Bool
match_interface intf =
    if not intf.described || not (intf.profile.endpoint_count == 3)
    then false
    else profile_matches intf.profile

-- `t6_device_path[0] && !strcmp(t6_device_path, dev_name(...))`; a string is its characters before the zero.
abbrev pub path_matches : Params → Interface → Bool
path_matches params intf =
    not (length params.device_path == 0) && same_bytes params.device_path intf.dev_name

-- The state that `t6_final_off_policy` collects.
unfoldable pub final_off_state : Params → Interface → Bool → Device → FinalOffState
final_off_state params intf was_active t6 =
    let h = t6.head0 in
    record {
      enabled = params.final_monitor_off;
      manual_only = t6.manual_only;
      query_only = params.query_only;
      output_mask = t6.output_mask;
      profile_matches = match_interface intf;
      path_matches = path_matches params intf;
      primary_raw = is_raw h.transport;
      was_active = was_active;
      sink_valid = h.sink.connected && h.sink.status == 1;
      edid_valid = h.sink.edid_len == 128 && edid_base_block_valid h.sink.edid_data;
      faulted = t6.io_faulted || h.io_faulted;
      usb_configured = intf.configured;
      unbinding = intf.unbinding;
      drained = t6.unplugged && not t6.has_wq;
    }

-- `t6_final_off_policy`
unfoldable pub final_off_policy : Params → Interface → Bool → Device → Option SkipReason
final_off_policy params intf was_active t6 =
    final_off_skip (final_off_state params intf was_active t6)

abbrev pub final_off_transfer : Transfer
final_off_transfer = control_out (monitor_ctrl 0 0) []

-- `t6_final_off_disconnect`, with the interface as it is at the first look and at the one under the lock.
-- What the request returns is only shown.
unfoldable pub final_off_disconnect : Params → Interface → Interface → Bool → Device → Device
unfolding final_off_policy
final_off_disconnect params intf locked was_active t6 =
    if not params.final_monitor_off then t6 else elim (final_off_policy params intf was_active t6) [
      | some skip ↦ t6
      | none ↦ elim (final_off_policy params locked was_active t6) [
        | some skip ↦ t6
        | none ↦ submit final_off_transfer t6
      ]
    ]

-- `t6_usb_disconnect` up to the last request: unplugged, all work cancelled, and the work queue destroyed.
unfoldable pub drain_device : Device → Device
unfolding cancel_head_activity
drain_device t6 = record (cancel_head_activity (record t6 { unplugged = true })) { has_wq = false }

module _ (params : Params) (bus : Bus) where
  -- `drm_atomic_helper_shutdown`, for the heads whose output the display core still has on.
  unfoldable pub shut_down : List ℕ → Device → Device
  unfolding crtc_atomic_disable
  shut_down [] t6 = t6
  shut_down (idx ∷ rest) t6 = shut_down rest (crtc_atomic_disable params bus idx t6)

  -- `t6_usb_disconnect`, for an interface whose device is `t6`.
  unfoldable pub usb_disconnect : Interface → Interface → List ℕ → Device → Device
  unfolding final_off_disconnect drain_device shut_down free_head_buffers
  usb_disconnect intf locked enabled t6 =
      let off = final_off_disconnect params intf locked t6.head0.scanout_active (drain_device t6) in
      free_head_buffers (shut_down enabled off)
