-- ===== src/Policy/Quiesce/Permit.antt =====
-- kernel/trigger6_quiesce.h: exactly when the final request is permitted.
use jcd543_mct_t6_linux_driv.Prelude.{◌≡◌, ◌↔◌, true, false, none, arith}
use jcd543_mct_t6_linux_driv.Policy.Quiesce.{FinalOffState, final_off_skip}

-- All that the comment above `t6_final_off_disconnect` asks of the device and the module.
pub record IsQuiesced (s : FinalOffState) : Type 0 where
  pub asked : (s.enabled ≡ true) × (s.manual_only ≡ false) × (s.query_only ≡ false)
  pub primary : (s.output_mask ≡ 1) × (s.primary_raw ≡ true) × (s.was_active ≡ true)
  pub same_device : (s.profile_matches ≡ true) × (s.path_matches ≡ true)
  pub sink : (s.sink_valid ≡ true) × (s.edid_valid ≡ true)
  pub healthy : s.faulted ≡ false
  pub leaving : (s.usb_configured ≡ true) × (s.unbinding ≡ true) × (s.drained ≡ true)

-- The final monitor-off is permitted exactly when every condition holds: the option is set, the run
-- is not read-only, output 1 is driven raw and was active, the device and port path are the configured ones, the
-- cached sink and EDID are valid, no I/O fault is latched, and the interface of a configured device is
-- unbinding with all activity drained.
pub final_off_skip-none_iff : (s : FinalOffState) → (final_off_skip s ≡ none) ↔ IsQuiesced s
unfolding final_off_skip
final_off_skip-none_iff s = ground arith
