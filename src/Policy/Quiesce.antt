-- ===== src/Policy/Quiesce.antt =====
-- kernel/trigger6_quiesce.h: whether the one final monitor-off request may be sent on unbind.
pub mod Permit
use jcd543_mct_t6_linux_driv.Prelude.{
  ℕ, Bool, true, false, ◌&&◌, ◌||◌, not, ◌==◌, if◌then◌else◌, Option, none, some,
}
use jcd543_mct_t6_linux_driv.Prelude.Int.{ℤ, pos, ltb_ℤ}
use jcd543_mct_t6_linux_driv.Prelude.Errno.{eio}

-- `struct t6_final_off_state`
pub record FinalOffState : Type 0 where
  pub enabled : Bool
  pub manual_only : Bool
  pub query_only : Bool
  pub output_mask : ℕ
  pub profile_matches : Bool
  pub path_matches : Bool
  pub primary_raw : Bool
  pub was_active : Bool
  pub sink_valid : Bool
  pub edid_valid : Bool
  pub faulted : Bool
  pub usb_configured : Bool
  pub unbinding : Bool
  pub drained : Bool

-- The reason strings; `none` is the NULL that alone permits the request.
pub data SkipReason : Type 0 where
  disabled read_only_mode not_primary_raw device_mismatch already_inactive : SkipReason
  invalid_cached_sink prior_io_fault not_configured_unbind activity_not_drained : SkipReason

unfoldable pub final_off_skip : FinalOffState → Option SkipReason
final_off_skip s =
    if not s.enabled
    then some disabled
    else if s.manual_only || s.query_only
    then some read_only_mode
    else if not (s.output_mask == 1) || not s.primary_raw
    then some not_primary_raw
    else if not s.profile_matches || not s.path_matches
    then some device_mismatch
    else if not s.was_active
    then some already_inactive
    else if not s.sink_valid || not s.edid_valid
    then some invalid_cached_sink
    else if s.faulted
    then some prior_io_fault
    else if not s.usb_configured || not s.unbinding
    then some not_configured_unbind
    else if not s.drained
    then some activity_not_drained
    else none

-- A zero-length control request succeeds only at zero.
pub final_off_error : ℤ → ℤ
final_off_error ret = if ltb_ℤ (pos 0) ret then eio else ret
