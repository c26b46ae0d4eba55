-- ===== src/Policy/Refresh.antt =====
-- kernel/trigger6_refresh.h: when the idle refresh of the raw primary head is allowed.
use jcd543_mct_t6_linux_driv.Prelude.{Bool, ◌&&◌, not}

unfoldable pub raw_refresh_allowed : Bool → Bool → Bool → Bool → Bool → Bool → Bool → Bool
raw_refresh_allowed enabled primary_raw manual_only active connected valid_frame faulted =
    enabled && primary_raw && not manual_only && active && connected && valid_frame && not faulted
