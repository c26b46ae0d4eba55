-- ===== src/Driver/Settings.antt =====
-- kernel/trigger6_drv.c: the module parameters that are checked when they are set; kernel/trigger6_connector.c: what
-- `t6_connector_init` leaves in the connector, and `t6_connector_mode_valid_common`.
use jcd543_mct_t6_linux_driv.Prelude.{ℕ, Bool, true, false, not, ◌||◌, ltb, if◌then◌else◌}
use jcd543_mct_t6_linux_driv.Prelude.Int.{ℤ, pos, is_zero}
use jcd543_mct_t6_linux_driv.Prelude.Errno.{einval}
use jcd543_mct_t6_linux_driv.Driver.Device.{Params}
use jcd543_mct_t6_linux_driv.Driver.Modeset.{Mode, mode_1080p60}

-- Setting a parameter, for what `kstrtouint` returns for the text and the number that it reads: the parameters, and the
-- returned value.
abbrev pub Setting : Type 0
Setting = ℤ → ℕ → Params → Params × ℤ

unfoldable pub set_jpeg_quality : Setting
set_jpeg_quality ret v params =
    if not (is_zero ret)
    then (params, ret)
    else if ltb v 1 || ltb 100 v
    then (params, einval)
    else (record params { jpeg_quality = v }, pos 0)

unfoldable pub set_frame_min_interval_ms : Setting
set_frame_min_interval_ms ret v params =
    if not (is_zero ret)
    then (params, ret)
    else if ltb 1000 v
    then (params, einval)
    else (record params { frame_min_interval_ms = v }, pos 0)

unfoldable pub set_secondary_frame_min_interval_ms : Setting
set_secondary_frame_min_interval_ms ret v params =
    if not (is_zero ret)
    then (params, ret)
    else if ltb 5000 v
    then (params, einval)
    else (record params { secondary_frame_min_interval_ms = v }, pos 0)

-- The fields of a `drm_connector` that are set here; `horizontal_rgb` says that the subpixels are.
pub record ConnectorSetup : Type 0 where
  pub has_helpers : Bool
  pub horizontal_rgb : Bool
  pub polled : ℕ
  pub interlace_allowed : Bool
  pub doublescan_allowed : Bool

-- `t6_connector_init`, with what `drm_connector_init` returns and leaves as parameters.
unfoldable pub connector_init : ℤ → ConnectorSetup → ConnectorSetup × ℤ
connector_init ret c = if not (is_zero ret) then (c, ret) else (
  record {
    has_helpers = true;
    horizontal_rgb = true;
    polled = 0;
    interlace_allowed = false;
    doublescan_allowed = false;
  },
  pos 0,
)

-- `t6_connector_mode_valid_common`: whether a mode is good, with `drm_mode_equal` as a parameter.
unfoldable pub connector_mode_valid : (Mode → Mode → Bool) → Mode → Bool
connector_mode_valid mode_equal mode = mode_equal mode mode_1080p60
