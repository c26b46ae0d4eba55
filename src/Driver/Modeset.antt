-- ===== src/Driver/Modeset.antt =====
-- kernel/trigger6_drv.c: what the display core calls on a head: enabling and disabling the output, and
-- the update of its plane, with `t6_pack_xrgb8888_tight`; kernel/trigger6_connector.c: `t6_connector_detect`
-- and `t6_mode_supported`.
pub mod Rows
use jcd543_mct_t6_linux_driv.Prelude.{
  ℕ, zero, suc, ◌+◌, ◌*◌, ◌^◌, Bool, true, false, ◌&&◌, ◌||◌, not, ltb, ◌==◌, if◌then◌else◌, Option,
  none, some, List, [], ◌++◌, take, drop, length,
}
use jcd543_mct_t6_linux_driv.Prelude.Words.{u32}
use jcd543_mct_t6_linux_driv.Prelude.Int.{ℤ, pos, is_zero, is_negative}
use jcd543_mct_t6_linux_driv.Prelude.Errno.{einval, e2big, enodev}
use jcd543_mct_t6_linux_driv.Driver.Device.{
  Device, Head, HeadMetrics, Params, Setup, get_head, set_head, is_user_jpeg,
  head_runtime_connected, record_timing,
}
use jcd543_mct_t6_linux_driv.Driver.Queue.{Clock, is_null, stage_pending, queue_head_tx_work}
use jcd543_mct_t6_linux_driv.Driver.Usb.{Bus, ctrl_out}
use jcd543_mct_t6_linux_driv.Driver.Raw.{refresh_ms, arm, raw_refresh_eligible}
use jcd543_mct_t6_linux_driv.Driver.Jpeg.{bytes_of, put_at}

-- The fields of a `drm_display_mode` that `drm_mode_equal` compares here.
pub record Mode : Type 0 where
  pub clock : ℕ
  pub hdisplay : ℕ
  pub hsync_start : ℕ
  pub hsync_end : ℕ
  pub htotal : ℕ
  pub vdisplay : ℕ
  pub vsync_start : ℕ
  pub vsync_end : ℕ
  pub vtotal : ℕ

-- The loop of `t6_pack_xrgb8888_tight` over the `n` rows that are left, from row `y` on.
unfoldable pub pack_rows : ℕ → ℕ → List ℕ → ℕ → ℕ → List ℕ → List ℕ
pack_rows row_bytes src_stride src zero y dst = dst
pack_rows row_bytes src_stride src (suc n) y dst =
    pack_rows row_bytes src_stride src n (y + 1)
      (put_at (y * row_bytes) (take row_bytes (drop (y * src_stride) src)) dst)

-- `t6_pack_xrgb8888_tight`: the returned value, and the destination.
unfoldable pub pack_xrgb8888_tight :
    ℕ → ℕ → Option (List ℕ) → ℕ → Option (List ℕ) → ℕ → ℤ × Option (List ℕ)
unfolding pack_rows
pack_xrgb8888_tight width height src src_stride dst dst_size =
    let row_bytes = u32 (width * 4) in
    let size = row_bytes * height in
    if is_null src || is_null dst || ltb src_stride row_bytes
    then (einval, dst)
    else if ltb dst_size size
    then (e2big, dst)
    else if src_stride == row_bytes
    then (pos 0, some (put_at 0 (take size (bytes_of src)) (bytes_of dst)))
    else (pos 0, some (pack_rows row_bytes src_stride (bytes_of src) height 0 (bytes_of dst)))

-- The plane's framebuffer: its address in the kernel, if it is mapped, and its pitch.
pub record Plane : Type 0 where
  pub pixels : Option (List ℕ)
  pub pitch : ℕ

abbrev pub monitor_ctrl : ℕ → ℕ → Setup
monitor_ctrl output_idx on = record { req = 0x03; val = output_idx; idx = on; size = 0 }

-- `t6_crtc_atomic_disable` up to the last request.
unfoldable pub quiesce_head : Head → Head
quiesce_head h = record h {
  scanout_active = false;
  boot_keepalive_work = none;
  keepalive_timer = none;
  tx_defer_work = none;
  tx_work_queued = false;
  tx = record (h.tx) { keepalive_due = false };
  last_sent_valid = false;
  last_jpeg_data = none;
  last_jpeg_len = 0;
}

module _ (params : Params) (bus : Bus) where
  -- `t6_crtc_atomic_enable`, for a state of the CRTC that is there.
  unfoldable pub crtc_atomic_enable : Clock → ℕ → Device → Device
  unfolding raw_refresh_eligible
  crtc_atomic_enable clock idx t6 =
      let h = get_head t6 idx in
      let quiet =
        set_head t6 idx (record h { boot_keepalive_work = none; keepalive_timer = none }) in
      let (t, ret) = ctrl_out params bus (monitor_ctrl h.output_idx 1) none quiet in
      let active = record (get_head t idx) { scanout_active = true } in
      let on = set_head t idx active in
      if not (head_runtime_connected t6 h)
      then t6
      else if t6.unplugged
      then quiet
      else if is_negative ret
      then t
      else if raw_refresh_eligible params on active
      then set_head on idx (arm clock refresh_ms active)
      else on

  -- `t6_crtc_atomic_disable`
  unfoldable pub crtc_atomic_disable : ℕ → Device → Device
  unfolding quiesce_head
  crtc_atomic_disable idx t6 =
      let h = get_head t6 idx in
      let quiet = set_head t6 idx (quiesce_head h) in
      if not h.sink.connected || t6.unplugged
      then quiet
      else (ctrl_out params bus (monitor_ctrl h.output_idx 0) none quiet).0

  -- The compositor's frame for the daemon: `tx_back` gets it, and changes places with `fb_export_buf`.
  unfoldable pub export_frame : Plane → ℕ → Device → Device
  unfolding pack_xrgb8888_tight
  export_frame plane idx t6 =
      let h = get_head t6 idx in
      let m = h.metrics in
      let size = h.sink.width * h.sink.height * 4 in
      let (ret, packed) =
        pack_xrgb8888_tight h.sink.width h.sink.height plane.pixels plane.pitch h.tx.back
          h.tx.buf_size in
      if is_null plane.pixels || ltb h.tx.buf_size size || is_null h.fb_export_buf
      then t6
      else if not (is_zero ret)
      then set_head t6 idx (record h { tx = record (h.tx) { back = packed } })
      else set_head t6 idx (record h {
        metrics = record m { stage = record_timing (bus.elapsed_ns t6.wire) m.stage };
        fb_export_buf = packed;
        fb_export_len = size;
        tx = record (h.tx) { back = h.fb_export_buf };
        fb_export_seq = u32 (h.fb_export_seq + 1);
      })

  -- The part of `t6_plane_atomic_update` under `tx_lock`, and what follows; `now_ns` is the time.
  unfoldable pub stage_frame : ℕ → Plane → ℕ → Device → Device
  unfolding pack_xrgb8888_tight
  stage_frame now_ns plane idx t6 =
      let h = get_head t6 idx in
      let m = h.metrics in
      let tried = record m { queue_attempts = m.queue_attempts + 1 } in
      let size = h.sink.width * h.sink.height * 4 in
      let (ret, packed) =
        pack_xrgb8888_tight h.sink.width h.sink.height plane.pixels plane.pitch h.tx.back
          h.tx.buf_size in
      let written = record h { tx = record (h.tx) { back = packed } } in
      if not (is_zero ret)
      then set_head t6 idx (record written { metrics = tried })
      else (let timed = record written {
        metrics = record tried { stage = record_timing (bus.elapsed_ns t6.wire) m.stage };
      } in
          queue_head_tx_work idx
            (set_head t6 idx (stage_pending size (u32 (h.sink.width * 4)) now_ns timed)))

  -- `t6_plane_atomic_update`, for a plane with a framebuffer.
  unfoldable pub plane_atomic_update : ℕ → Plane → ℕ → Device → Device
  unfolding export_frame stage_frame
  plane_atomic_update now_ns plane idx t6 =
      let h = get_head t6 idx in
      let size = h.sink.width * h.sink.height * 4 in
      if is_user_jpeg h.transport
      then export_frame plane idx t6
      else if t6.manual_only
          || t6.io_faulted
          || not (head_runtime_connected t6 h)
          || is_null plane.pixels
      then t6
      else if h.sink.width == 0 || h.sink.height == 0
      then t6
      else if plane.pitch == 0 || ltb h.tx.buf_size size
      then t6
      else if t6.unplugged
      then t6
      else stage_frame now_ns plane idx t6

-- `t6_1080p_mode`
abbrev pub mode_1080p60 : Mode
mode_1080p60 = record {
  clock = 148500;
  hdisplay = 1920;
  hsync_start = 2008;
  hsync_end = 2052;
  htotal = 2200;
  vdisplay = 1080;
  vsync_start = 1084;
  vsync_end = 1089;
  vtotal = 1125;
}

-- `t6_connector_detect`: whether it answers `connector_status_connected`.
unfoldable pub connector_detect : Device → ℕ → Bool
connector_detect t6 idx = head_runtime_connected t6 (get_head t6 idx)

-- `t6_crtc_atomic_check` for a state that is there, with `drm_mode_equal` as a parameter.
unfoldable pub crtc_atomic_check : (Mode → Mode → Bool) → Bool → Bool → Mode → Device → ℕ → ℤ
unfolding connector_detect
crtc_atomic_check mode_equal enable active mode t6 idx =
    if enable && not (mode_equal mode mode_1080p60)
    then einval
    else if active && not (connector_detect t6 idx)
    then enodev
    else pos 0
