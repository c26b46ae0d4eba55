-- ===== src/Driver/Misc.antt =====
-- kernel/trigger6_drv.c: `t6_jpeg_misc_write`, by which a program sends a JPEG image of its own, and what a read
-- of the exported frame gives; `t6_plane_atomic_check`; kernel/trigger6_connector.c: `t6_connector_get_modes`.
use jcd543_mct_t6_linux_driv.Prelude.{
  ℕ, ◌*◌, ◌^◌, Bool, ◌&&◌, ◌||◌, not, ltb, ◌==◌, if◌then◌else◌, Option, none, some, List, ◌∷◌,
  get_or, length,
}
use jcd543_mct_t6_linux_driv.Prelude.Int.{ℤ, pos, is_zero}
use jcd543_mct_t6_linux_driv.Prelude.Errno.{eio, enomem, enodev, efault, einval, espipe, eopnotsupp}
use jcd543_mct_t6_linux_driv.Driver.Device.{
  Device, Params, get_head, set_head, is_user_jpeg, head_runtime_connected, record_timing,
  head_record_send_error, from_userspace_jpeg,
}
use jcd543_mct_t6_linux_driv.Driver.Queue.{Clock}
use jcd543_mct_t6_linux_driv.Driver.Usb.{Bus}
use jcd543_mct_t6_linux_driv.Driver.Jpeg.{outside, send_jpeg_blob}
use jcd543_mct_t6_linux_driv.Driver.Fault.{trip_transport_fault}
use jcd543_mct_t6_linux_driv.Driver.Modeset.{Mode, mode_1080p60}

-- `error ? error : -EIO`
abbrev pub error_or_eio : ℤ → ℤ
error_or_eio error = if is_zero error then eio else error

module _ (params : Params) (bus : Bus) where
  -- What follows the send: the error is counted and trips the fault, or the time is counted.
  unfoldable pub finish_write : ℕ → ℕ → Device × ℤ → Device × ℤ
  finish_write idx len (t, ret) =
      let h = get_head t idx in
      let m = h.metrics in
      let failed = head_record_send_error ret (some from_userspace_jpeg) m in
      if is_zero ret
      then (
        set_head t idx (record h {
          metrics = record m { send = record_timing (bus.elapsed_ns t.wire) m.send };
        }),
        pos len,
      )
      else (
        trip_transport_fault idx ret from_userspace_jpeg
            (set_head t idx (record h { metrics = failed })),
        ret,
      )

  -- `t6_jpeg_misc_write` of the bytes `image` at the file's position `at`; their copy fails for want of memory, or as
  -- the program's memory cannot be read.
  unfoldable pub jpeg_misc_write : Clock → ℕ → ℕ → List ℕ → Device → Device × ℤ
  unfolding finish_write
  jpeg_misc_write clock idx at image t6 =
      let h = get_head t6 idx in
      let len = length image in
      if not (at == 0)
      then (t6, espipe)
      else if len == 0 || ltb h.tx.buf_size len
      then (t6, einval)
      else if not h.sink.connected
      then (t6, enodev)
      else if h.io_faulted
      then (t6, error_or_eio h.io_last_error)
      else if t6.io_faulted
      then (t6, error_or_eio t6.io_last_error)
      else if not (is_user_jpeg h.transport)
      then (t6, eopnotsupp)
      else if not (bus.allocates t6.wire)
      then (t6, enomem)
      else if not (bus.copies t6.wire)
      then (t6, efault)
      else if t6.unplugged
      then finish_write idx len (t6, enodev)
      else finish_write idx len (send_jpeg_blob params bus clock idx (outside image) len t6)

-- The source rectangle of a plane in 16.16 fixed point, and its place on the screen.
pub record Placement : Type 0 where
  pub src_x : ℕ
  pub src_y : ℕ
  pub src_w : ℕ
  pub src_h : ℕ
  pub crtc_x : ℤ
  pub crtc_y : ℤ

-- `t6_plane_atomic_check`, with the helper's answer as a parameter; `none` is a state that is not there.
unfoldable pub plane_atomic_check : ℤ → Option (Bool × Placement) → ℤ
plane_atomic_check helper none = pos 0
plane_atomic_check helper (some (has_fb, p)) =
    if has_fb
      && (not (p.src_x == 0)
          || not (p.src_y == 0)
          || not (p.src_w == 1920 * 2 ^ 16)
          || not (p.src_h == 1080 * 2 ^ 16)
          || not (is_zero p.crtc_x)
          || not (is_zero p.crtc_y))
    then einval
    else helper

-- What `t6_connector_get_modes` gives the connector: the EDID property with the size of the picture in
-- millimetres, and the modes.
pub record Modes : Type 0 where
  pub edid : Option (List ℕ)
  pub width_mm : ℕ
  pub height_mm : ℕ
  pub modes : List Mode

-- `t6_connector_get_modes`, with `drm_edid_is_valid` and the allocation of the mode as parameters.
unfoldable pub connector_get_modes : (List ℕ → Bool) → Bool → Modes → Device → ℕ → Modes × ℕ
connector_get_modes edid_is_valid duplicated old t6 idx =
    let h = get_head t6 idx in
    let e = h.sink.edid_data in
    let kept =
      if h.sink.edid_len == 128 && edid_is_valid e
      then record old {
        edid = some e;
        width_mm = get_or e 0x15 0 * 10;
        height_mm = get_or e 0x16 0 * 10;
      }
      else record old { edid = none } in
    if not (head_runtime_connected t6 h)
    then (old, 0)
    else if not duplicated
    then (kept, 0)
    else (record kept { modes = mode_1080p60 ∷ kept.modes }, 1)
