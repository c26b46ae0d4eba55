-- ===== src/Driver/Nv12.antt =====
-- kernel/trigger6_drv.c: `t6_prepare_frame_nv12` and `t6_send_prepared_nv12`.
pub mod Payload
use jcd543_mct_t6_linux_driv.Prelude.{
  ℕ, ◌+◌, ◌-◌, ◌*◌, ◌/◌, ◌||◌, not, ltb, ◌==◌, if◌then◌else◌, Option, some, List, take, replicate,
}
use jcd543_mct_t6_linux_driv.Prelude.Words.{u16, u32}
use jcd543_mct_t6_linux_driv.Prelude.Int.{ℤ, pos, is_zero, is_negative}
use jcd543_mct_t6_linux_driv.Prelude.Kernel.{align}
use jcd543_mct_t6_linux_driv.Prelude.Errno.{enodev, enomem}
use jcd543_mct_t6_linux_driv.Codec.Nv12.{convert_xrgb8888_to_nv12}
use jcd543_mct_t6_linux_driv.Driver.Device.{
  Device, Head, Params, get_head, set_head, record_timing, head_record_send_error, from_nv12,
}
use jcd543_mct_t6_linux_driv.Driver.Addressing.{
  jpeg_padding_size, flip_header_size, next_slot, slot_addr,
}
use jcd543_mct_t6_linux_driv.Driver.Queue.{Clock, is_null}
use jcd543_mct_t6_linux_driv.Driver.Usb.{Bus}
use jcd543_mct_t6_linux_driv.Driver.Packet.{FlipHeader, zero_flip, flip_header_bytes}
use jcd543_mct_t6_linux_driv.Driver.Raw.{flag_reset, arm, send_block}
use jcd543_mct_t6_linux_driv.Driver.Jpeg.{fmt_nv12, keepalive_ms, bytes_of, put_at, count_sent}

abbrev pub nv12_pitch : Head → ℕ
nv12_pitch h = u16 (align h.sink.width 16)

abbrev pub nv12_y_size : Head → ℕ
nv12_y_size h = u32 (nv12_pitch h * h.sink.height)

abbrev pub nv12_size : Head → ℕ
nv12_size h = u32 (nv12_y_size h + u32 (nv12_pitch h * (h.sink.height / 2)))

abbrev pub nv12_total : ℕ → ℕ
nv12_total len = u32 (flip_header_size + len + jpeg_padding_size)

unfoldable pub nv12_flip : Head → ℕ → FlipHeader
nv12_flip h total =
    let fb_addr = slot_addr h.stream (next_slot h.stream) in
    record zero_flip {
      command = if h.output_idx == 0 then 3 else 4;
      payload_size = total - flip_header_size;
      target_format = fmt_nv12;
      y_pitch = nv12_pitch h;
      uv_pitch = nv12_pitch h;
      y_fb_offset = u32 (fb_addr + flip_header_size);
      u_offset = u32 (fb_addr + flip_header_size + nv12_y_size h);
      source_format = fmt_nv12;
      flag = if ltb h.stream.frame_seq 10 then flag_reset else 0;
    }

-- Keepalive: the last payload is stashed, if there is a buffer for it.
unfoldable pub stash_last : ℕ → Head → Head
stash_last total h = if is_null h.last_jpeg_data || ltb h.tx.buf_size total then h else record h {
  last_jpeg_data =
      some (put_at 0 (take total (bytes_of h.jpeg_staging)) (bytes_of h.last_jpeg_data));
  last_jpeg_len = total;
}

module _ (params : Params) (bus : Bus) where
  -- `t6_prepare_frame_nv12`: the converter writes behind the room for the header, and the padding is cleared.
  unfoldable pub prepare_frame_nv12 : ℕ → Option (List ℕ) → Device → Device × ℤ
  prepare_frame_nv12 idx pixels t6 =
      let h = get_head t6 idx in
      let stride = if h.tx.stride == 0 then u32 (h.sink.width * 4) else h.tx.stride in
      let (ret, out) =
        convert_xrgb8888_to_nv12 (is_null pixels)
          (record {
            src = bytes_of pixels;
            width = h.sink.width;
            height = h.sink.height;
            src_stride = stride;
            y_base = flip_header_size;
            uv_base = flip_header_size + nv12_y_size h;
            y_pitch = nv12_pitch h;
            uv_pitch = nv12_pitch h;
          })
          (bytes_of h.jpeg_staging) in
      let padded = put_at (flip_header_size + nv12_size h) (replicate jpeg_padding_size 0) out in
      let m = h.metrics in
      if is_null h.jpeg_staging || ltb h.jpeg_staging_size (nv12_total (nv12_size h))
      then (t6, enomem)
      else if not h.sink.connected
      then (t6, enodev)
      else if is_negative ret
      then (set_head t6 idx (record h { jpeg_staging = some out }), ret)
      else (
        set_head t6 idx (record h {
          jpeg_staging = some padded;
          metrics = record m { encode = record_timing (bus.elapsed_ns t6.wire) m.encode };
        }),
        pos (nv12_size h),
      )

  -- The end of a successful send.
  unfoldable pub finish_nv12 : Clock → ℕ → ℕ → Device → Device
  unfolding stash_last
  finish_nv12 clock idx total t6 =
      let h = get_head t6 idx in
      let ns = bus.elapsed_ns t6.wire in
      let counted = count_sent total ns h.metrics in
      let sent = record h {
        stream = record (h.stream) {
          frame_seq = u32 (h.stream.frame_seq + 1);
          fb_slot_index = next_slot h.stream;
        };
        metrics = record counted { send = record_timing ns counted.send };
      } in
      set_head t6 idx (arm clock keepalive_ms (stash_last total sent))

  -- `t6_send_prepared_nv12`
  unfoldable pub send_prepared_nv12 : Clock → ℕ → ℕ → Device → Device × ℤ
  unfolding nv12_flip finish_nv12
  send_prepared_nv12 clock idx nv12_len t6 =
      let h = get_head t6 idx in
      let total = nv12_total nv12_len in
      let fb_addr = slot_addr h.stream (next_slot h.stream) in
      let staging = put_at 0 (flip_header_bytes (nv12_flip h total)) (bytes_of h.jpeg_staging) in
      let staged = set_head t6 idx (record h { jpeg_staging = some staging }) in
      let (t, ret) = send_block params bus fb_addr (take total staging) staged in
      let failed = get_head t idx in
      if is_zero ret then (finish_nv12 clock idx total t, ret) else (
        set_head t idx (record failed {
          metrics = head_record_send_error ret (some from_nv12) failed.metrics;
        }),
        ret,
      )
