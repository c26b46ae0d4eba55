-- ===== src/Driver/Raw.antt =====
-- kernel/trigger6_drv.c: `t6_send_frame_raw`, and the refresh of the raw head.
pub mod Heads
pub mod Reference
pub mod Refreshed
pub mod Stopped
use jcd543_mct_t6_linux_driv.Prelude.{
  ℕ, ◌+◌, ◌*◌, ◌%◌, ◌^◌, Bool, true, false, ◌&&◌, ◌||◌, not, ltb, ◌==◌, if◌then◌else◌, Option, none,
  some, List, [], ◌∷◌, ◌++◌, length, take, drop,
}
use jcd543_mct_t6_linux_driv.Prelude.Words.{u16, u32}
use jcd543_mct_t6_linux_driv.Prelude.Int.{ℤ, pos, is_zero}
use jcd543_mct_t6_linux_driv.Prelude.Errno.{enodev, einval, enomem}
use jcd543_mct_t6_linux_driv.Policy.Refresh.{raw_refresh_allowed}
use jcd543_mct_t6_linux_driv.Driver.Device.{
  Device, Head, Params, get_head, set_head, is_raw, record_timing, head_record_send_error, from_raw,
}
use jcd543_mct_t6_linux_driv.Driver.Addressing.{
  mib, flip_header_size, next_slot, slot_addr, cmd_place,
}
use jcd543_mct_t6_linux_driv.Driver.Queue.{Clock, is_null}
use jcd543_mct_t6_linux_driv.Driver.Usb.{Bus, bulk_write}
use jcd543_mct_t6_linux_driv.Driver.Packet.{
  bulk_header_bytes, FlipHeader, zero_flip, flip_header_bytes,
}
use jcd543_mct_t6_linux_driv.Driver.Damage.{DirtyRange, FrameDamage, copy_range, copy_ranges}

abbrev pub fmt_rgb32 : ℕ
fmt_rgb32 = 8

abbrev pub flag_reset : ℕ
flag_reset = 0x80

abbrev pub refresh_ms : ℕ
refresh_ms = 1000

-- `t6_raw_refresh_eligible`
unfoldable pub raw_refresh_eligible : Params → Device → Head → Bool
raw_refresh_eligible params t6 h =
    raw_refresh_allowed params.raw_idle_refresh (h.output_idx == 0 && is_raw h.transport)
      t6.manual_only h.scanout_active h.sink.connected h.last_sent_valid
      (t6.io_faulted || h.io_faulted)

-- Start or restart `keepalive_timer`.
abbrev pub arm : Clock → ℕ → Head → Head
arm clock ms h = record h {
  keepalive_timer = some ((clock.jiffies + clock.msecs_to_jiffies ms) % 2 ^ 64);
}

-- `head->width * 4` and `stride * head->height`
abbrev pub raw_stride : Head → ℕ
raw_stride h = u32 (h.sink.width * 4)

abbrev pub raw_frame_size : Head → ℕ
raw_frame_size h = u32 (raw_stride h * h.sink.height)

-- The flip header of a raw frame.
unfoldable pub raw_flip : Head → FlipHeader
raw_flip h = record zero_flip {
  command = if h.output_idx == 0 then 3 else 4;
  payload_size = raw_frame_size h;
  target_format = fmt_rgb32;
  y_pitch = u16 (raw_stride h);
  y_fb_offset = u32 (h.stream.fb_addr + flip_header_size);
  source_format = fmt_rgb32;
  flag = if ltb h.stream.frame_seq 10 then flag_reset else 0;
}

-- `fh.flag` is set only in the first frames, and the partial path of the first head does not look at it.
abbrev pub is_partial : Option FrameDamage → Bool
is_partial none = false
is_partial (some d) = not d.full_frame

abbrev pub ranges_of : Option FrameDamage → List DirtyRange
ranges_of none = []
ranges_of (some d) = d.ranges

-- The sum of the sizes of the dirty ranges.
unfoldable pub range_bytes : ℕ → List DirtyRange → ℕ
range_bytes stride [] = 0
range_bytes stride (r ∷ rs) = u32 (r.y_count * stride) + range_bytes stride rs

module _ (params : Params) (bus : Bus) where
  -- A bulk header for an address, and the payload behind it; the payload is sent only if the header was.
  unfoldable pub send_block : ℕ → List ℕ → Device → Device × ℤ
  send_block address payload t6 =
      let header = bulk_header_bytes (record {
        payload_length = length payload;
        payload_address = address;
        packet_length = length payload;
      }) in
      let (t, ret) = bulk_write params bus header t6 in
      if is_zero ret then bulk_write params bus payload t else (t, ret)

  -- The loop over the dirty ranges of the first head.
  unfoldable pub send_ranges : ℕ → ℕ → List ℕ → List DirtyRange → Device → Device × ℤ
  send_ranges fb stride src [] t6 = (t6, pos 0)
  send_ranges fb stride src (r ∷ rs) t6 =
      let offset = u32 (r.y_start * stride) in
      let size = u32 (r.y_count * stride) in
      let (t, ret) =
        send_block (u32 (fb + flip_header_size + offset)) (take size (drop offset src)) t6 in
      let rest = send_ranges fb stride src rs t in if is_zero ret then rest else (t, ret)

  -- The partial path of the first head: the dirty rows, and then the flip header.
  unfoldable pub send_partial : Head → List ℕ → List DirtyRange → Device → Device × ℤ
  unfolding send_ranges send_block
  send_partial h src rs t6 =
      let (t, ret) = send_ranges h.stream.fb_addr (raw_stride h) src rs t6 in
      if is_zero ret
      then send_block h.stream.fb_addr (flip_header_bytes (raw_flip h)) t
      else (t, ret)

  -- The secondary head: the frame into the next slot, and then a command in the ring.
  unfoldable pub send_secondary : Head → List ℕ → Device → Device × ℤ
  unfolding send_block
  send_secondary h src t6 =
      let fb_dest = slot_addr h.stream (next_slot h.stream) in
      let (t, ret) = send_block fb_dest (take (raw_frame_size h) src) t6 in
      if is_zero ret
      then send_block (cmd_place h.stream mib)
          (flip_header_bytes (record (raw_flip h) { y_fb_offset = fb_dest })) t
      else (t, ret)

  -- The bytes that the three paths count as sent.
  unfoldable pub total_sent : Head → Option FrameDamage → ℕ
  unfolding range_bytes
  total_sent h dmg =
      if h.output_idx == 0 && is_partial dmg
      then range_bytes (raw_stride h) (ranges_of dmg) + flip_header_size
      else raw_frame_size h + flip_header_size

  -- The reference frame after a success: only the dirty ranges are copied if the damage is partial.
  unfoldable pub update_reference : Head → List ℕ → Option FrameDamage → Bool → Head
  update_reference h src dmg is_reference = elim h.last_sent_frame [
    | none ↦ h
    | some ref ↦
        (if is_reference then h else record h {
          last_sent_frame = some (
              if is_partial dmg
              then copy_ranges (raw_stride h) (ranges_of dmg) src ref
              else copy_range 0 (raw_frame_size h) src ref);
          last_sent_valid = true;
        })
  ]

  -- The end of a successful send: reference frame, refresh timer, sequence number and metrics.
  unfoldable pub finish_raw : Clock → ℕ → List ℕ → Option FrameDamage → Bool → Device → Device
  unfolding update_reference total_sent
  finish_raw clock idx src dmg is_reference t6 =
      let h = record (update_reference (get_head t6 idx) src dmg is_reference) {
        raw_last_sent_jiffies = clock.jiffies;
      } in
      let armed = if raw_refresh_eligible params t6 h then arm clock refresh_ms h else h in
      let sent = total_sent h dmg in
      let m = armed.metrics in
      set_head t6 idx (record armed {
        stream = record (armed.stream) { frame_seq = u32 (armed.stream.frame_seq + 1) };
        metrics = record m {
          sent_frames = m.sent_frames + 1;
          sent_bytes = m.sent_bytes + sent;
          last_payload_bytes = sent;
          usb = record_timing (bus.elapsed_ns t6.wire) m.usb;
          send = record_timing (bus.elapsed_ns t6.wire) m.send;
        };
      })

  -- `out:` with an error.
  unfoldable pub fail_raw : ℕ → ℤ → Device → Device
  fail_raw idx ret t6 =
      let h = get_head t6 idx in
      set_head t6 idx (record h { metrics = head_record_send_error ret (some from_raw) h.metrics })

  -- The copy of bytes into `video_staging`, at an offset; the buffer keeps its length.
  unfoldable pub stage_raw : Head → ℕ → List ℕ → Head
  stage_raw h offset bytes = elim h.video_staging [
    | none ↦ h
    | some staging ↦ record h {
      video_staging = some (
          take (length staging)
            (take offset staging ++ (bytes ++ drop (offset + length bytes) staging)));
    }
  ]

  unfoldable pub advance_secondary : Head → Head
  advance_secondary h = record h {
    stream = record (h.stream) {
      cmd_cursor_addr = u32 (cmd_place h.stream mib + mib);
      fb_slot_index = next_slot h.stream;
    };
  }

  -- The secondary head's cursor and slot, after a success.
  unfoldable pub advance_sent : ℕ → Device × ℤ → Device × ℤ
  unfolding advance_secondary
  advance_sent idx (t, ret) =
      if is_zero ret then (set_head t idx (advance_secondary (get_head t idx)), ret) else (t, ret)

  -- `out:`, with the metrics of a success or of an error.
  unfoldable pub conclude_raw :
      Clock → ℕ → List ℕ → Option FrameDamage → Bool → Device × ℤ → Device × ℤ
  unfolding finish_raw fail_raw
  conclude_raw clock idx pixels dmg is_reference (t, ret) =
      if is_zero ret
      then (finish_raw clock idx pixels dmg is_reference t, ret)
      else (fail_raw idx ret t, ret)

  -- The first head, with some rows.
  unfoldable pub raw_partial : Clock → ℕ → List ℕ → Option FrameDamage → Bool → Device → Device × ℤ
  unfolding send_partial conclude_raw
  raw_partial clock idx pixels dmg is_reference t6 =
      conclude_raw clock idx pixels dmg is_reference
        (send_partial (get_head t6 idx) pixels (ranges_of dmg) t6)

  -- The first head, with the whole frame: it is staged behind the flip header.
  unfoldable pub raw_full : Clock → ℕ → List ℕ → Option FrameDamage → Bool → Device → Device × ℤ
  unfolding send_block conclude_raw stage_raw
  raw_full clock idx pixels dmg is_reference t6 =
      let h = get_head t6 idx in
      let block = flip_header_bytes (raw_flip h) ++ take (raw_frame_size h) pixels in
      if is_null h.video_staging
        || ltb h.video_staging_size (u32 (flip_header_size + raw_frame_size h))
      then (t6, enomem)
      else conclude_raw clock idx pixels dmg is_reference
          (send_block h.stream.fb_addr block (set_head t6 idx (stage_raw h 0 block)))

  -- The second head.
  unfoldable pub raw_secondary :
      Clock → ℕ → List ℕ → Option FrameDamage → Bool → Device → Device × ℤ
  unfolding send_secondary advance_sent conclude_raw stage_raw
  raw_secondary clock idx pixels dmg is_reference t6 =
      let h = get_head t6 idx in
      let staged =
        set_head t6 idx (stage_raw h flip_header_size (take (raw_frame_size h) pixels)) in
      if is_null h.video_staging
      then (t6, enomem)
      else conclude_raw clock idx pixels dmg is_reference
          (advance_sent idx (send_secondary h pixels staged))

  -- `t6_send_frame_raw`. `is_reference` says that `pixels` is `last_sent_frame` itself.
  unfoldable pub send_frame_raw :
      Clock → ℕ → List ℕ → ℕ → Option FrameDamage → Bool → Device → Device × ℤ
  unfolding raw_partial raw_full raw_secondary
  send_frame_raw clock idx pixels pixel_len dmg is_reference t6 =
      let h = get_head t6 idx in
      let m = h.metrics in
      if not h.sink.connected
      then (t6, enodev)
      else if ltb pixel_len (raw_frame_size h)
      then (t6, einval)
      else if is_partial dmg && length (ranges_of dmg) == 0
      then (
        set_head t6 idx (record h { metrics = record m { skipped_frames = m.skipped_frames + 1 } }),
        pos 0,
      )
      else if h.output_idx == 0 && is_partial dmg
      then raw_partial clock idx pixels dmg is_reference t6
      else if h.output_idx == 0
      then raw_full clock idx pixels dmg is_reference t6
      else raw_secondary clock idx pixels dmg is_reference t6
