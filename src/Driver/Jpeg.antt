-- ===== src/Driver/Jpeg.antt =====
-- kernel/trigger6_drv.c: `t6_send_jpeg_blob`, `t6_prepare_frame_jpeg_cmd` and `t6_send_prepared_jpeg_cmd`.
pub mod Buffers
pub mod Quality
use jcd543_mct_t6_linux_driv.Prelude.{
  ℕ, ◌+◌, ◌-◌, ◌*◌, ◌/◌, ◌%◌, ◌^◌, Bool, true, false, ◌&&◌, ◌||◌, not, ltb, leb, ◌==◌,
  if◌then◌else◌, Option, none, some, List, [], ◌∷◌, ◌++◌, length, take, drop, replicate,
}
use jcd543_mct_t6_linux_driv.Prelude.Words.{u16, u32, sub_u64}
use jcd543_mct_t6_linux_driv.Prelude.Int.{ℤ, pos, is_zero, is_negative}
use jcd543_mct_t6_linux_driv.Prelude.Kernel.{clamp, align}
use jcd543_mct_t6_linux_driv.Prelude.Errno.{enodev, einval, enomem, e2big}
use jcd543_mct_t6_linux_driv.Codec.Huffman.{HuffTables}
use jcd543_mct_t6_linux_driv.Codec.Encode.{encode_xrgb8888}
use jcd543_mct_t6_linux_driv.Driver.Device.{
  Device, Head, HeadMetrics, Stream, Params, get_head, set_head, is_user_jpeg, record_timing,
  head_record_send_error, from_jpeg_encode, from_jpeg_cmd,
}
use jcd543_mct_t6_linux_driv.Driver.Addressing.{
  mib, jpeg_padding_size, flip_header_size, next_slot, slot_addr, cmd_wraps, cmd_place,
}
use jcd543_mct_t6_linux_driv.Driver.Queue.{Clock, is_null}
use jcd543_mct_t6_linux_driv.Driver.Usb.{Bus}
use jcd543_mct_t6_linux_driv.Driver.Packet.{FlipHeader, zero_flip, flip_header_bytes}
use jcd543_mct_t6_linux_driv.Driver.Raw.{flag_reset, arm, send_block}

abbrev pub fmt_nv12 : ℕ
fmt_nv12 = 6

abbrev pub fmt_jpeg : ℕ
fmt_jpeg = 13

abbrev pub keepalive_ms : ℕ
keepalive_ms = 2000

-- Where `jpg_data` points: behind the room for the header in the staging buffer, to the start of that
-- buffer, or to other memory with these bytes.
pub data Blob : Type 0 where
  placed at_front : Blob
  outside : List ℕ → Blob

-- The bytes of a buffer; a null buffer has size 0, so none of its bytes is used.
abbrev pub bytes_of : Option (List ℕ) → List ℕ
bytes_of none = []
bytes_of (some b) = b

-- `memcpy(buf + offset, bytes, length)`. A buffer keeps its length; of a copy that is too long only what fits is kept.
abbrev pub put_at : ℕ → List ℕ → List ℕ → List ℕ
put_at offset bytes buf =
    take (length buf) (take offset buf ++ (bytes ++ drop (offset + length bytes) buf))

unfoldable pub blob_bytes : Head → Blob → ℕ → List ℕ
blob_bytes h placed len = take len (drop flip_header_size (bytes_of h.jpeg_staging))
blob_bytes h at_front len = take len (bytes_of h.jpeg_staging)
blob_bytes h (outside bytes) len = take len bytes

-- The room in the command ring for a payload, in whole megabytes; `none` for more than three.
unfoldable pub cmd_step : ℕ → Option ℕ
cmd_step total =
    if leb total mib
    then some mib
    else if leb total (2 * mib)
    then some (2 * mib)
    else if leb total (3 * mib)
    then some (3 * mib)
    else none

abbrev pub jpeg_total : ℕ → ℕ
jpeg_total len = u32 (flip_header_size + len + jpeg_padding_size)

unfoldable pub jpeg_flip : Head → ℕ → ℕ → FlipHeader
jpeg_flip h total step =
    let y_pitch = u16 (align h.sink.width 32) in
    let fb_addr = slot_addr h.stream (next_slot h.stream) in
    let y_block_size = u32 (y_pitch * align h.sink.height 32 + jpeg_padding_size) in
    record zero_flip {
      command = if h.output_idx == 0 then 3 else 4;
      payload_size = total - flip_header_size;
      target_format = fmt_nv12;
      y_pitch = y_pitch;
      uv_pitch = y_pitch;
      y_fb_offset = fb_addr;
      u_offset = u32 (fb_addr + y_block_size);
      source_format = fmt_jpeg;
      flag = if ltb h.stream.frame_seq 10 || cmd_wraps h.stream step then flag_reset else 0;
    }

-- The payload: the flip header, the image, and the padding.
unfoldable pub jpeg_payload : Head → Blob → ℕ → ℕ → List ℕ
unfolding jpeg_flip blob_bytes
jpeg_payload h blob len step =
    flip_header_bytes (jpeg_flip h (jpeg_total len) step)
    ++ (blob_bytes h blob len ++ replicate jpeg_padding_size 0)

-- The cursor and the slot after a success.
unfoldable pub advance_jpeg : ℕ → Stream → Stream
advance_jpeg step s = record s {
  frame_seq = u32 (s.frame_seq + 1);
  cmd_cursor_addr = u32 (cmd_place s step + step);
  fb_slot_index = next_slot s;
}

-- `last_jpeg_data` after a success: it grows if it is too small for the image; `room` says if that allocation succeeds.
unfoldable pub store_last_jpeg : Bool → List ℕ → Head → Head
store_last_jpeg room image h =
    if is_null h.last_jpeg_data || ltb h.last_jpeg_len (length image)
    then (if room
        then record h { last_jpeg_data = some image; last_jpeg_len = length image }
        else record h { last_jpeg_data = none; last_jpeg_len = 0 })
    else record h {
      last_jpeg_data = some (put_at 0 image (bytes_of h.last_jpeg_data));
      last_jpeg_len = length image;
    }

-- The metrics of a frame of `total` bytes that took `ns`.
unfoldable pub count_sent : ℕ → ℕ → HeadMetrics → HeadMetrics
count_sent total ns m = record m {
  sent_frames = m.sent_frames + 1;
  sent_bytes = m.sent_bytes + total;
  last_payload_bytes = total;
  usb = record_timing ns m.usb;
}

-- The feedback of the time that the encoder took to the quality.
unfoldable pub adapt_quality : ℕ → ℕ → ℕ
adapt_quality encode_ms q = clamp 20 95 (
    if ltb 30 encode_ms && ltb 25 q
    then q - 5
    else if ltb encode_ms (30 * 7 / 10) && ltb q 93
    then q + 2
    else q)

module _ (params : Params) (bus : Bus) where
  -- The end of `t6_send_jpeg_blob` after both writes succeeded.
  unfoldable pub finish_jpeg : Clock → ℕ → ℕ → ℕ → List ℕ → Device → Device
  unfolding advance_jpeg store_last_jpeg count_sent
  finish_jpeg clock idx total step image t6 =
      let h = get_head t6 idx in
      let sent = record h {
        stream = advance_jpeg step h.stream;
        metrics = count_sent total (bus.elapsed_ns t6.wire) h.metrics;
      } in
      set_head t6 idx (arm clock keepalive_ms (store_last_jpeg (bus.allocates t6.wire) image sent))

  -- The payload is built in the staging buffer and sent from there.
  unfoldable pub send_blob_at : Clock → ℕ → Blob → ℕ → ℕ → Device → Device × ℤ
  unfolding jpeg_payload finish_jpeg
  send_blob_at clock idx blob len step t6 =
      let h = get_head t6 idx in
      let payload = jpeg_payload h blob len step in
      let staging = put_at 0 payload (bytes_of h.jpeg_staging) in
      let staged = set_head t6 idx (record h { jpeg_staging = some staging }) in
      let (t, ret) = send_block params bus (cmd_place h.stream step) payload staged in
      if is_zero ret
      then (finish_jpeg clock idx (jpeg_total len) step (blob_bytes h blob len) t, ret)
      else (t, ret)

  -- The sending of a payload whose room in the ring is known, if it fits the staging buffer.
  unfoldable pub send_sized : Clock → ℕ → Blob → ℕ → Option ℕ → Device → Device × ℤ
  unfolding send_blob_at
  send_sized clock idx blob len none t6 = (t6, e2big)
  send_sized clock idx blob len (some step) t6 =
      if ltb (get_head t6 idx).jpeg_staging_size (jpeg_total len)
      then (t6, e2big)
      else send_blob_at clock idx blob len step t6

  -- `t6_send_jpeg_blob`
  unfoldable pub send_jpeg_blob : Clock → ℕ → Blob → ℕ → Device → Device × ℤ
  unfolding send_sized cmd_step
  send_jpeg_blob clock idx blob len t6 =
      if len == 0
      then (t6, einval)
      else send_sized clock idx blob len (cmd_step (jpeg_total len)) t6

  -- What the encoder returned, counted: an error, or the time it took and the quality that follows from it.
  unfoldable pub finish_encode : ℕ → ℕ → ℤ → Device → Device × ℤ
  unfolding adapt_quality
  finish_encode idx quality ret t6 =
      let h = get_head t6 idx in
      let m = h.metrics in
      let ns = bus.elapsed_ns t6.wire in
      if is_negative ret
      then (
        set_head t6 idx
            (record h { metrics = head_record_send_error ret (some from_jpeg_encode) m }),
        ret,
      )
      else (
        set_head t6 idx (record h {
          metrics = record m { encode = record_timing ns m.encode };
          jpeg_adaptive_quality = adapt_quality (ns / 1000000) quality;
        }),
        ret,
      )

  -- The call of the encoder, on the staging buffer behind the room for the header.
  unfoldable pub encode_staged : HuffTables → ℕ → List ℕ → ℕ → Device → Device × ℤ
  unfolding finish_encode
  encode_staged tables idx pixels quality t6 =
      let h = get_head t6 idx in
      let stride = if h.tx.stride == 0 then u32 (h.sink.width * 4) else h.tx.stride in
      let (ret, dst) = encode_xrgb8888 (record {
        src = some pixels;
        width = h.sink.width;
        height = h.sink.height;
        stride = stride;
        quality = quality;
        dst = some (drop flip_header_size (bytes_of h.jpeg_staging));
        dst_size = sub_u64 (sub_u64 h.jpeg_staging_size flip_header_size) jpeg_padding_size;
        allocated = bus.allocates t6.wire;
        tables = tables;
        seen = tables;
      }) in
      let staged = record h {
        jpeg_staging = some (take flip_header_size (bytes_of h.jpeg_staging) ++ dst);
      } in
      finish_encode idx quality ret (set_head t6 idx staged)

  -- `t6_prepare_frame_jpeg_cmd`
  unfoldable pub prepare_frame_jpeg_cmd : HuffTables → ℕ → Option (List ℕ) → ℕ → Device → Device × ℤ
  unfolding encode_staged
  prepare_frame_jpeg_cmd tables idx pixels pixel_len t6 =
      let h = get_head t6 idx in
      let quality =
        if h.jpeg_adaptive_quality == 0 then params.jpeg_quality else h.jpeg_adaptive_quality in
      if is_user_jpeg h.transport
      then (t6, pos 0)
      else if not h.sink.connected
      then (t6, enodev)
      else if is_null pixels || pixel_len == 0
      then (t6, einval)
      else if ltb pixel_len (h.sink.width * h.sink.height * 4)
      then (t6, einval)
      else if is_null h.jpeg_staging || h.jpeg_staging_size == 0
      then (t6, enomem)
      else encode_staged tables idx (bytes_of pixels) quality t6

  -- `t6_send_prepared_jpeg_cmd`
  unfoldable pub send_prepared_jpeg_cmd : Clock → ℕ → ℕ → Device → Device × ℤ
  unfolding send_jpeg_blob
  send_prepared_jpeg_cmd clock idx jpeg_len t6 =
      let (t, ret) = send_jpeg_blob clock idx placed jpeg_len t6 in
      let h = get_head t idx in
      let m = h.metrics in
      if is_negative ret
      then (
        set_head t idx (record h { metrics = head_record_send_error ret (some from_jpeg_cmd) m }),
        ret,
      )
      else (
        set_head t idx (record h {
          metrics = record m { send = record_timing (bus.elapsed_ns t.wire) m.send };
        }),
        pos 0,
      )
