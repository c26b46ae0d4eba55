-- ===== src/Driver/Chip.antt =====
-- kernel/trigger6_drv.c: `t6_chip_init`, `t6_head_defaults`, `t6_alloc_head_buffers` and
-- `t6_free_head_buffers`.
pub mod Sent
use jcd543_mct_t6_linux_driv.Prelude.{
  ℕ, zero, suc, ◌+◌, ◌*◌, Bool, true, false, ◌&&◌, ◌||◌, not, ◌==◌, if◌then◌else◌, Option, none,
  some, List, [], ◌∷◌, ◌++◌, replicate, length,
}
use jcd543_mct_t6_linux_driv.Prelude.Words.{u32}
use jcd543_mct_t6_linux_driv.Prelude.Int.{ℤ, pos, is_negative}
use jcd543_mct_t6_linux_driv.Prelude.Errno.{enodev, enomem}
use jcd543_mct_t6_linux_driv.Driver.Device.{
  Device, Head, HeadMetrics, Stream, TxQueue, Sink, Timing, Transport, raw, user_jpeg, nv12, is_raw,
  is_nv12, is_user_jpeg, Params, Setup, get_head, set_head,
}
use jcd543_mct_t6_linux_driv.Driver.Addressing.{
  mib, flip_header_size, reset_stream, init_head_addressing,
}
use jcd543_mct_t6_linux_driv.Driver.Usb.{Bus, ctrl_out}
use jcd543_mct_t6_linux_driv.Driver.Requests.{
  Request, reset_requests, head_requests, final_requests,
}

-- `t6_reset_head_stream_state`
unfoldable pub reset_head_stream : Head → Head
reset_head_stream h = record h {
  stream = reset_stream h.stream;
  tx = record (h.tx) { last_jiffies = 0; keepalive_due = false };
}

-- `t6_head_defaults`, with the metrics all zero. The name is kept as 14 bytes.
unfoldable pub head_transport : Params → ℕ → Transport
head_transport params output_idx =
    if output_idx == 0
    then raw
    else if params.secondary_userspace_jpeg
    then user_jpeg
    else if params.experimental_secondary_raw
    then raw
    else nv12

abbrev pub zero_timing : Timing
zero_timing = record { samples = 0; total = 0; last = 0; longest = 0 }

abbrev pub zero_metrics : HeadMetrics
zero_metrics = record {
  queue_attempts = 0;
  queued_frames = 0;
  coalesced_overwrites = 0;
  skipped_frames = 0;
  sent_frames = 0;
  sent_bytes = 0;
  send_errors = 0;
  keepalive_sent = 0;
  keepalive_errors = 0;
  transport_faults = 0;
  pacing_defers = 0;
  stage = zero_timing;
  queue_wait = zero_timing;
  encode = zero_timing;
  usb = zero_timing;
  send = zero_timing;
  last_payload_bytes = 0;
  last_error = pos 0;
  last_error_source = none;
}

abbrev pub zero_stream : Stream
zero_stream = record {
  fb_addr = 0;
  cmd_addr = 0;
  fb_slots = 0 ∷ 0 ∷ 0 ∷ [];
  fb_slot_count = 0;
  fb_slot_index = 0;
  cmd_base_addr = 0;
  cmd_limit_addr = 0;
  cmd_cursor_addr = 0;
  frame_seq = 0;
}

abbrev pub zero_queue : TxQueue
zero_queue = record {
  front = none;
  back = none;
  buf_size = 0;
  len = 0;
  stride = 0;
  pending = false;
  keepalive_due = false;
  queued_ns = 0;
  last_jiffies = 0;
}

abbrev pub default_sink : Sink
default_sink = record {
  connected = false;
  status = 0;
  width = 1920;
  height = 1080;
  monitor_name =
      b'T' ∷ b'6' ∷ b' ' ∷ b'D' ∷ b'i' ∷ b's' ∷ b'p' ∷ b'l' ∷ b'a' ∷ b'y' ∷ 0 ∷ 0 ∷ 0 ∷ 0 ∷ [];
  edid_data = replicate 256 0;
  edid_len = 0;
}

unfoldable pub head_defaults : Params → ℕ → ℕ → Head
unfolding head_transport
head_defaults params ram_mb output_idx =
    let transport = head_transport params output_idx in
    record {
      output_idx = output_idx;
      transport = transport;
      sink = default_sink;
      stream = init_head_addressing ram_mb output_idx transport zero_stream;
      tx = zero_queue;
      metrics = zero_metrics;
      io_faulted = false;
      io_last_error = pos 0;
      scanout_active = false;
      tx_work_queued = false;
      tx_defer_work = none;
      video_staging = none;
      video_staging_size = 0;
      last_sent_frame = none;
      last_sent_valid = false;
      raw_last_sent_jiffies = 0;
      jpeg_adaptive_quality = 0;
      jpeg_staging = none;
      jpeg_staging_size = 0;
      keepalive_timer = none;
      last_jpeg_data = none;
      last_jpeg_len = 0;
      fb_export_buf = none;
      fb_export_len = 0;
      fb_export_seq = 0;
      boot_keepalive_work = none;
    }

-- A cleared buffer of a size, if the allocation succeeds.
abbrev pub zeroed : Bool → ℕ → Option (List ℕ)
zeroed room size = if room then some (replicate size 0) else none

-- The head with the buffers that its transport wants, in the loop of `t6_alloc_head_buffers`.
unfoldable pub with_buffers : Head → Head
with_buffers h =
    let size = u32 (h.sink.width * h.sink.height * 4) in
    let wants_frame = is_raw h.transport || is_nv12 h.transport in
    let wants_staging = not (is_raw h.transport) in
    record h {
      tx = record (h.tx) { buf_size = size; front = zeroed true size; back = zeroed true size };
      video_staging_size =
          if is_raw h.transport then flip_header_size + size else h.video_staging_size;
      video_staging =
          if is_raw h.transport then zeroed true (flip_header_size + size) else h.video_staging;
      jpeg_staging_size = if wants_staging then 3 * mib else h.jpeg_staging_size;
      jpeg_staging = if wants_staging then zeroed true (3 * mib) else h.jpeg_staging;
      last_sent_frame = if wants_frame then zeroed true size else h.last_sent_frame;
      last_sent_valid = if wants_frame then false else h.last_sent_valid;
      fb_export_buf = if is_user_jpeg h.transport then zeroed true size else h.fb_export_buf;
    }

-- The body of the loop of `t6_alloc_head_buffers`, for a transport that wants each kind of buffer. `room`
-- says for each allocation, by its number, whether it succeeds; a failure ends the call, and the head is freed.
unfoldable pub alloc_head : (ℕ → Bool) → Head → Option Head
alloc_head room h =
    let wants_frame = is_raw h.transport || is_nv12 h.transport in
    let wants_staging = not (is_raw h.transport) in
    if not (room 0) || not (room 1)
    then none
    else if is_raw h.transport && not (room 2)
    then none
    else if wants_staging && not (room 3)
    then none
    else if wants_frame && not (room 4)
    then none
    else if is_user_jpeg h.transport && not (room 5)
    then none
    else some (with_buffers h)

-- `t6_alloc_head_buffers`; `none` is its error, after which the caller frees all buffers.
unfoldable pub alloc_head_buffers : Bool → (ℕ → Bool) → (ℕ → Bool) → Device → Option Device
unfolding alloc_head
alloc_head_buffers chunk room0 room1 t6 =
    if not chunk then none else elim (alloc_head room0 t6.head0) [
      | none ↦ none
      | some h0 ↦ elim (alloc_head room1 t6.head1) [
        | none ↦ none
        | some h1 ↦ some (record t6 { has_bulk_chunk = true; head0 = h0; head1 = h1 })
      ]
    ]

-- The body of the loop of `t6_free_head_buffers`.
unfoldable pub free_head : Head → Head
free_head h = record h {
  tx = record (h.tx) {
    front = none;
    back = none;
    buf_size = 0;
    len = 0;
    stride = 0;
    pending = false;
  };
  video_staging = none;
  video_staging_size = 0;
  last_sent_frame = none;
  last_sent_valid = false;
  jpeg_staging = none;
  jpeg_staging_size = 0;
  fb_export_buf = none;
  fb_export_len = 0;
  keepalive_timer = none;
  last_jpeg_data = none;
  last_jpeg_len = 0;
}

-- `t6_free_head_buffers`
unfoldable pub free_head_buffers : Device → Device
unfolding free_head
free_head_buffers t6 = record t6 {
  head0 = free_head t6.head0;
  head1 = free_head t6.head1;
  has_bulk_chunk = false;
}

module _ (params : Params) (bus : Bus) where
  -- The requests in turn, until one fails.
  unfoldable pub send_requests : List Request → Device → Device × ℤ
  send_requests [] t6 = (t6, pos 0)
  send_requests ((s, payload) ∷ rs) t6 =
      let (t, ret) = ctrl_out params bus s payload t6 in
      let rest = send_requests rs t in if is_negative ret then (t, ret) else rest

  -- The body of the loop over the heads; `init` is `init_head[idx]`.
  unfoldable pub init_head : ℕ → Bool → Device × ℤ → Device × ℤ
  unfolding reset_head_stream
  init_head idx init (t6, before) =
      let (t, ret) = send_requests (head_requests (get_head t6 idx).output_idx) t6 in
      if is_negative before || not init
      then (t6, before)
      else if is_negative ret
      then (t, ret)
      else (set_head t idx (reset_head_stream (get_head t idx)), ret)

  -- `t6_chip_init`
  unfoldable pub chip_init : Device → Device × ℤ
  unfolding init_head
  chip_init t6 =
      let init0 = t6.head0.sink.connected in
      let init1 = t6.head1.sink.connected in
      let (t, ret) = init_head 1 init1 (init_head 0 init0 (send_requests reset_requests t6)) in
      let ended = send_requests final_requests t in
      if not init0 && not init1 then (t6, enodev) else if is_negative ret then (t, ret) else ended
