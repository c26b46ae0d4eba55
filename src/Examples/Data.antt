-- ===== src/Examples/Data.antt =====
-- kernel/trigger6_drv.c: a device, its two heads, module parameters, and a USB core that takes every transfer.
use jcd543_mct_t6_linux_driv.Prelude.{◌+◌, true, false, none, some, [], ◌∷◌, length, ◌/◌}
use jcd543_mct_t6_linux_driv.Prelude.Int.{pos}
use jcd543_mct_t6_linux_driv.Driver.Device.{
  Device, Head, HeadMetrics, Timing, Stream, TxQueue, raw, jpeg_cmd, Params,
}
use jcd543_mct_t6_linux_driv.Driver.Queue.{Clock}
use jcd543_mct_t6_linux_driv.Driver.Usb.{Bus}

abbrev pub no_timing : Timing
no_timing = record { samples = 0; total = 0; last = 0; longest = 0 }

abbrev pub no_metrics : HeadMetrics
no_metrics = record {
  queue_attempts = 0;
  queued_frames = 0;
  coalesced_overwrites = 0;
  skipped_frames = 0;
  sent_frames = 0;
  sent_bytes = 0;
  send_errors = 0;
  keepalive_sent = 0;
  keepalive_errors = 0;
  transport_faults = 0;
  pacing_defers = 0;
  stage = no_timing;
  queue_wait = no_timing;
  encode = record no_timing { last = 12000000 };
  usb = no_timing;
  send = no_timing;
  last_payload_bytes = 0;
  last_error = pos 0;
  last_error_source = none;
}

abbrev pub no_stream : Stream
no_stream = record {
  fb_addr = 0;
  cmd_addr = 0;
  fb_slots = 0 ∷ 0 ∷ 0 ∷ [];
  fb_slot_count = 0;
  fb_slot_index = 0;
  cmd_base_addr = 0;
  cmd_limit_addr = 0;
  cmd_cursor_addr = 0;
  frame_seq = 0;
}

-- A stream with three slots, and a command ring of two megabytes.
abbrev pub three_slots : Stream
three_slots = record no_stream {
  fb_slots = 30000000 ∷ 40000000 ∷ 50000000 ∷ [];
  fb_slot_count = 3;
  fb_slot_index = 2;
  cmd_base_addr = 10000000;
  cmd_limit_addr = 13145728;
  cmd_cursor_addr = 12000000;
}

-- A queue with a pending frame in `back`.
abbrev pub pending_queue : TxQueue
pending_queue = record {
  front = some (1 ∷ 2 ∷ []);
  back = some (3 ∷ 4 ∷ []);
  buf_size = 2;
  len = 2;
  stride = 4;
  pending = true;
  keepalive_due = false;
  queued_ns = 77;
  last_jiffies = 1000;
}

abbrev pub primary : Head
primary = record {
  output_idx = 0;
  transport = raw;
  sink = record {
    connected = true;
    status = 1;
    width = 1920;
    height = 1080;
    monitor_name = [];
    edid_data = [];
    edid_len = 0;
  };
  stream = no_stream;
  tx = pending_queue;
  metrics = no_metrics;
  io_faulted = false;
  io_last_error = pos 0;
  scanout_active = true;
  tx_work_queued = false;
  tx_defer_work = none;
  video_staging = none;
  video_staging_size = 0;
  last_sent_frame = none;
  last_sent_valid = false;
  raw_last_sent_jiffies = 0;
  jpeg_adaptive_quality = 40;
  jpeg_staging = none;
  jpeg_staging_size = 0;
  keepalive_timer = none;
  last_jpeg_data = none;
  last_jpeg_len = 0;
  fb_export_buf = none;
  fb_export_len = 0;
  fb_export_seq = 0;
  boot_keepalive_work = none;
}

abbrev pub secondary : Head
secondary = record primary { output_idx = 1; transport = jpeg_cmd; stream = three_slots }

abbrev pub device : Device
device = record {
  ram_mb = 64;
  head0 = primary;
  head1 = secondary;
  metrics = record {
    bulk_calls = 0;
    bulk_chunks = 0;
    bulk_bytes = 0;
    bulk_errors = 0;
    bulk_short_writes = 0;
    tx_work_runs = 0;
    tx_work_empty = 0;
    tx_adapter_defers = 0;
    bulk_time = no_timing;
    last_bulk_bytes = 0;
  };
  tx_next_head = 1;
  has_wq = true;
  manual_only = false;
  output_mask = 3;
  io_faulted = false;
  io_last_error = pos 0;
  has_bulk_chunk = true;
  unplugged = false;
  hotplug_events = 0;
  wire = [];
}

abbrev pub params : Params
params = record {
  device_path = [];
  output_mask = 3;
  query_only = false;
  query_timings = false;
  query_timing_page1 = false;
  aquamarine_evdi_name = false;
  raw_idle_refresh = false;
  final_monitor_off = false;
  experimental_secondary_raw = false;
  secondary_userspace_jpeg = false;
  jpeg_quality = 40;
  frame_min_interval_ms = 5;
  secondary_frame_min_interval_ms = 250;
  manual_only = false;
  serialize_usb_bus = false;
}

-- A clock of 250 ticks a second that has just wrapped.
abbrev pub clock : Clock
clock = record { msecs_to_jiffies = λ ms. (ms + 3) / 4; jiffies = 1003 }

-- A USB core that takes every transfer whole.
abbrev pub bus : Bus
bus = record {
  control_result = λ w s. pos s.size;
  control_data = λ w s. [];
  bulk_result = λ w bytes. pos 0;
  bulk_actual = λ w bytes. length bytes;
  allocates = λ w. true;
  copies = λ w. true;
  suspended = λ w. false;
  elapsed_ns = λ w. 1000;
}
