-- ===== src/Driver/Device.antt =====
-- kernel/trigger6.h and the module parameters of kernel/trigger6_drv.c: the state that the driver keeps.
-- A buffer that may be NULL is an `Option`. The fields of `struct t6_head` stand in groups: `stream` has
-- the addresses and the sequence number, `tx` the pending frame and its pacing, `sink` the monitor.
-- Locks, DRM objects and device nodes are left out; a timer is the time that it is armed for.
pub mod Heads
use jcd543_mct_t6_linux_driv.Prelude.{
  ℕ, ◌+◌, ◌/◌, Bool, true, false, ◌&&◌, ◌||◌, not, ltb, ◌==◌, if◌then◌else◌, Option, List,
}
use Prim.Native.Nat.{bit_and}
use jcd543_mct_t6_linux_driv.Prelude.Words.{◌<<<◌}
use jcd543_mct_t6_linux_driv.Prelude.Int.{ℤ}

-- `enum t6_head_transport`
pub data Transport : Type 0 where
  raw jpeg_cmd user_jpeg nv12 : Transport

abbrev pub is_raw : Transport → Bool
is_raw raw = true
is_raw _ = false

abbrev pub is_jpeg_cmd : Transport → Bool
is_jpeg_cmd jpeg_cmd = true
is_jpeg_cmd _ = false

abbrev pub is_user_jpeg : Transport → Bool
is_user_jpeg user_jpeg = true
is_user_jpeg _ = false

abbrev pub is_nv12 : Transport → Bool
is_nv12 nv12 = true
is_nv12 _ = false

-- The string that names where an error came from.
pub data Source : Type 0 where
  from_raw from_jpeg_encode from_jpeg_cmd from_nv12 from_keepalive from_userspace_jpeg from_drm :
      Source

-- The four fields that one `t6_metrics_record_timing` updates.
pub record Timing : Type 0 where
  pub samples : ℕ
  pub total : ℕ
  pub last : ℕ
  pub longest : ℕ

-- `struct t6_head_metrics`
pub record HeadMetrics : Type 0 where
  pub queue_attempts : ℕ
  pub queued_frames : ℕ
  pub coalesced_overwrites : ℕ
  pub skipped_frames : ℕ
  pub sent_frames : ℕ
  pub sent_bytes : ℕ
  pub send_errors : ℕ
  pub keepalive_sent : ℕ
  pub keepalive_errors : ℕ
  pub transport_faults : ℕ
  pub pacing_defers : ℕ
  pub stage : Timing
  pub queue_wait : Timing
  pub encode : Timing
  pub usb : Timing
  pub send : Timing
  pub last_payload_bytes : ℕ
  pub last_error : ℤ
  pub last_error_source : Option Source

-- `struct t6_device_metrics`
pub record DeviceMetrics : Type 0 where
  pub bulk_calls : ℕ
  pub bulk_chunks : ℕ
  pub bulk_bytes : ℕ
  pub bulk_errors : ℕ
  pub bulk_short_writes : ℕ
  pub tx_work_runs : ℕ
  pub tx_work_empty : ℕ
  pub tx_adapter_defers : ℕ
  pub bulk_time : Timing
  pub last_bulk_bytes : ℕ

-- Where a head's frames and commands go in the adapter's memory.
pub record Stream : Type 0 where
  pub fb_addr : ℕ
  pub cmd_addr : ℕ
  pub fb_slots : List ℕ
  pub fb_slot_count : ℕ
  pub fb_slot_index : ℕ
  pub cmd_base_addr : ℕ
  pub cmd_limit_addr : ℕ
  pub cmd_cursor_addr : ℕ
  pub frame_seq : ℕ

-- The frame in flight, the pending one, and what paces them.
pub record TxQueue : Type 0 where
  pub front : Option (List ℕ)
  pub back : Option (List ℕ)
  pub buf_size : ℕ
  pub len : ℕ
  pub stride : ℕ
  pub pending : Bool
  pub keepalive_due : Bool
  pub queued_ns : ℕ
  pub last_jiffies : ℕ

-- What the probe learned of the monitor.
pub record Sink : Type 0 where
  pub connected : Bool
  pub status : ℕ
  pub width : ℕ
  pub height : ℕ
  pub monitor_name : List ℕ
  pub edid_data : List ℕ
  pub edid_len : ℕ

-- `struct t6_head`
pub record Head : Type 0 where
  pub output_idx : ℕ
  pub transport : Transport
  pub sink : Sink
  pub stream : Stream
  pub tx : TxQueue
  pub metrics : HeadMetrics
  pub io_faulted : Bool
  pub io_last_error : ℤ
  pub scanout_active : Bool
  pub tx_work_queued : Bool
  pub tx_defer_work : Option ℕ
  pub video_staging : Option (List ℕ)
  pub video_staging_size : ℕ
  pub last_sent_frame : Option (List ℕ)
  pub last_sent_valid : Bool
  pub raw_last_sent_jiffies : ℕ
  pub jpeg_adaptive_quality : ℕ
  pub jpeg_staging : Option (List ℕ)
  pub jpeg_staging_size : ℕ
  pub keepalive_timer : Option ℕ
  pub last_jpeg_data : Option (List ℕ)
  pub last_jpeg_len : ℕ
  pub fb_export_buf : Option (List ℕ)
  pub fb_export_len : ℕ
  pub fb_export_seq : ℕ
  pub boot_keepalive_work : Option ℕ

-- The setup packet of a control request.
pub record Setup : Type 0 where
  pub req : ℕ
  pub val : ℕ
  pub idx : ℕ
  pub size : ℕ

-- One transfer that was handed to the USB core.
pub data Transfer : Type 0 where
  control_out : Setup → List ℕ → Transfer
  control_in : Setup → Transfer
  bulk_out : List ℕ → Transfer

-- `struct t6_device`; `unplugged` is what `drm_dev_is_unplugged` says and `drm_dev_enter` denies,
-- `hotplug_events` counts the calls of `drm_kms_helper_hotplug_event`, and `wire` has the transfers that
-- were made, the oldest first.
pub record Device : Type 0 where
  pub ram_mb : ℕ
  pub head0 : Head
  pub head1 : Head
  pub metrics : DeviceMetrics
  pub tx_next_head : ℕ
  pub has_wq : Bool
  pub manual_only : Bool
  pub output_mask : ℕ
  pub io_faulted : Bool
  pub io_last_error : ℤ
  pub has_bulk_chunk : Bool
  pub unplugged : Bool
  pub hotplug_events : ℕ
  pub wire : List Transfer

-- The module parameters.
pub record Params : Type 0 where
  pub device_path : List ℕ
  pub output_mask : ℕ
  pub query_only : Bool
  pub query_timings : Bool
  pub query_timing_page1 : Bool
  pub aquamarine_evdi_name : Bool
  pub raw_idle_refresh : Bool
  pub final_monitor_off : Bool
  pub experimental_secondary_raw : Bool
  pub secondary_userspace_jpeg : Bool
  pub jpeg_quality : ℕ
  pub frame_min_interval_ms : ℕ
  pub secondary_frame_min_interval_ms : ℕ
  pub manual_only : Bool
  pub serialize_usb_bus : Bool

-- `t6_get_head`
abbrev pub get_head : Device → ℕ → Head
get_head t6 idx = if idx == 0 then t6.head0 else t6.head1

abbrev pub set_head : Device → ℕ → Head → Device
set_head t6 idx h = if idx == 0 then record t6 { head0 = h } else record t6 { head1 = h }

-- `t6_head_scanout_supported`
unfoldable pub head_scanout_supported : Head → Bool
head_scanout_supported h =
    is_raw h.transport || is_jpeg_cmd h.transport || is_user_jpeg h.transport || is_nv12 h.transport

-- `output_mask & (1U << output_idx)`, for the two outputs that there are.
abbrev pub mask_has : ℕ → ℕ → Bool
mask_has mask idx = not (bit_and mask (1 <<< idx) == 0)

unfoldable pub head_drm_scanout_enabled : Device → Head → Bool
unfolding head_scanout_supported
head_drm_scanout_enabled t6 h =
    head_scanout_supported h && not t6.manual_only && mask_has t6.output_mask h.output_idx

unfoldable pub head_runtime_connected : Device → Head → Bool
unfolding head_drm_scanout_enabled
head_runtime_connected t6 h =
    h.sink.connected && not h.io_faulted && head_drm_scanout_enabled t6 h && not t6.io_faulted

-- `t6_metrics_update_last_max`
unfoldable pub update_last_max : ℕ → Timing → Timing
update_last_max value t = record t {
  last = value;
  longest = if ltb t.longest value then value else t.longest;
}

-- `t6_metrics_record_timing`
unfoldable pub record_timing : ℕ → Timing → Timing
unfolding update_last_max
record_timing value t =
    if value == 0
    then t
    else update_last_max value (record t { samples = t.samples + 1; total = t.total + value })

-- `t6_metrics_avg_ns`
unfoldable pub avg_ns : Timing → ℕ
avg_ns t = if t.samples == 0 then 0 else t.total / t.samples

-- `t6_head_set_error` and `t6_head_record_send_error`
unfoldable pub head_set_error : ℤ → Option Source → HeadMetrics → HeadMetrics
head_set_error error source m = record m { last_error = error; last_error_source = source }

unfoldable pub head_record_send_error : ℤ → Option Source → HeadMetrics → HeadMetrics
unfolding head_set_error
head_record_send_error error source m =
    head_set_error error source (record m { send_errors = m.send_errors + 1 })
