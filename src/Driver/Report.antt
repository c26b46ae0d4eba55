-- ===== src/Driver/Report.antt =====
-- kernel/trigger6_drv.c: `t6_metrics_show`, the text of the sysfs attribute, and `t6_log_head`. A line of text is its format and
-- the values that fill it in; how many characters `sysfs_emit_at` makes of it is a parameter.
pub mod Page
use jcd543_mct_t6_linux_driv.Prelude.{
  ℕ, ◌+◌, ◌-◌, ◌/◌, Bool, ◌&&◌, not, leb, ◌==◌, if◌then◌else◌, Option, none, some, List, [], ◌∷◌,
  ◌++◌,
}
use jcd543_mct_t6_linux_driv.Prelude.Int.{ℤ}
use jcd543_mct_t6_linux_driv.Driver.Device.{
  Device, Head, Params, Source, Timing, Transport, raw, jpeg_cmd, user_jpeg, nv12, get_head,
  is_user_jpeg, head_scanout_supported, head_runtime_connected, avg_ns,
}

-- The strings of `t6_transport_name`.
pub data TransportName : Type 0 where
  name_raw name_jpeg_cmd name_user_jpeg name_nv12 : TransportName

unfoldable pub transport_name : Transport → TransportName
transport_name jpeg_cmd = TransportName.name_jpeg_cmd
transport_name user_jpeg = TransportName.name_user_jpeg
transport_name nv12 = TransportName.name_nv12
transport_name raw = TransportName.name_raw

-- What fills in a format.
pub data Value : Type 0 where
  number : ℕ → Value
  signed : ℤ → Value
  flag : Bool → Value
  text : List ℕ → Value
  transport : TransportName → Value
  source : Option Source → Value

-- The formats of `t6_metrics_show`, in the order of the code.
pub data Format : Type 0 where
  no_device bus_state bulk_counts head_state head_queue head_sent head_waits head_times head_error :
      Format

pub record Line : Type 0 where
  pub format : Format
  pub values : List Value

-- The lines so far, each with the offset it is put at, and the length.
pub record Report : Type 0 where
  pub lines : List (ℕ × Line)
  pub len : ℕ

-- What the USB core knows of the device.
pub record BusName : Type 0 where
  pub busnum : ℕ
  pub devnum : ℕ
  pub interface_name : List ℕ

-- Nanoseconds in microseconds.
abbrev pub us : ℕ → Value
us ns = Value.number (ns / 1000)

-- The three values of one timing.
abbrev pub timing : Timing → List Value
timing t = us (avg_ns t) ∷ us t.last ∷ us t.longest ∷ []

unfoldable pub bus_line : BusName → Device → Line
bus_line bus t6 = record {
  format = Format.bus_state;
  values =
      Value.number bus.busnum
      ∷ Value.number bus.devnum
      ∷ Value.text bus.interface_name
      ∷ Value.flag t6.manual_only
      ∷ Value.flag t6.io_faulted
      ∷ Value.signed t6.io_last_error
      ∷ [];
}

unfoldable pub bulk_line : Device → Line
bulk_line t6 =
    let m = t6.metrics in
    record {
      format = Format.bulk_counts;
      values =
          Value.number m.bulk_calls
          ∷ Value.number m.bulk_chunks
          ∷ Value.number m.bulk_bytes
          ∷ Value.number m.bulk_errors
          ∷ Value.number m.bulk_short_writes
          ∷ Value.number m.tx_work_runs
          ∷ Value.number m.tx_work_empty
          ∷ Value.number m.tx_adapter_defers
          ∷ us m.bulk_time.last
          ∷ us m.bulk_time.longest
          ∷ Value.number m.last_bulk_bytes
          ∷ [];
    }

unfoldable pub state_line : Params → Head → Line
unfolding transport_name
state_line params h = record {
  format = Format.head_state;
  values =
      Value.number h.output_idx
      ∷ Value.transport (transport_name h.transport)
      ∷ Value.flag h.sink.connected
      ∷ Value.flag h.io_faulted
      ∷ Value.number h.sink.status
      ∷ Value.flag h.tx.pending
      ∷ Value.number h.sink.width
      ∷ Value.number h.sink.height
      ∷ Value.number h.stream.frame_seq
      ∷ Value.flag h.scanout_active
      ∷ Value.flag (params.raw_idle_refresh && h.output_idx == 0)
      ∷ [];
}

unfoldable pub queue_line : Head → Line
queue_line h =
    let m = h.metrics in
    record {
      format = Format.head_queue;
      values =
          Value.number h.output_idx
          ∷ Value.number m.queue_attempts
          ∷ Value.number m.queued_frames
          ∷ Value.number m.coalesced_overwrites
          ∷ Value.number m.skipped_frames
          ∷ Value.number m.pacing_defers
          ∷ Value.number m.transport_faults
          ∷ Value.number h.jpeg_adaptive_quality
          ∷ [];
    }

unfoldable pub sent_line : Head → Line
sent_line h =
    let m = h.metrics in
    record {
      format = Format.head_sent;
      values =
          Value.number h.output_idx
          ∷ Value.number m.sent_frames
          ∷ Value.number m.sent_bytes
          ∷ Value.number m.send_errors
          ∷ Value.number m.keepalive_sent
          ∷ Value.number m.keepalive_errors
          ∷ Value.number m.last_payload_bytes
          ∷ [];
    }

unfoldable pub waits_line : Head → Line
waits_line h = record {
  format = Format.head_waits;
  values = Value.number h.output_idx ∷ (timing h.metrics.stage ++ timing h.metrics.queue_wait);
}

unfoldable pub times_line : Head → Line
times_line h = record {
  format = Format.head_times;
  values =
      Value.number h.output_idx
      ∷ (timing h.metrics.encode ++ (timing h.metrics.usb ++ timing h.metrics.send));
}

unfoldable pub error_line : Head → Line
error_line h = record {
  format = Format.head_error;
  values =
      Value.number h.output_idx
      ∷ Value.signed h.metrics.last_error
      ∷ Value.source h.metrics.last_error_source
      ∷ [];
}

-- `emit` is what `sysfs_emit_at` returns at an offset, and `page_size` is the size of the buffer.
module _ (emit : ℕ → Line → ℕ) (page_size : ℕ) where
  unfoldable pub put_line : Line → Report → Report
  put_line line r = record { lines = r.lines ++ (r.len, line) ∷ []; len = r.len + emit r.len line }

  -- `if (len >= PAGE_SIZE - 256) return len;`
  unfoldable pub unless_full : (Report → Report) → Report → Report
  unless_full next r = if leb (page_size - 256) r.len then r else next r

  -- The lines of a head, and what follows them.
  unfoldable pub show_head : Params → Head → (Report → Report) → Report → Report
  unfolding put_line unless_full state_line queue_line sent_line waits_line times_line error_line
  show_head params h next = unless_full λ r.
      unless_full
        (λ s. next (put_line (error_line h) (put_line (times_line h) (put_line (waits_line h) s))))
        (put_line (sent_line h) (put_line (queue_line h) (put_line (state_line params h) r)))

  -- `t6_metrics_show`; there is no device when the interface has no driver data.
  unfoldable pub metrics_show : Params → BusName → Option Device → Report
  unfolding show_head bus_line bulk_line
  metrics_show params bus none =
      put_line (record { format = Format.no_device; values = [] }) (record { lines = []; len = 0 })
  metrics_show params bus (some t6) =
      unless_full
        (λ r.
          show_head params (get_head t6 0) (show_head params (get_head t6 1) (λ s. s))
            (put_line (bulk_line t6) r))
        (put_line (bus_line bus t6) (record { lines = []; len = 0 }))

-- The word for the state of a head in the log.
pub data ScanoutState : Type 0 where
  blocked manual_only halted enabled : ScanoutState

-- The notice that follows it.
pub data Notice : Type 0 where
  scanout_disabled compositor_managed manual_only_mode : Notice

unfoldable pub scanout_state : Device → Head → ScanoutState
scanout_state t6 h =
    if not (head_scanout_supported h)
    then ScanoutState.blocked
    else if t6.manual_only
    then ScanoutState.manual_only
    else if h.io_faulted
    then ScanoutState.halted
    else if t6.io_faulted
    then ScanoutState.halted
    else ScanoutState.enabled

-- `t6_log_head`: the state and the notice.
unfoldable pub log_head : Device → ℕ → ScanoutState × Option Notice
unfolding scanout_state
log_head t6 idx =
    let h = get_head t6 idx in
    (
      scanout_state t6 h,
      if h.sink.connected && not (head_scanout_supported h)
          then some Notice.scanout_disabled
          else if h.sink.connected && is_user_jpeg h.transport
          then some Notice.compositor_managed
          else if h.sink.connected && t6.manual_only
          then some Notice.manual_only_mode
          else none,
    )

-- `t6_update_connector_status`: whether the connector's status becomes `connector_status_connected`.
unfoldable pub update_connector_status : Device → ℕ → Bool
update_connector_status t6 idx = head_runtime_connected t6 (get_head t6 idx)
