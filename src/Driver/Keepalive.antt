-- ===== src/Driver/Keepalive.antt =====
-- kernel/trigger6_drv.c: the keepalive timer and the keepalive before the compositor starts.
use jcd543_mct_t6_linux_driv.Prelude.{
  ℕ, ◌+◌, ◌%◌, ◌^◌, Bool, true, ◌&&◌, ◌||◌, not, leb, ◌==◌, if◌then◌else◌, none, some, take,
}
use jcd543_mct_t6_linux_driv.Prelude.Words.{sub_u64}
use jcd543_mct_t6_linux_driv.Driver.Device.{Device, Head, Params, get_head, set_head, is_raw}
use jcd543_mct_t6_linux_driv.Driver.Queue.{Clock, is_null, queue_head_tx_work}
use jcd543_mct_t6_linux_driv.Driver.Usb.{Bus, bulk_write}
use jcd543_mct_t6_linux_driv.Driver.Packet.{bulk_header_bytes}
use jcd543_mct_t6_linux_driv.Driver.Raw.{raw_refresh_eligible, refresh_ms}
use jcd543_mct_t6_linux_driv.Driver.Jpeg.{bytes_of}

abbrev pub boot_keepalive_ms : ℕ
boot_keepalive_ms = 1500

-- `time_before(a, b)`: the difference is negative as a signed 64-bit number.
abbrev pub time_before : ℕ → ℕ → Bool
time_before a b = leb (2 ^ 63) (sub_u64 a b)

-- `raw_last_sent_jiffies + msecs_to_jiffies(T6_RAW_IDLE_REFRESH_MS)`
abbrev pub raw_deadline : Clock → Head → ℕ
raw_deadline clock h = (h.raw_last_sent_jiffies + clock.msecs_to_jiffies refresh_ms) % 2 ^ 64

-- The end of `t6_keepalive_timeout`.
unfoldable pub request_keepalive : ℕ → Device → Device
request_keepalive idx t6 =
    let h = get_head t6 idx in
    queue_head_tx_work idx
      (set_head t6 idx (record h { tx = record (h.tx) { keepalive_due = true } }))

module _ (params : Params) where
  -- `t6_keepalive_timeout`; the timer that fired is no longer pending.
  unfoldable pub keepalive_timeout : Clock → ℕ → Device → Device
  unfolding request_keepalive raw_refresh_eligible
  keepalive_timeout clock idx t =
      let t6 = set_head t idx (record (get_head t idx) { keepalive_timer = none }) in
      let h = get_head t6 idx in
      let deadline = raw_deadline clock h in
      if not h.sink.connected || not h.scanout_active || h.io_faulted || t6.io_faulted
      then t6
      else if is_raw h.transport
      then (if not (raw_refresh_eligible params t6 h)
          then t6
          else if time_before clock.jiffies deadline
          then set_head t6 idx (record h { keepalive_timer = some deadline })
          else request_keepalive idx t6)
      else if is_null h.last_jpeg_data
      then t6
      else request_keepalive idx t6

module _ (params : Params) (bus : Bus) where
  -- The two writes of `t6_boot_keepalive_fn`; what they return is not looked at.
  unfoldable pub boot_keepalive_send : ℕ → Device → Device
  boot_keepalive_send idx t6 =
      let h = get_head t6 idx in
      let header = bulk_header_bytes (record {
        payload_length = h.last_jpeg_len;
        payload_address = h.stream.fb_addr;
        packet_length = h.last_jpeg_len;
      }) in
      let (t, r) = bulk_write params bus header t6 in
      let (u, s) = bulk_write params bus (take h.last_jpeg_len (bytes_of h.last_jpeg_data)) t in
      let g = get_head u idx in
      let m = g.metrics in
      set_head u idx (record g { metrics = record m { keepalive_sent = m.keepalive_sent + 1 } })

  -- `t6_boot_keepalive_fn`; the work that runs is no longer pending.
  unfoldable pub boot_keepalive_fn : Clock → ℕ → Device → Device
  unfolding boot_keepalive_send
  boot_keepalive_fn clock idx t =
      let t6 = set_head t idx (record (get_head t idx) { boot_keepalive_work = none }) in
      let h = get_head t6 idx in
      let sent = boot_keepalive_send idx t6 in
      let g = get_head sent idx in
      if not h.sink.connected || h.io_faulted || t6.io_faulted
      then t6
      else if is_null h.last_jpeg_data || h.last_jpeg_len == 0
      then t6
      else if sent.has_wq && g.sink.connected
      then set_head sent idx
          (record g { boot_keepalive_work = some (clock.msecs_to_jiffies boot_keepalive_ms) })
      else sent
