-- ===== src/Driver/Frame.antt =====
-- kernel/trigger6_drv.c: `t6_frame_work`, the worker that sends a head's pending frame or keepalive, and
-- `t6_frame_defer_work`. The worker is cut where the C code takes or drops a lock. `clock` is read before the
-- frame is prepared, and `later` behind it.
pub mod Deferral
pub mod Turns
use jcd543_mct_t6_linux_driv.Prelude.{
  ℕ, ◌+◌, ◌*◌, ◌%◌, Bool, true, false, ◌&&◌, ◌||◌, not, ◌==◌, if◌then◌else◌, Option, none, some,
  take, length,
}
use jcd543_mct_t6_linux_driv.Prelude.Int.{ℤ, pos, is_zero, is_negative, magnitude}
use jcd543_mct_t6_linux_driv.Codec.Huffman.{HuffTables}
use jcd543_mct_t6_linux_driv.Driver.Device.{
  Device, Head, Params, get_head, set_head, is_raw, is_nv12, is_jpeg_cmd, head_runtime_connected,
  record_timing, head_record_send_error, from_drm, from_keepalive,
}
use jcd543_mct_t6_linux_driv.Driver.Addressing.{slot_addr}
use jcd543_mct_t6_linux_driv.Driver.Queue.{
  Clock, is_null, pop_pending_frame, head_tx_delay, should_yield_turn, defer_head_activity,
  queue_head_tx_work, queue_next_pending_head,
}
use jcd543_mct_t6_linux_driv.Driver.Usb.{Bus, bulk_write}
use jcd543_mct_t6_linux_driv.Driver.Packet.{bulk_header_bytes}
use jcd543_mct_t6_linux_driv.Driver.Damage.{FrameDamage, compute_frame_damage, copy_range}
use jcd543_mct_t6_linux_driv.Driver.Raw.{raw_refresh_eligible, raw_frame_size, send_frame_raw}
use jcd543_mct_t6_linux_driv.Driver.Jpeg.{
  bytes_of, outside, prepare_frame_jpeg_cmd, send_prepared_jpeg_cmd, send_jpeg_blob,
}
use jcd543_mct_t6_linux_driv.Driver.Nv12.{prepare_frame_nv12, send_prepared_nv12}
use jcd543_mct_t6_linux_driv.Driver.Keepalive.{raw_deadline, time_before}
use jcd543_mct_t6_linux_driv.Driver.Fault.{trip_transport_fault}

-- What the worker took out of the head's queue.
pub record Turn : Type 0 where
  pub len : ℕ
  pub queued_ns : ℕ
  pub keepalive : Bool

-- What the preparation found: whether to go on, the size of the encoded frame, and the damage.
pub record Prepared : Type 0 where
  pub go_on : Bool
  pub encoded_len : ℕ
  pub damage : Option FrameDamage

abbrev pub stop : Prepared
stop = record { go_on = false; encoded_len = 0; damage = none }

-- `!damage.full_frame && damage.num_ranges == 0`
abbrev pub no_damage : FrameDamage → Bool
no_damage d = not d.full_frame && length d.ranges == 0

abbrev pub count_skipped : ℕ → Device → Device
count_skipped idx t6 =
    let h = get_head t6 idx in
    let m = h.metrics in
    set_head t6 idx (record h { metrics = record m { skipped_frames = m.skipped_frames + 1 } })

-- The first part, under `tx_lock`: the pending frame, or else a keepalive that is due.
unfoldable pub take_turn : Params → ℕ → Device → Option (Device × Turn)
take_turn params idx t6 =
    let h = get_head t6 idx in
    elim (pop_pending_frame h.tx) [
      | some p ↦ some (
        set_head t6 idx (record h { tx = p.queue }),
        record { len = p.len; queued_ns = p.queued_ns; keepalive = false },
      )
      | none ↦
          if h.tx.keepalive_due
            && (not (is_null h.last_jpeg_data) || raw_refresh_eligible params t6 h)
          then some (
            set_head t6 idx (record h { tx = record (h.tx) { keepalive_due = false } }),
            record { len = 0; queued_ns = 0; keepalive = true },
          )
          else none
    ]

module _ (params : Params) (bus : Bus) (tables : HuffTables) where
  -- The preparation of a frame failed, or gave so many bytes.
  unfoldable pub prepared : ℕ → Option FrameDamage → Device × ℤ → Device × Prepared
  prepared idx dmg (t, ret) =
      if is_negative ret
      then (trip_transport_fault idx ret from_drm t, stop)
      else (t, record { go_on = true; encoded_len = magnitude ret; damage = dmg })

  abbrev pub frame_damage : Head → FrameDamage
  frame_damage h =
      compute_frame_damage h.sink.width h.sink.height (bytes_of h.tx.front) h.last_sent_frame
        h.last_sent_valid

  -- The part between the two looks at the delay.
  unfoldable pub prepare_turn : ℕ → Turn → Device → Device × Prepared
  unfolding prepared
  prepare_turn idx turn t6 =
      let h = get_head t6 idx in
      let dmg = frame_damage h in
      if turn.keepalive
      then (t6, record { go_on = true; encoded_len = 0; damage = none })
      else if is_jpeg_cmd h.transport
      then prepared idx none (prepare_frame_jpeg_cmd params bus tables idx h.tx.front turn.len t6)
      else if is_raw h.transport
      then (t6, record { go_on = true; encoded_len = 0; damage = some dmg })
      else if is_nv12 h.transport
      then (if no_damage dmg
          then (count_skipped idx t6, stop)
          else prepared idx (some dmg) (prepare_frame_nv12 params bus idx h.tx.front t6))
      else (t6, record { go_on = true; encoded_len = 0; damage = none })

  -- The keepalive of an NV12 head: the last payload again, to the current slot.
  unfoldable pub resend_nv12 : ℕ → Device → Device × ℤ
  resend_nv12 idx t6 =
      let h = get_head t6 idx in
      let fb = slot_addr h.stream (h.stream.fb_slot_index % h.stream.fb_slot_count) in
      let header = bulk_header_bytes (record {
        payload_length = h.last_jpeg_len;
        payload_address = fb;
        packet_length = h.last_jpeg_len;
      }) in
      let (t, ret) = bulk_write params bus header t6 in
      let again = bulk_write params bus (take h.last_jpeg_len (bytes_of h.last_jpeg_data)) t in
      if is_zero ret then again else (t, ret)

  -- What a keepalive returned, counted.
  unfoldable pub count_keepalive : ℕ → Device × ℤ → Device × ℤ
  count_keepalive idx (t, ret) =
      let h = get_head t idx in
      let m = h.metrics in
      let failed = record m { keepalive_errors = m.keepalive_errors + 1 } in
      let counted =
        if is_zero ret
        then record m { keepalive_sent = m.keepalive_sent + 1 }
        else head_record_send_error ret (some from_keepalive) failed in
      (set_head t idx (record h { metrics = counted }), ret)

  -- A keepalive. A raw head that is no longer idle sends nothing, and nothing is counted.
  unfoldable pub send_keepalive : Clock → ℕ → Device → Device × ℤ
  unfolding resend_nv12 count_keepalive
  send_keepalive later idx t6 =
      let h = get_head t6 idx in
      let frame = bytes_of h.last_sent_frame in
      if is_raw h.transport
      then (if not (raw_refresh_eligible params t6 h)
            || time_before later.jiffies (raw_deadline later h)
          then (t6, pos 0)
          else count_keepalive idx (
              send_frame_raw params bus later idx frame (h.sink.width * h.sink.height * 4) none true
                t6))
      else if is_nv12 h.transport
      then count_keepalive idx (resend_nv12 idx t6)
      else count_keepalive idx (
          send_jpeg_blob params bus later idx (outside (bytes_of h.last_jpeg_data)) h.last_jpeg_len
            t6)

  -- What is sent under `io_lock`.
  unfoldable pub send_turn : Clock → ℕ → Turn → Prepared → Device → Device × ℤ
  unfolding send_keepalive
  send_turn later idx turn p t6 =
      let h = get_head t6 idx in
      if turn.keepalive
      then send_keepalive later idx t6
      else if is_raw h.transport
      then send_frame_raw params bus later idx (bytes_of h.tx.front) turn.len p.damage false t6
      else if is_nv12 h.transport
      then send_prepared_nv12 params bus later idx p.encoded_len t6
      else send_prepared_jpeg_cmd params bus later idx p.encoded_len t6

  -- The time that the frame waited.
  unfoldable pub count_wait : ℕ → Turn → Device → Device
  count_wait idx turn t6 =
      let h = get_head t6 idx in
      let m = h.metrics in
      if turn.keepalive || turn.queued_ns == 0
      then t6
      else set_head t6 idx (record h {
        metrics = record m { queue_wait = record_timing (bus.elapsed_ns t6.wire) m.queue_wait };
      })

  -- The reference frame of an NV12 head, after a success.
  unfoldable pub update_nv12_reference : ℕ → Turn → Device → Device
  update_nv12_reference idx turn t6 =
      let h = get_head t6 idx in
      if not turn.keepalive && is_nv12 h.transport && not (is_null h.last_sent_frame)
      then set_head t6 idx (record h {
        last_sent_frame =
            some
              (copy_range 0 (raw_frame_size h) (bytes_of h.tx.front) (bytes_of h.last_sent_frame));
        last_sent_valid = true;
      })
      else t6

  -- The part behind `unlock_io`.
  unfoldable pub finish_turn : Clock → ℕ → Turn → Device × ℤ → Device
  unfolding update_nv12_reference
  finish_turn later idx turn (t, ret) =
      let h = get_head t idx in
      let served =
        record (set_head t idx (record h { tx = record (h.tx) { last_jiffies = later.jiffies } })) {
          tx_next_head = (h.output_idx + 1) % 2;
        } in
      if is_zero ret
      then queue_next_pending_head params later (update_nv12_reference idx turn served)
      else if turn.keepalive
      then served
      else trip_transport_fault idx ret from_drm served

  -- The part from the second look at the delay on.
  unfoldable pub transmit_turn : Clock → ℕ → Turn → Prepared → Device → Device
  unfolding send_turn count_wait finish_turn
  transmit_turn later idx turn p t6 =
      let (delay, reason) = head_tx_delay params later (get_head t6 idx) in
      if not (delay == 0)
      then defer_head_activity idx turn.len turn.queued_ns turn.keepalive delay reason t6
      else if t6.unplugged
      then t6
      else finish_turn later idx turn (send_turn later idx turn p (count_wait idx turn t6))

  -- The part from the look at the connection on.
  unfoldable pub serve_turn : Clock → Clock → ℕ → Turn → Device → Device
  unfolding prepare_turn transmit_turn
  serve_turn clock later idx turn t6 =
      let (yielded, yields) =
        should_yield_turn params clock idx turn.len turn.queued_ns turn.keepalive t6 in
      let (delay, reason) = head_tx_delay params clock (get_head yielded idx) in
      let (t, p) = prepare_turn idx turn yielded in
      if not (head_runtime_connected t6 (get_head t6 idx))
      then t6
      else if yields
      then yielded
      else if not (delay == 0)
      then defer_head_activity idx turn.len turn.queued_ns turn.keepalive delay reason yielded
      else if p.go_on
      then transmit_turn later idx turn p t
      else t

  -- What the worker does with what it took out of the queue.
  unfoldable pub run_turn : Clock → Clock → ℕ → Device → Option (Device × Turn) → Device
  run_turn clock later idx t6 none = record t6 {
    metrics = record (t6.metrics) { tx_work_empty = t6.metrics.tx_work_empty + 1 };
  }
  run_turn clock later idx t6 (some (taken, turn)) = serve_turn clock later idx turn taken

  -- `t6_frame_work`; the work that runs is no longer queued.
  unfoldable pub frame_work : Clock → Clock → ℕ → Device → Device
  unfolding run_turn
  frame_work clock later idx t =
      let m = t.metrics in
      let h = get_head t idx in
      let t6 = record (set_head t idx (record h { tx_work_queued = false })) {
        metrics = record m { tx_work_runs = m.tx_work_runs + 1 };
      } in
      if t6.io_faulted || h.io_faulted
      then t6
      else run_turn clock later idx t6 (take_turn params idx t6)

-- `t6_frame_defer_work`; the delayed work that runs is no longer pending.
unfoldable pub frame_defer_work : ℕ → Device → Device
frame_defer_work idx t6 =
    queue_head_tx_work idx (set_head t6 idx (record (get_head t6 idx) { tx_defer_work = none }))
