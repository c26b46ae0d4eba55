-- ===== src/Examples/Driver.antt =====
-- kernel/trigger6_drv.c: the driver's operations on the concrete device.
use jcd543_mct_t6_linux_driv.Prelude.{
  ℕ, ◌+◌, ◌*◌, ◌≤◌, ◌≡◌, ◌⊎◌, refl, true, false, none, some, List, [], ◌∷◌, ◌++◌, arith,
}
use jcd543_mct_t6_linux_driv.Prelude.Int.{pos, is_negative}
use jcd543_mct_t6_linux_driv.Policy.Query.{query_in_allowed}
use jcd543_mct_t6_linux_driv.Driver.Device.{Device, Setup, get_head, control_in, raw, nv12}
use jcd543_mct_t6_linux_driv.Driver.Addressing.{mib, init_head_addressing, cmd_place}
use jcd543_mct_t6_linux_driv.Driver.Addressing.Layout.{IsLayout, init_head_addressing-IsLayout}
use jcd543_mct_t6_linux_driv.Driver.Addressing.Ring.{IsRing, cmd_place-IsRing}
use jcd543_mct_t6_linux_driv.Driver.Queue.{
  Popped, pop_pending_frame, stage_pending, head_has_pending_activity, gate_ms, head_tx_delay,
  defer_none,
}
use jcd543_mct_t6_linux_driv.Driver.Queue.Frames.{pop_pending_frame-stage_pending}
use jcd543_mct_t6_linux_driv.Driver.Frame.{Turn, finish_turn}
use jcd543_mct_t6_linux_driv.Driver.Frame.Turns.{finish_turn_alternates}
use jcd543_mct_t6_linux_driv.Driver.Queue.Pacing.{head_tx_delay_expires}
use jcd543_mct_t6_linux_driv.Driver.Usb.{ctrl_out, ctrl_in, bulk_write}
use jcd543_mct_t6_linux_driv.Driver.Usb.Latch.{ctrl_in_allowed, ctrl_out_latches}
use jcd543_mct_t6_linux_driv.Driver.Usb.Chunks.{Sent, bulk_write-Sent}
use jcd543_mct_t6_linux_driv.Driver.Damage.{compute_frame_damage, scan_rows, copy_ranges}
use jcd543_mct_t6_linux_driv.Driver.Damage.Exact.{Tracks, compute_frame_damage-Tracks}
use jcd543_mct_t6_linux_driv.Examples.Encoder.{not_ready}
use jcd543_mct_t6_linux_driv.Examples.Data.{
  pending_queue, primary, secondary, three_slots, no_stream, device, params, clock, bus,
}

init_head_addressing-IsLayout_example :
    IsLayout 64 nv12
      (init_head_addressing 64 0 raw no_stream)
      (init_head_addressing 64 1 nv12 no_stream)
init_head_addressing-IsLayout_example =
    init_head_addressing-IsLayout 64 nv12 no_stream (omega arith) (omega arith) no_stream

three_slots-IsRing : IsRing (3 * mib) three_slots
three_slots-IsRing = record {
  fits = omega arith;
  no_wrap = omega arith;
  cursor_above = omega arith;
  cursor_below = omega arith;
}

cmd_place-IsRing_example :
    (10000000 ≤ cmd_place three_slots (2 * mib))
    × (cmd_place three_slots (2 * mib) + 2 * mib ≤ 13145728)
    × IsRing
        (3 * mib)
        (record three_slots { cmd_cursor_addr = cmd_place three_slots (2 * mib) + 2 * mib })
cmd_place-IsRing_example =
    cmd_place-IsRing (3 * mib) (2 * mib) three_slots (omega arith) (omega arith) three_slots-IsRing

abbrev popped : Popped
popped = record {
  queue = record pending_queue {
    front = some (3 ∷ 4 ∷ []);
    back = some (1 ∷ 2 ∷ []);
    pending = false;
    queued_ns = 0;
  };
  len = 2;
  queued_ns = 77;
}

pop_pending : pop_pending_frame pending_queue ≡ some popped
unfolding pop_pending_frame
pop_pending = refl

pop_pending_frame-stage_pending_example :
    (p : Popped) × (pop_pending_frame (stage_pending 2 8 99 primary).tx ≡ some p)
    × (p.queue.front ≡ some (3 ∷ 4 ∷ []))
    × (p.queue.back ≡ some (1 ∷ 2 ∷ []))
    × (p.len ≡ 2)
    × (p.queued_ns ≡ 99)
    × (p.queue.pending ≡ false)
pop_pending_frame-stage_pending_example =
    pop_pending_frame-stage_pending primary 2 8 99 (1 ∷ 2 ∷ []) (3 ∷ 4 ∷ []) refl refl

secondary_active : head_has_pending_activity secondary ≡ true
unfolding head_has_pending_activity
secondary_active = refl

-- A frame of the first head that was sent while both heads have one pending.
abbrev sent_turn : Turn
sent_turn = record { len = 2; queued_ns = 77; keepalive = false }

finish_turn_alternates_example :
    let t = finish_turn params bus not_ready clock 0 sent_turn (device, pos 0) in
    ((get_head t 1).tx_work_queued ≡ true) × ((get_head t 0).tx_work_queued ≡ false)
finish_turn_alternates_example =
    finish_turn_alternates params bus not_ready clock 0 1 sent_turn device refl refl (omega arith)
      (omega arith) (omega arith) secondary_active

gate_three : clock.msecs_to_jiffies (gate_ms params secondary) ≡ 3
unfolding gate_ms
gate_three = refl

head_tx_delay_expires_example : head_tx_delay params clock secondary ≡ (0, defer_none)
head_tx_delay_expires_example =
    head_tx_delay_expires params clock secondary 1000 0 refl (omega (arith, gate_three))
      (omega (arith, gate_three))

-- The request for the memory size.
abbrev get_ram : Setup
get_ram = record { req = 0x88; val = 0; idx = 0; size = 4 }

abbrev faulted : Device
faulted = record device { io_faulted = true }

ctrl_in_allowed_example :
    ((ctrl_in params bus get_ram [] device).0.wire ≡ [])
    ⊎ (((ctrl_in params bus get_ram [] device).0.wire ≡ [] ++ control_in get_ram ∷ [])
        × (device.manual_only ≡ false)
        × (device.io_faulted ≡ false)
        × ((params.query_only ≡ false) ⊎ (query_in_allowed 3 false false 0x88 0 0 4 ≡ true)))
ctrl_in_allowed_example = ctrl_in_allowed params bus device get_ram []

ctrl_out_latches_example :
    let (t, r) = ctrl_out params bus get_ram none device in
    (t ≡ device) × (is_negative r ≡ true)
    ⊎ ((r ≡ pos 4) × (t.io_faulted ≡ false)
        ⊎ (is_negative r ≡ true) × (t.io_faulted ≡ true) × (t.io_last_error ≡ r))
ctrl_out_latches_example = ctrl_out_latches params bus device get_ram none

bulk_write-Sent_example :
    Sent params bus (1 ∷ 2 ∷ 3 ∷ []) [] (bulk_write params bus (1 ∷ 2 ∷ 3 ∷ []) device)
bulk_write-Sent_example = bulk_write-Sent params bus (1 ∷ 2 ∷ 3 ∷ []) device refl refl refl refl tt

-- Frames of two rows of one pixel, which differ in the second row.
abbrev new_frame : List ℕ
new_frame = 1 ∷ 2 ∷ 3 ∷ 4 ∷ 5 ∷ 6 ∷ 7 ∷ 8 ∷ []

abbrev old_frame : List ℕ
old_frame = 1 ∷ 2 ∷ 3 ∷ 4 ∷ 5 ∷ 6 ∷ 0 ∷ 8 ∷ []

partial : (compute_frame_damage 1 2 new_frame (some old_frame) true).full_frame ≡ false
unfolding compute_frame_damage scan_rows
partial = refl

compute_frame_damage-Tracks_example :
    let d = compute_frame_damage 1 2 new_frame (some old_frame) true in
    Tracks 4 new_frame old_frame 2 d.ranges
    × (copy_ranges 4 d.ranges new_frame old_frame ≡ new_frame)
compute_frame_damage-Tracks_example =
    compute_frame_damage-Tracks 1 2 new_frame old_frame (omega arith) (omega arith) (omega arith)
      refl refl partial
