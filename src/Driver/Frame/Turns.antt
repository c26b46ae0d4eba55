-- ===== src/Driver/Frame/Turns.antt =====
-- kernel/trigger6_drv.c: the two heads take turns.
use mathlib.Core.Path.{subst}
use jcd543_mct_t6_linux_driv.Prelude.{
  ℕ, ◌+◌, ◌%◌, ◌<◌, ◌≡◌, ◌≢◌, ◌∙◌, refl, sym, true, false, some, arith,
}
use jcd543_mct_t6_linux_driv.Prelude.Int.{pos}
use jcd543_mct_t6_linux_driv.Driver.Device.{Device, Params, get_head, set_head}
use jcd543_mct_t6_linux_driv.Codec.Huffman.{HuffTables}
use jcd543_mct_t6_linux_driv.Driver.Usb.{Bus}
use jcd543_mct_t6_linux_driv.Driver.Queue.{
  Clock, pick_next_pending, head_has_pending_activity, queue_head_tx_work, queue_next_pending_head,
}
use jcd543_mct_t6_linux_driv.Driver.Queue.Turns.{pick_next_pending_turn}
use jcd543_mct_t6_linux_driv.Driver.Frame.{Turn, update_nv12_reference, finish_turn}

-- The work of one head is queued, and of no other.
queue_one :
    (t : Device) (idx other : ℕ)
    → t.has_wq ≡ true
    → idx < 2
    → other < 2
    → other ≢ idx
    → let u = queue_head_tx_work other t in
      ((get_head u other).tx_work_queued ≡ true)
      × ((get_head u idx).tx_work_queued ≡ (get_head t idx).tx_work_queued)
unfolding queue_head_tx_work
queue_one t idx other wq h k ne = ground arith

queue_picked :
    (params : Params) (clock : Clock) (t : Device) (idx : ℕ)
    → pick_next_pending params clock false t ≡ some idx
    → queue_next_pending_head params clock t ≡ queue_head_tx_work idx t
unfolding queue_next_pending_head
queue_picked params clock t idx h = rw (h, queue_next_pending_head) refl

module _ (params : Params) (bus : Bus) (tables : HuffTables) where
  -- What the end of a turn leaves before the next is chosen: the turn is passed on, and the other head is as it was.
  record IsPassed (idx other : ℕ) (t u : Device) : Type 0 where
    next : u.tx_next_head ≡ (idx + 1) % 2
    wq : u.has_wq ≡ t.has_wq
    active :
        head_has_pending_activity (get_head u other) ≡ head_has_pending_activity (get_head t other)
    queued : (get_head u idx).tx_work_queued ≡ (get_head t idx).tx_work_queued

  served_lem :
      (later : Clock) (idx other : ℕ) (turn : Turn) (t : Device)
      → (get_head t idx).output_idx ≡ idx
      → idx < 2
      → other < 2
      → other ≢ idx
      → let h = get_head t idx in
        IsPassed idx other t (
          update_nv12_reference params bus tables idx turn
            (record (set_head t idx
              (record h { tx = record (h.tx) { last_jiffies = later.jiffies } })) {
                tx_next_head = (h.output_idx + 1) % 2;
              }))
  unfolding update_nv12_reference
  served_lem later idx other turn t own h k ne = ground arith

  -- When a frame or a keepalive of one head was sent with success and the other head has one pending, the worker queues the
  -- work of the other head, and not that of the head that it served, whichever of them was first in turn before and whatever
  -- the served head has pending. The work queue is there, and the head is the one of its index.
  pub finish_turn_alternates :
      (later : Clock) (idx other : ℕ) (turn : Turn) (t : Device)
      → (get_head t idx).output_idx ≡ idx
      → t.has_wq ≡ true
      → idx < 2
      → other < 2
      → other ≢ idx
      → head_has_pending_activity (get_head t other) ≡ true
      → let u = finish_turn params bus tables later idx turn (t, pos 0) in
        ((get_head u other).tx_work_queued ≡ true)
        × ((get_head u idx).tx_work_queued ≡ (get_head t idx).tx_work_queued)
  unfolding finish_turn
  finish_turn_alternates later idx other turn t own wq h k ne active =
      let g = get_head t idx in
      let served : Device =
        record (set_head t idx (record g { tx = record (g.tx) { last_jiffies = later.jiffies } })) {
          tx_next_head = (g.output_idx + 1) % 2;
        } in
      let u : Device = update_nv12_reference params bus tables idx turn served in
      let p = served_lem later idx other turn t own h k ne in
      let picked : pick_next_pending params later false u ≡ some other =
        pick_next_pending_turn params later u idx other p.next k h ne (p.active ∙ active) in
      let (there, same) = queue_one u idx other (p.wq ∙ wq) h k ne in
      subst
        (λ (v : Device).
          ((get_head v other).tx_work_queued ≡ true)
          × ((get_head v idx).tx_work_queued ≡ (get_head t idx).tx_work_queued))
        (sym (queue_picked params later u other picked)) (there, same ∙ p.queued)
