-- ===== src/Driver/Frame/Deferral.antt =====
-- kernel/trigger6_drv.c: a turn of the worker that yields or is held back.
use jcd543_mct_t6_linux_driv.Prelude.{
  ℕ, ◌≡◌, ◌≢◌, ◌<◌, ◌+◌, ◌⊎◌, inl, inr, refl, ◌∙◌, ap, sym, Bool, ◌||◌, true, false, none, some,
  arith, if◌then◌else◌, ◌==◌,
}
use jcd543_mct_t6_linux_driv.Codec.Huffman.{HuffTables}
use jcd543_mct_t6_linux_driv.Driver.Device.{
  Device, Head, HeadMetrics, TxQueue, Params, get_head, set_head, head_runtime_connected,
  head_drm_scanout_enabled,
}
use jcd543_mct_t6_linux_driv.Driver.Device.Heads.{get-set_head}
use jcd543_mct_t6_linux_driv.Driver.Queue.{
  Clock, DeferReason, defer_none, defer_adapter, defer_head, pop_pending_frame, requeue_activity,
  requeue_head_activity, defer_head_activity, head_tx_delay, should_yield_turn, queue_head_tx_work,
  requeue_popped, is_null, gate_ms,
}
use jcd543_mct_t6_linux_driv.Driver.Usb.{Bus}
use jcd543_mct_t6_linux_driv.Driver.Frame.{Turn, take_turn, serve_turn, run_turn, frame_work}

-- The second device has the wire of the first, the turn is back in the queue of its head, and something will
-- serve it: its delayed work is armed, or the other head's work is queued.
pub record IsPutBack (idx : ℕ) (t u : Device) : Type 0 where
  pub same_wire : u.wire ≡ t.wire
  pub same_queue : (get_head u idx).tx ≡ (get_head t idx).tx
  pub served :
      ((get_head u idx).tx_defer_work ≢ none)
      ⊎ (((idx ≡ 0) × (u.head1.tx_work_queued ≡ true))
          ⊎ ((idx ≡ 1) × (u.head0.tx_work_queued ≡ true)))

-- What is put back after a turn was taken is the queue as it was.
record IsRequeued (idx : ℕ) (turn : Turn) (t u : Device) : Type 0 where
  same_wire : u.wire ≡ t.wire
  same_queue :
      (get_head u idx).tx
      ≡ requeue_activity turn.len turn.queued_ns turn.keepalive (get_head t idx).tx
  served :
      ((get_head u idx).tx_defer_work ≢ none)
      ⊎ (((idx ≡ 0) × (u.head1.tx_work_queued ≡ true))
          ⊎ ((idx ≡ 1) × (u.head0.tx_work_queued ≡ true)))

-- The turn is back in the queue, and the work queue is there.
record IsBack (idx : ℕ) (turn : Turn) (t u : Device) : Type 0 where
  same_wire : u.wire ≡ t.wire
  same_queue :
      (get_head u idx).tx
      ≡ requeue_activity turn.len turn.queued_ns turn.keepalive (get_head t idx).tx
  has_queue : u.has_wq ≡ true

requeue-IsBack :
    (idx : ℕ) (turn : Turn) (t : Device)
    → t.has_wq ≡ true
    → IsBack idx turn t (requeue_head_activity idx turn.len turn.queued_ns turn.keepalive t)
unfolding requeue_head_activity
requeue-IsBack idx turn t w = ground arith

count-IsBack :
    (idx : ℕ) (turn : Turn) (t u : Device) (m : HeadMetrics)
    → IsBack idx turn t u
    → IsBack idx turn t (set_head u idx (record (get_head u idx) { metrics = m }))
count-IsBack idx turn t u m b = ground arith

-- Arming the delayed work.
arm-IsRequeued :
    (idx : ℕ) (turn : Turn) (delay : ℕ) (t u : Device)
    → IsBack idx turn t u
    → IsRequeued idx turn t (
        if u.has_wq
        then set_head u idx (record (get_head u idx) { tx_defer_work = some delay })
        else u)
arm-IsRequeued idx turn delay t u b = ground arith

defer-IsRequeued :
    (idx : ℕ) (turn : Turn) (delay : ℕ) (reason : DeferReason) (t : Device)
    → t.has_wq ≡ true
    → IsRequeued idx turn t
        (defer_head_activity idx turn.len turn.queued_ns turn.keepalive delay reason t)
unfolding defer_head_activity
defer-IsRequeued idx turn delay defer_none t w =
    let u = requeue_head_activity idx turn.len turn.queued_ns turn.keepalive t in
    arm-IsRequeued idx turn delay t u (requeue-IsBack idx turn t w)
defer-IsRequeued idx turn delay defer_adapter t w =
    let u = requeue_head_activity idx turn.len turn.queued_ns turn.keepalive t in
    let b = requeue-IsBack idx turn t w in
    arm-IsRequeued idx turn delay t
      (record u {
        metrics = record (u.metrics) { tx_adapter_defers = u.metrics.tx_adapter_defers + 1 };
      })
      (record { same_wire = b.same_wire; same_queue = b.same_queue; has_queue = b.has_queue })
defer-IsRequeued idx turn delay defer_head t w =
    let u = requeue_head_activity idx turn.len turn.queued_ns turn.keepalive t in
    let m = (get_head u idx).metrics in
    let counted = record m { pacing_defers = m.pacing_defers + 1 } in
    arm-IsRequeued idx turn delay t (set_head u idx (record (get_head u idx) { metrics = counted }))
      (count-IsBack idx turn t u counted (requeue-IsBack idx turn t w))

yield-IsRequeued :
    (params : Params) (clock : Clock) (idx : ℕ) (turn : Turn) (t : Device)
    → idx < 2
    → t.has_wq ≡ true
    → let (u, yields) =
        should_yield_turn params clock idx turn.len turn.queued_ns turn.keepalive t in
      ((yields ≡ false) × (u ≡ t)) ⊎ ((yields ≡ true) × IsRequeued idx turn t u)
unfolding should_yield_turn requeue_head_activity queue_head_tx_work
yield-IsRequeued params clock idx turn t small w = ground arith

-- A head has a frame in both its buffers, or no frame and a keepalive that is due with an image to send again.
unfoldable pub HasTurn : Head → Type 0
HasTurn h =
    ((h.tx.pending ≡ true) × (is_null h.tx.front ≡ false) × (is_null h.tx.back ≡ false))
    ⊎ ((h.tx.pending ≡ false) × (h.tx.keepalive_due ≡ true) × (is_null h.last_jpeg_data ≡ false))

-- A head with this queue and the rest of another.
pop-HasTurn :
    (params : Params) (idx : ℕ) (t : Device)
    → HasTurn (get_head t idx)
    → (q : TxQueue) × (turn : Turn) × (take_turn params idx t
        ≡ some (set_head t idx (record (get_head t idx) { tx = q }), turn))
      × (requeue_activity turn.len turn.queued_ns turn.keepalive q ≡ (get_head t idx).tx)
      × (q.last_jiffies ≡ (get_head t idx).tx.last_jiffies)
unfolding take_turn pop_pending_frame requeue_activity requeue_popped HasTurn
pop-HasTurn params idx t (inl h) =
    let q = (get_head t idx).tx in
    (
      record q { front = q.back; back = q.front; pending = false; queued_ns = 0 },
      record { len = q.len; queued_ns = q.queued_ns; keepalive = false },
      ground arith,
      ground arith,
      refl,
    )
pop-HasTurn params idx t (inr h) =
    let q = (get_head t idx).tx in
    (
      record q { keepalive_due = false },
      record { len = 0; queued_ns = 0; keepalive = true },
      ground arith,
      ground arith,
      refl,
    )

-- The delay and the connection look at no more of the queue than the time of the last frame.
same_delay :
    (params : Params) (clock : Clock) (h : Head) (q : TxQueue)
    → q.last_jiffies ≡ h.tx.last_jiffies
    → head_tx_delay params clock (record h { tx_work_queued = false; tx = q })
      ≡ head_tx_delay params clock h
unfolding head_tx_delay gate_ms
same_delay params clock h q e = rw e refl

-- The device of a run of the worker that has begun.
abbrev started : ℕ → Device → Device
started idx t =
    let m = t.metrics in
    record (set_head t idx (record (get_head t idx) { tx_work_queued = false })) {
      metrics = record m { tx_work_runs = m.tx_work_runs + 1 };
    }

get_head-started :
    (idx : ℕ) (t : Device)
    → get_head (started idx t) idx ≡ record (get_head t idx) { tx_work_queued = false }
get_head-started idx t = ground arith

started_same :
    (idx : ℕ) (t : Device)
    → ((started idx t).wire ≡ t.wire)
      × ((started idx t).has_wq ≡ t.has_wq)
      × ((started idx t).io_faulted ≡ t.io_faulted)
started_same idx t = ground arith

set_head_same :
    (t : Device) (idx : ℕ) (h : Head)
    → ((set_head t idx h).wire ≡ t.wire) × ((set_head t idx h).has_wq ≡ t.has_wq)
set_head_same t idx h = ground arith

connected_same :
    (idx : ℕ) (t : Device) (q : TxQueue)
    → let s =
        set_head (started idx t) idx (record (get_head t idx) { tx_work_queued = false; tx = q }) in
      head_runtime_connected s (record (get_head t idx) { tx_work_queued = false; tx = q })
      ≡ head_runtime_connected t (get_head t idx)
unfolding head_runtime_connected head_drm_scanout_enabled
connected_same idx t q = ground arith

connected_healthy :
    (t : Device) (h : Head)
    → head_runtime_connected t h ≡ true
    → (t.io_faulted ≡ false) × (h.io_faulted ≡ false)
unfolding head_runtime_connected
connected_healthy t h c = ground arith

if_false : (b : Bool) (x y : Device) → b ≡ false → (if b then x else y) ≡ y
if_false b x y h = ground (arith, h)

nonzero : (n : ℕ) → n ≢ 0 → (n == 0) ≡ false
nonzero n h = ground arith

module _ (params : Params) (bus : Bus) (tables : HuffTables) where
  serve-IsRequeued :
      (clock later : Clock) (idx : ℕ) (turn : Turn) (t : Device)
      → idx < 2
      → t.has_wq ≡ true
      → head_runtime_connected t (get_head t idx) ≡ true
      → (head_tx_delay params clock (get_head t idx)).0 ≢ 0
      → IsRequeued idx turn t (serve_turn params bus tables clock later idx turn t)
  unfolding serve_turn
  serve-IsRequeued clock later idx turn t small w on wait =
      let d = head_tx_delay params clock (get_head t idx) in
      let later_than : (d.0 == 0) ≡ false = nonzero d.0 wait in
      elim (yield-IsRequeued params clock idx turn t small w) [
        | inl (stays, same) ↦
            rw (on, stays, same, later_than) (defer-IsRequeued idx turn d.0 d.1 t w)
        | inr (leaves, back) ↦ rw (on, leaves) back
      ]

  frame_work_takes :
      (clock later : Clock) (idx : ℕ) (turn : Turn) (t taken : Device)
      → (started idx t).io_faulted ≡ false
      → (get_head t idx).io_faulted ≡ false
      → take_turn params idx (started idx t) ≡ some (taken, turn)
      → frame_work params bus tables clock later idx t
        ≡ serve_turn params bus tables clock later idx turn taken
  unfolding frame_work run_turn
  frame_work_takes clock later idx turn t taken a b c =
      let s = started idx t in
      if_false (s.io_faulted || (get_head t idx).io_faulted) s
        (run_turn params bus tables clock later idx s (take_turn params idx s))
        (ground (arith, a, b))
      ∙ ap (run_turn params bus tables clock later idx s) c

  -- For a connected head with a frame in its buffers, or a keepalive to send, that has to wait, and with the work queue there, the worker makes no
  -- transfer, leaves the queue of the head as it was, with the frame and its buffers or the keepalive, and arms the delayed work of the head or queues
  -- the work of the other head, to which it yields.
  pub frame_work-IsPutBack :
      (clock later : Clock) (idx : ℕ) (t : Device)
      → idx < 2
      → t.has_wq ≡ true
      → head_runtime_connected t (get_head t idx) ≡ true
      → HasTurn (get_head t idx)
      → (head_tx_delay params clock (get_head t idx)).0 ≢ 0
      → IsPutBack idx t (frame_work params bus tables clock later idx t)
  unfolding HasTurn
  frame_work-IsPutBack clock later idx t small w on has wait =
      let s = started idx t in
      let h = get_head t idx in
      let e = get_head-started idx t in
      let (sw, sq, sf) = started_same idx t in
      let (q, turn, took, back, last) = pop-HasTurn params idx s (rw e has) in
      let taken = set_head s idx (record (get_head s idx) { tx = q }) in
      let g = record h { tx_work_queued = false; tx = q } in
      let et : get_head taken idx ≡ g =
        get-set_head s idx (record (get_head s idx) { tx = q })
        ∙ ap (λ (x : Head). record x { tx = q }) e in
      let es : taken ≡ set_head s idx g =
        ap (λ (x : Head). set_head s idx (record x { tx = q })) e in
      let (_, healthy) = connected_healthy t h on in
      let wq : taken.has_wq ≡ true =
        (set_head_same s idx (record (get_head s idx) { tx = q })).1 ∙ sq ∙ w in
      let still_on : head_runtime_connected taken (get_head taken idx) ≡ true =
        rw (et, es) (connected_same idx t q ∙ on) in
      let delay : head_tx_delay params clock (get_head taken idx) ≡ head_tx_delay params clock h =
        ap (head_tx_delay params clock) et
        ∙ same_delay params clock h q (last ∙ ap (λ (x : Head). x.tx.last_jiffies) e) in
      let r =
        serve-IsRequeued clock later idx turn taken small wq still_on
          (λ (z : (head_tx_delay params clock (get_head taken idx)).0 ≡ 0).
            wait (ap (λ (x : ℕ × DeferReason). x.0) (sym delay) ∙ z)) in
      rw
        (frame_work_takes clock later idx turn t taken (sf ∙ (connected_healthy t h on).0) healthy
          took)
        (record {
          same_wire =
              r.same_wire ∙ (set_head_same s idx (record (get_head s idx) { tx = q })).0 ∙ sw;
          same_queue =
              r.same_queue
              ∙ ap (λ (x : Head). requeue_activity turn.len turn.queued_ns turn.keepalive x.tx) et
              ∙ back
              ∙ ap (λ (x : Head). x.tx) e;
          served = r.served;
        })
