-- ===== src/Driver/Queue.antt =====
-- kernel/trigger6_drv.c: the pending frame of each head, its pacing, and the choice of the head to serve.
pub mod Frames
pub mod Turns
pub mod Pacing
use jcd543_mct_t6_linux_driv.Prelude.{
  ℕ, ◌+◌, ◌-◌, ◌/◌, ◌%◌, min, max, Bool, true, false, ◌&&◌, ◌||◌, not, ltb, ◌==◌, if◌then◌else◌,
  Option, none, some, List,
}
use jcd543_mct_t6_linux_driv.Prelude.Words.{u32, sub_u64}
use jcd543_mct_t6_linux_driv.Driver.Device.{
  Device, Head, HeadMetrics, TxQueue, Params, is_raw, is_jpeg_cmd, is_nv12, get_head, set_head,
}

-- `enum t6_tx_defer_reason`
pub data DeferReason : Type 0 where
  defer_none defer_adapter defer_head : DeferReason

abbrev pub is_defer_head : DeferReason → Bool
is_defer_head defer_head = true
is_defer_head _ = false

unfoldable pub head_has_pending_activity : Head → Bool
head_has_pending_activity h = h.tx.pending || h.tx.keepalive_due

abbrev pub is_null : Option (List ℕ) → Bool
is_null none = true
is_null (some b) = false

-- The queue without its pending frame, and what goes through `len` and `queued_ns`.
pub record Popped : Type 0 where
  pub queue : TxQueue
  pub len : ℕ
  pub queued_ns : ℕ

-- `t6_pop_pending_frame_locked`; `none` is its `false`.
unfoldable pub pop_pending_frame : TxQueue → Option Popped
pop_pending_frame q =
    if not q.pending || is_null q.front || is_null q.back
    then none
    else some (record {
      queue = record q { front = q.back; back = q.front; pending = false; queued_ns = 0 };
      len = q.len;
      queued_ns = q.queued_ns;
    })

-- `t6_requeue_popped_head_locked`
unfoldable pub requeue_popped : ℕ → ℕ → TxQueue → TxQueue
requeue_popped len queued_ns q = record q {
  front = q.back;
  back = q.front;
  pending = true;
  len = len;
  queued_ns = if queued_ns == 0 then q.queued_ns else queued_ns;
}

-- `t6_stage_pending_head_locked`
unfoldable pub stage_pending : ℕ → ℕ → ℕ → Head → Head
stage_pending len stride queued_ns h = record h {
  metrics =
      if h.tx.pending
      then record (h.metrics) { coalesced_overwrites = h.metrics.coalesced_overwrites + 1 }
      else record (h.metrics) { queued_frames = h.metrics.queued_frames + 1 };
  tx = record (h.tx) { len = len; stride = stride; pending = true; queued_ns = queued_ns };
}

-- What the kernel's clock gives: the conversion, and the counter as it reads now.
pub record Clock : Type 0 where
  pub msecs_to_jiffies : ℕ → ℕ
  pub jiffies : ℕ

-- `gate_ms` of `t6_head_tx_delay_jiffies`, for a head that is not raw.
unfoldable pub gate_ms : Params → Head → ℕ
gate_ms params h =
    if is_jpeg_cmd h.transport || is_nv12 h.transport
    then (let last_encode = h.metrics.encode.last in
        let cap = params.secondary_frame_min_interval_ms in
        let gate =
          if not (last_encode == 0)
          then u32 (last_encode / 1000000)
          else if cap == 0
          then 50
          else cap in
        let floored = max gate 5 in if cap == 0 then floored else min floored cap)
    else 0

-- `t6_head_tx_delay_jiffies`, and the reason that it gives.
unfoldable pub head_tx_delay : Params → Clock → Head → ℕ × DeferReason
unfolding gate_ms
head_tx_delay params clock h =
    if is_raw h.transport
    then (0, defer_none)
    else (let gate = gate_ms params h in
        let required = clock.msecs_to_jiffies gate in
        let elapsed = sub_u64 clock.jiffies h.tx.last_jiffies in
        if not (gate == 0) && not (h.tx.last_jiffies == 0) && ltb elapsed required
        then (required - elapsed, defer_head)
        else (0, defer_none))

-- Whether the loop of `t6_pick_next_pending_head_locked` returns this candidate.
pub can_serve : Params → Clock → Bool → Head → Bool
unfolding head_tx_delay
can_serve params clock skip_head_deferred h =
    if not (head_has_pending_activity h)
    then false
    else (let (delay, reason) = head_tx_delay params clock h in
        not (skip_head_deferred && not (delay == 0) && is_defer_head reason))

-- `t6_pick_next_pending_head_locked`: the index of the head, or `none` for NULL.
unfoldable pub pick_next_pending : Params → Clock → Bool → Device → Option ℕ
unfolding can_serve
pick_next_pending params clock skip t6 =
    let first = t6.tx_next_head % 2 in
    let second = (t6.tx_next_head + 1) % 2 in
    if can_serve params clock skip (get_head t6 first)
    then some first
    else if can_serve params clock skip (get_head t6 second)
    then some second
    else none

-- `t6_queue_head_tx_work`
unfoldable pub queue_head_tx_work : ℕ → Device → Device
queue_head_tx_work idx t6 =
    if t6.has_wq then set_head t6 idx (record (get_head t6 idx) { tx_work_queued = true }) else t6

-- `t6_queue_next_pending_head`
unfoldable pub queue_next_pending_head : Params → Clock → Device → Device
queue_next_pending_head params clock t6 = elim (pick_next_pending params clock false t6) [
  | none ↦ t6
  | some idx ↦ queue_head_tx_work idx t6
]

-- The body that `t6_requeue_head_activity` and `t6_should_yield_turn` share, under the lock.
unfoldable pub requeue_activity : ℕ → ℕ → Bool → TxQueue → TxQueue
requeue_activity len queued_ns keepalive_due q =
    if q.pending
    then q
    else if keepalive_due
    then record q { keepalive_due = true }
    else requeue_popped len queued_ns q

-- `t6_requeue_head_activity`
unfoldable pub requeue_head_activity : ℕ → ℕ → ℕ → Bool → Device → Device
requeue_head_activity idx len queued_ns keepalive_due t6 =
    let h = get_head t6 idx in
    set_head t6 idx (record h { tx = requeue_activity len queued_ns keepalive_due h.tx })

-- `t6_defer_head_activity`
unfoldable pub defer_head_activity : ℕ → ℕ → ℕ → Bool → ℕ → DeferReason → Device → Device
defer_head_activity idx len queued_ns keepalive_due delay reason t6 =
    let t = requeue_head_activity idx len queued_ns keepalive_due t6 in
    let h = get_head t idx in
    let m = h.metrics in
    let counted : Device = elim reason [
      | defer_none ↦ t
      | defer_adapter ↦ record t {
        metrics = record (t.metrics) { tx_adapter_defers = t.metrics.tx_adapter_defers + 1 };
      }
      | defer_head ↦
          set_head t idx (record h { metrics = record m { pacing_defers = m.pacing_defers + 1 } })
    ] in
    if counted.has_wq
    then set_head counted idx (record (get_head counted idx) { tx_defer_work = some delay })
    else counted

-- `t6_should_yield_turn`
unfoldable pub should_yield_turn : Params → Clock → ℕ → ℕ → ℕ → Bool → Device → Device × Bool
should_yield_turn params clock idx len queued_ns keepalive_due t6 =
    let h = get_head t6 idx in
    if not (is_jpeg_cmd h.transport) && not (is_nv12 h.transport)
    then (t6, false)
    else elim (pick_next_pending params clock true t6) [
      | none ↦ (t6, false)
      | some next ↦
          (if not (next == idx) && is_raw (get_head t6 next).transport
            then (
              queue_head_tx_work next (requeue_head_activity idx len queued_ns keepalive_due t6),
              true,
            )
            else (t6, false))
    ]
