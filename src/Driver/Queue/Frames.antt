-- ===== src/Driver/Queue/Frames.antt =====
-- kernel/trigger6_drv.c: a head holds one pending frame, the newest.
use jcd543_mct_t6_linux_driv.Prelude.{ℕ, ◌≡◌, false, some, List, arith}
use jcd543_mct_t6_linux_driv.Driver.Device.{Head}
use jcd543_mct_t6_linux_driv.Driver.Queue.{Popped, pop_pending_frame, stage_pending}

-- With both buffers there, the frame that is staged is the one that is taken out next, with its length and
-- time, whether an older one was pending or not: the two buffers change places, and no frame is left pending.
pub pop_pending_frame-stage_pending :
    (h : Head) (len stride queued_ns : ℕ) (front back : List ℕ)
    → h.tx.front ≡ some front
    → h.tx.back ≡ some back
    → (p : Popped) × (pop_pending_frame (stage_pending len stride queued_ns h).tx ≡ some p)
      × (p.queue.front ≡ some back)
      × (p.queue.back ≡ some front)
      × (p.len ≡ len)
      × (p.queued_ns ≡ queued_ns)
      × (p.queue.pending ≡ false)
unfolding pop_pending_frame stage_pending
pop_pending_frame-stage_pending h len stride queued_ns front back e f = (
  record {
    queue = record (h.tx) {
      front = some back;
      back = some front;
      len = len;
      stride = stride;
      pending = false;
      queued_ns = 0;
    };
    len = len;
    queued_ns = queued_ns;
  },
  ground arith,
  ground arith,
  ground arith,
  ground arith,
  ground arith,
  ground arith,
)
