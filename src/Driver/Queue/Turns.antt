-- ===== src/Driver/Queue/Turns.antt =====
-- kernel/trigger6_drv.c: which head is served next.
use jcd543_mct_t6_linux_driv.Prelude.{ℕ, ◌+◌, ◌%◌, ◌<◌, ◌≡◌, ◌≢◌, true, false, some, arith}
use jcd543_mct_t6_linux_driv.Driver.Device.{Device, Head, Params, get_head}
use jcd543_mct_t6_linux_driv.Driver.Queue.{
  Clock, pick_next_pending, head_has_pending_activity, can_serve,
}

module _ (params : Params) (clock : Clock) where
  can_serve_any : (h : Head) → can_serve params clock false h ≡ head_has_pending_activity h
  unfolding can_serve
  can_serve_any h = ground arith

  -- Without deferral, if one head was served last and the other has a frame or a keepalive pending, the other
  -- is picked.
  pub pick_next_pending_turn :
      (t6 : Device) (served other : ℕ)
      → t6.tx_next_head ≡ (served + 1) % 2
      → other < 2
      → served < 2
      → other ≢ served
      → head_has_pending_activity (get_head t6 other) ≡ true
      → pick_next_pending params clock false t6 ≡ some other
  unfolding pick_next_pending
  pick_next_pending_turn t6 served other turn h k ne active =
      ground (arith, can_serve_any t6.head0, can_serve_any t6.head1)
