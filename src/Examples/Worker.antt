-- ===== src/Examples/Worker.antt =====
-- kernel/trigger6_drv.c: the worker on a head whose last frame was sent a tick ago.
use jcd543_mct_t6_linux_driv.Prelude.{◌≡◌, ◌≢◌, inl, refl, true, arith}
use jcd543_mct_t6_linux_driv.Driver.Device.{
  get_head, head_runtime_connected, head_drm_scanout_enabled, head_scanout_supported,
}
use jcd543_mct_t6_linux_driv.Driver.Queue.{Clock, head_tx_delay, gate_ms}
use jcd543_mct_t6_linux_driv.Driver.Frame.{frame_work}
use jcd543_mct_t6_linux_driv.Driver.Frame.Deferral.{IsPutBack, HasTurn, frame_work-IsPutBack}
use jcd543_mct_t6_linux_driv.Examples.Encoder.{not_ready}
use jcd543_mct_t6_linux_driv.Examples.Data.{device, secondary, params, clock, bus}

abbrev next_tick : Clock
next_tick = record clock { jiffies = 1001 }

secondary_connected : head_runtime_connected device (get_head device 1) ≡ true
unfolding head_runtime_connected head_drm_scanout_enabled head_scanout_supported
secondary_connected = refl

secondary-HasTurn : HasTurn secondary
unfolding HasTurn
secondary-HasTurn = inl (refl, refl, refl)

secondary_waits : (head_tx_delay params next_tick secondary).0 ≢ 0
unfolding head_tx_delay gate_ms
secondary_waits = λ (z : 2 ≡ 0). absurd (omega (arith, z))

frame_work-IsPutBack_example :
    IsPutBack 1 device (frame_work params bus not_ready next_tick next_tick 1 device)
frame_work-IsPutBack_example =
    frame_work-IsPutBack params bus not_ready next_tick next_tick 1 device (omega arith) refl
      secondary_connected secondary-HasTurn secondary_waits
