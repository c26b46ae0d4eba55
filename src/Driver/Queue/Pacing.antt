-- ===== src/Driver/Queue/Pacing.antt =====
-- kernel/trigger6_drv.c: how long a head may be held back.
use jcd543_mct_t6_linux_driv.Prelude.{ℕ, ◌+◌, ◌%◌, ◌^◌, ◌<◌, ◌≡◌, arith}
use jcd543_mct_t6_linux_driv.Driver.Device.{Head, Params}
use jcd543_mct_t6_linux_driv.Driver.Queue.{Clock, defer_none, head_tx_delay, gate_ms}

-- From the moment on at which the gate has passed since the frame was sent, however much later it is, the head is not delayed, also if the 64-bit counter of
-- jiffies wrapped in between; less than a turn of the counter has passed.
pub head_tx_delay_expires :
    (params : Params) (clock : Clock) (h : Head) (sent late : ℕ)
    → h.tx.last_jiffies ≡ sent % 2 ^ 64
    → clock.jiffies ≡ (sent + (clock.msecs_to_jiffies (gate_ms params h) + late)) % 2 ^ 64
    → clock.msecs_to_jiffies (gate_ms params h) + late < 2 ^ 64
    → head_tx_delay params clock h ≡ (0, defer_none)
unfolding head_tx_delay
head_tx_delay_expires params clock h sent late last now small = ground arith
