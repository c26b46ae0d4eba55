-- ===== src/Driver/Device/Heads.antt =====
-- kernel/trigger6.h: getting and putting back a head of a device.
use jcd543_mct_t6_linux_driv.Prelude.{ℕ, ◌≡◌, arith}
use jcd543_mct_t6_linux_driv.Driver.Device.{Device, Head, get_head, set_head}

-- What is put back for a head is got for it.
pub get-set_head : (t : Device) (idx : ℕ) (h : Head) → get_head (set_head t idx h) idx ≡ h
get-set_head t idx h = ground arith
