-- ===== src/Driver/Probe.antt =====
-- kernel/trigger6_drv.c: `t6_edid_base_block_valid`, `t6_parse_edid_monitor_name` and `t6_probe_head`.
-- A `char` is unsigned, as in kernels since version 6.2. `dev_info` and `dev_err` are left out.
pub mod Edid
use jcd543_mct_t6_linux_driv.Prelude.{
  ℕ, zero, suc, ◌+◌, Bool, true, false, ◌&&◌, ◌||◌, not, ltb, leb, ◌==◌, if◌then◌else◌, List, [],
  ◌∷◌, ◌++◌, take, drop, set, get_or, replicate, length,
}
use jcd543_mct_t6_linux_driv.Prelude.Words.{u8}
use jcd543_mct_t6_linux_driv.Prelude.Int.{ℤ, pos, ltb_ℤ, is_negative}
use jcd543_mct_t6_linux_driv.Prelude.Errno.{eio, enodev}
use jcd543_mct_t6_linux_driv.Driver.Device.{
  Device, Head, Sink, Params, Setup, get_head, set_head, mask_has,
}
use jcd543_mct_t6_linux_driv.Driver.Usb.{Bus, ctrl_in}
use jcd543_mct_t6_linux_driv.Driver.Damage.{same_bytes}

abbrev pub edid_header : List ℕ
edid_header = 0x00 ∷ 0xff ∷ 0xff ∷ 0xff ∷ 0xff ∷ 0xff ∷ 0xff ∷ 0x00 ∷ []

-- The loop over the bytes, with `checksum` in `acc`.
unfoldable pub checksum : List ℕ → ℕ → ℕ
checksum [] acc = acc
checksum (b ∷ bs) acc = checksum bs (u8 (acc + b))

unfoldable pub edid_base_block_valid : List ℕ → Bool
edid_base_block_valid edid =
    if not (same_bytes (take 8 edid) edid_header) then false else checksum (take 128 edid) 0 == 0

-- The extension count is cleared, and the checksum byte takes it up.
unfoldable pub hide_extensions : List ℕ → List ℕ
hide_extensions edid = set (set edid 127 (u8 (get_or edid 127 0 + get_or edid 126 0))) 126 0

-- Trailing white space and control characters become zeros.
unfoldable pub trim_name : List ℕ → List ℕ
trim_name [] = []
trim_name (c ∷ cs) =
    let rest = trim_name cs in
    if leb c 32 && same_bytes rest (replicate (length cs) 0) then 0 ∷ rest else c ∷ rest

-- The loop over the descriptors from offset `i` on; a name is 13 bytes and a zero.
unfoldable pub monitor_name : ℕ → ℕ → List ℕ → List ℕ → List ℕ
monitor_name zero i edid old = old
monitor_name (suc fuel) i edid old =
    let next = monitor_name fuel (i + 18) edid old in
    if ltb 128 (i + 18)
    then old
    else if not (get_or edid i 0 == 0)
        || not (get_or edid (i + 1) 0 == 0)
        || not (get_or edid (i + 3) 0 == 0xfc)
    then next
    else trim_name (take 13 (drop (i + 5) edid)) ++ 0 ∷ []

-- `t6_parse_edid_monitor_name`; there are four descriptors, and a round more for the test that ends the loop.
unfoldable pub parse_edid_monitor_name : Sink → Sink
unfolding monitor_name
parse_edid_monitor_name s =
    if ltb s.edid_len 128
    then s
    else record s { monitor_name = monitor_name 5 0x36 s.edid_data s.monitor_name }

abbrev pub set_sink : Device → ℕ → Sink → Device
set_sink t6 idx s = set_head t6 idx (record (get_head t6 idx) { sink = s })

-- The block that was read, checked: what is kept of it, and what is returned.
unfoldable pub accept_edid : ℕ → List ℕ → ℤ → Device → Device × ℤ
unfolding edid_base_block_valid hide_extensions parse_edid_monitor_name
accept_edid idx edid ret t6 =
    let s = (get_head t6 idx).sink in
    if not (ltb_ℤ ret (pos 128)) && edid_base_block_valid edid
    then (let named =
          parse_edid_monitor_name (record s { edid_len = 128; edid_data = hide_extensions edid }) in
        (set_sink t6 idx (record named { width = 1920; height = 1080 }), pos 0))
    else (set_sink t6 idx (record s { edid_data = edid }), if is_negative ret then ret else enodev)

module _ (params : Params) (bus : Bus) where
  unfoldable pub read_edid : ℕ → Device → Device × ℤ
  unfolding accept_edid
  read_edid idx t6 =
      let h = get_head t6 idx in
      let cleared = set_sink t6 idx (record (h.sink) { edid_len = 0 }) in
      let (t, ret, edid) =
        ctrl_in params bus (record { req = 0x80; val = 0; idx = h.output_idx; size = 128 })
          h.sink.edid_data cleared in
      accept_edid idx edid ret t

  -- `t6_probe_head`
  unfoldable pub probe_head : ℕ → Device → Device × ℤ
  unfolding read_edid
  probe_head idx t6 =
      let h = get_head t6 idx in
      let (t, ret, bytes) =
        ctrl_in params bus (record { req = 0x87; val = h.output_idx; idx = 0; size = 1 }) (0 ∷ [])
          t6 in
      let status = get_or bytes 0 0 in
      let seen =
        set_sink t idx
          (record ((get_head t idx).sink) { status = status; connected = status == 1 }) in
      let read = read_edid idx seen in
      if not (mask_has t6.output_mask h.output_idx)
      then (t6, pos 0)
      else if ltb_ℤ ret (pos 1)
      then (t, if is_negative ret then ret else eio)
      else if not (status == 1)
      then (seen, pos 0)
      else read
