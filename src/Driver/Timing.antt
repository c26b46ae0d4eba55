-- ===== src/Driver/Timing.antt =====
-- kernel/trigger6_drv.c: `t6_query_head0_timings`, which reads the adapter's table of timings and shows it.
use jcd543_mct_t6_linux_driv.Prelude.{
  ℕ, ◌+◌, ◌*◌, ◌^◌, ◌&&◌, ◌||◌, not, ◌==◌, if◌then◌else◌, List, get_or, replicate,
}
use jcd543_mct_t6_linux_driv.Prelude.Words.{u16, sub_u32}
use jcd543_mct_t6_linux_driv.Prelude.Int.{ℤ, pos, is_negative}
use jcd543_mct_t6_linux_driv.Prelude.Errno.{eio, enomem, enodev, eproto}
use jcd543_mct_t6_linux_driv.Policy.Query.{timing_query_entries, res_entry_size, res_max_entries}
use jcd543_mct_t6_linux_driv.Driver.Device.{Device, Params}
use jcd543_mct_t6_linux_driv.Driver.Usb.{Bus, ctrl_in, equals_size}

-- `le32_to_cpu` of the bytes read.
abbrev pub read_le32 : List ℕ → ℕ
read_le32 b = get_or b 0 0 + 2 ^ 8 * get_or b 1 0 + 2 ^ 16 * get_or b 2 0 + 2 ^ 24 * get_or b 3 0

abbrev pub first_entry : Params → ℕ
first_entry params = if params.query_timing_page1 then res_max_entries else 0

-- The number of entries to read, of those that the adapter counts; 0 stands for a refusal.
unfoldable pub wanted_entries : Params → ℕ → ℕ
wanted_entries params count =
    if params.query_timing_page1 && not (count == 36)
    then 0
    else timing_query_entries (sub_u32 count (first_entry params))

module _ (params : Params) (bus : Bus) where
  -- The read of the table, after the count. The table itself is only shown.
  unfoldable pub read_timings : ℕ → Device → Device × ℤ
  unfolding wanted_entries
  read_timings count t6 =
      let entries = wanted_entries params count in
      let size = u16 (entries * res_entry_size) in
      let index = u16 (first_entry params * res_entry_size) in
      let (t, ret, table) =
        ctrl_in params bus (record { req = 0x89; val = 0; idx = index; size = size })
          (replicate size 0) t6 in
      if entries == 0
      then (t6, eproto)
      else if not (bus.allocates t6.wire)
      then (t6, enomem)
      else if equals_size ret size
      then (t, pos 0)
      else (t, if is_negative ret then ret else eio)

  -- `t6_query_head0_timings`
  unfoldable pub query_head0_timings : Device → Device × ℤ
  unfolding read_timings
  query_head0_timings t6 =
      let s = t6.head0.sink in
      let (t, ret, bytes) =
        ctrl_in params bus (record { req = 0x84; val = 0; idx = 0; size = 4 }) (replicate 4 0) t6 in
      let read = read_timings (read_le32 bytes) t in
      if not params.query_only
        || not params.query_timings
        || not (t6.output_mask == 1)
        || not s.connected
        || not (s.status == 1)
        || not (s.edid_len == 128)
      then (t6, enodev)
      else if not (equals_size ret 4)
      then (t, if is_negative ret then ret else eio)
      else read
