-- ===== src/Driver/Bind.antt =====
-- kernel/trigger6_drv.c: `t6_usb_probe`. The display core and the allocator are the parameters `Core`.
pub mod Guards
pub mod Queries
pub mod Memory
pub mod Buffers
pub mod Ready
use jcd543_mct_t6_linux_driv.Prelude.{
  ℕ, Bool, true, false, ◌&&◌, ◌||◌, not, ◌==◌, if◌then◌else◌, Option, none, some, List, replicate,
}
use jcd543_mct_t6_linux_driv.Prelude.Int.{ℤ, pos, ltb_ℤ, is_zero, is_negative}
use jcd543_mct_t6_linux_driv.Prelude.Errno.{eio, enomem, enodev, einval}
use jcd543_mct_t6_linux_driv.Policy.Match.{output_mask_valid}
use jcd543_mct_t6_linux_driv.Driver.Device.{
  Device, DeviceMetrics, Head, Params, Transfer, get_head, set_head, is_user_jpeg,
}
use jcd543_mct_t6_linux_driv.Driver.Usb.{Bus, ctrl_in}
use jcd543_mct_t6_linux_driv.Driver.Probe.{probe_head}
use jcd543_mct_t6_linux_driv.Driver.Timing.{read_le32, query_head0_timings}
use jcd543_mct_t6_linux_driv.Driver.Fault.{cancel_head_activity}
use jcd543_mct_t6_linux_driv.Driver.Chip.{
  zero_timing, head_defaults, alloc_head_buffers, free_head_buffers, chip_init,
}
use jcd543_mct_t6_linux_driv.Driver.Unbind.{Interface, match_interface, path_matches}

-- What the kernel returns: `devm_drm_dev_alloc`, whether `alloc_workqueue` and the allocations of the buffers
-- succeed, the first error of `drmm_mode_config_init` and of the display objects, `misc_register`, and
-- `drm_dev_register`.
pub record Core : Type 0 where
  pub dev_alloc : ℤ
  pub workqueue : Bool
  pub chunk : Bool
  pub room0 : ℕ → Bool
  pub room1 : ℕ → Bool
  pub objects : ℤ
  pub misc_register : ℤ
  pub dev_register : ℤ

-- What a probe leaves: its return value, the device that the interface is bound to, the module's
-- `t6_active_probe_used`, and the transfers that were made.
pub record Probed : Type 0 where
  pub ret : ℤ
  pub bound : Option Device
  pub used : Bool
  pub wire : List Transfer

-- `t6_reset_device_metrics`
abbrev pub zero_device_metrics : DeviceMetrics
zero_device_metrics = record {
  bulk_calls = 0;
  bulk_chunks = 0;
  bulk_bytes = 0;
  bulk_errors = 0;
  bulk_short_writes = 0;
  tx_work_runs = 0;
  tx_work_empty = 0;
  tx_adapter_defers = 0;
  bulk_time = zero_timing;
  last_bulk_bytes = 0;
}

-- The device behind its allocation. Its heads are set to their defaults before anything reads them.
abbrev pub fresh_device : Params → List Transfer → Device
fresh_device params wire = record {
  ram_mb = 0;
  head0 = head_defaults params 0 0;
  head1 = head_defaults params 0 1;
  metrics = zero_device_metrics;
  tx_next_head = 0;
  has_wq = false;
  manual_only = params.manual_only;
  output_mask = params.output_mask;
  io_faulted = false;
  io_last_error = pos 0;
  has_bulk_chunk = false;
  unplugged = false;
  hotplug_events = 0;
  wire = wire;
}

-- The tests of the module parameters of an active run, in their order, and the test and set of
-- `t6_active_probe_used`. `pos 0`: the probe goes on.
unfoldable pub active_options : Params → Bool → ℤ
active_options params used =
    if not (output_mask_valid params.output_mask)
      || params.experimental_secondary_raw
      || params.secondary_userspace_jpeg
      || not params.serialize_usb_bus
      || params.aquamarine_evdi_name && not (params.output_mask == 1)
      || params.raw_idle_refresh && not (params.output_mask == 1)
    then einval
    else if params.query_timing_page1 && not params.query_timings
    then einval
    else if params.final_monitor_off && (params.query_only || not (params.output_mask == 1))
    then einval
    else if params.query_timings
        && (not params.query_only
            || not (params.output_mask == 1)
            || params.aquamarine_evdi_name
            || params.raw_idle_refresh)
    then einval
    else if used
    then enodev
    else pos 0

-- A probe that ends before there is a device.
abbrev pub refused : ℤ → Bool → List Transfer → Probed
refused ret used wire = record { ret = ret; bound = none; used = used; wire = wire }

-- The label `err_buffers`.
unfoldable pub unwind_buffers : Device → Device
unwind_buffers t6 = free_head_buffers (record (cancel_head_activity t6) { has_wq = false })

-- `t6_register_jpeg_device`
unfoldable pub register_jpeg_device : Core → Head → ℤ
register_jpeg_device core h =
    if not h.sink.connected || not (h.output_idx == 1) || not (is_user_jpeg h.transport)
    then pos 0
    else core.misc_register

module _ (params : Params) (bus : Bus) where
  -- The query of the memory's size.
  unfoldable pub query_ram : Device → Device × ℤ
  query_ram t6 =
      let (t, ret, bytes) =
        ctrl_in params bus (record { req = 0x88; val = 0; idx = 0; size = 4 }) (replicate 4 0) t6 in
      let sized = record t { ram_mb = read_le32 bytes } in
      if ltb_ℤ ret (pos 4)
      then (t, eio)
      else if not (sized.ram_mb == 58)
      then (sized, enodev)
      else (sized, pos 0)

  -- A round of the loop over the heads, unless an error came before.
  unfoldable pub probe_fresh_head : ℕ → Device × ℤ → Device × ℤ
  probe_fresh_head idx (t6, before) =
      if is_negative before
      then (t6, before)
      else probe_head params bus idx (set_head t6 idx (head_defaults params t6.ram_mb idx))

  -- Everything before the run divides into a query and an active one.
  unfoldable pub query_sinks : Device → Device × ℤ
  unfolding probe_fresh_head
  query_sinks t6 = probe_fresh_head 1 (probe_fresh_head 0 (query_ram t6))

  -- The end of a run that only queries.
  unfoldable pub finish_query : Device → Device × ℤ
  finish_query t6 = if params.query_timings then query_head0_timings params bus t6 else (t6, pos 0)

module _ (core : Core) where
  -- The display objects and the registrations, behind the initialisation of the chip.
  unfoldable pub register_device : Device → Device × ℤ
  unfolding register_jpeg_device
  register_device t6 =
      if not (is_zero core.objects)
      then (unwind_buffers t6, core.objects)
      else if not (is_zero (register_jpeg_device core t6.head0))
      then (unwind_buffers t6, core.misc_register)
      else if not (is_zero (register_jpeg_device core t6.head1))
      then (unwind_buffers t6, core.misc_register)
      else if not (is_zero core.dev_register)
      then (unwind_buffers t6, core.dev_register)
      else (t6, pos 0)

module _ (params : Params) (bus : Bus) (core : Core) where
  -- The initialisation of the chip, for a device with its buffers, and the registrations; `none` is a failed allocation.
  unfoldable pub initialize_device : Device → Option Device → Device × ℤ
  unfolding register_device unwind_buffers
  initialize_device t6 none = (unwind_buffers t6, enomem)
  initialize_device t6 (some t) =
      let (c, ret) = chip_init params bus t in
      if is_negative ret then (unwind_buffers c, ret) else register_device core c

  -- The run from the work queue on.
  unfoldable pub start_device : Device → Device × ℤ
  unfolding initialize_device
  start_device t6 =
      let started = record t6 { tx_next_head = 0; has_wq = core.workqueue } in
      if not core.workqueue
      then (unwind_buffers started, enomem)
      else initialize_device started (alloc_head_buffers core.chunk core.room0 core.room1 started)

  -- The run behind the allocation of the device; `bound` is there if the interface keeps its device.
  unfoldable pub active_probe : Device → Probed
  active_probe t6 =
      let (t, ret) = query_sinks params bus t6 in
      let (q, queried) = finish_query params bus t in
      let (s, started) = start_device t in
      if is_negative ret
      then record { ret = ret; bound = none; used = true; wire = t.wire }
      else if params.query_only
      then record { ret = queried; bound = none; used = true; wire = q.wire }
      else record {
        ret = started;
        bound = if is_zero started then some s else none;
        used = true;
        wire = s.wire;
      }

  -- `t6_usb_probe`
  unfoldable pub usb_probe : Interface → Bool → List Transfer → Probed
  usb_probe intf used wire =
      if not (match_interface intf) || not (path_matches params intf)
      then refused enodev used wire
      else if params.manual_only
      then refused (pos 0) used wire
      else if not (is_zero (active_options params used))
      then refused (active_options params used) used wire
      else if not (is_zero core.dev_alloc)
      then refused core.dev_alloc true wire
      else active_probe (fresh_device params wire)
