-- ===== src/Driver/Fault.antt =====
-- kernel/trigger6_drv.c: `t6_trip_transport_fault`, and what suspend and cancellation do to the heads.
use jcd543_mct_t6_linux_driv.Prelude.{ℕ, ◌+◌, true, false, if◌then◌else◌, none, some}
use jcd543_mct_t6_linux_driv.Prelude.Int.{ℤ}
use jcd543_mct_t6_linux_driv.Prelude.Errno.{ehostdown}
use jcd543_mct_t6_linux_driv.Driver.Device.{
  Device, Head, Source, get_head, set_head, head_set_error,
}

-- `if (!drm_dev_is_unplugged(...)) drm_kms_helper_hotplug_event(...)`
unfoldable pub hotplug_event : Device → Device
hotplug_event t6 = if t6.unplugged then t6 else record t6 { hotplug_events = t6.hotplug_events + 1 }

-- The part under the lock, for a head that was not faulted.
unfoldable pub fault_head : ℤ → Source → Head → Head
fault_head ret source h =
    let m = record (h.metrics) { transport_faults = h.metrics.transport_faults + 1 } in
    record h {
      io_faulted = true;
      io_last_error = ret;
      metrics = head_set_error ret (some source) m;
      tx = record (h.tx) { pending = false; len = 0; queued_ns = 0 };
    }

-- `t6_trip_transport_fault`
unfoldable pub trip_transport_fault : ℕ → ℤ → Source → Device → Device
unfolding fault_head hotplug_event
trip_transport_fault idx ret source t6 =
    let h = get_head t6 idx in
    if h.io_faulted
    then t6
    else (let t = set_head t6 idx (fault_head ret source h) in
        hotplug_event (record t { io_last_error = ret; io_faulted = true }))

-- The body of the loop of `t6_cancel_head_activity`.
unfoldable pub cancel_head : Head → Head
cancel_head h = record h {
  scanout_active = false;
  keepalive_timer = none;
  boot_keepalive_work = none;
  tx_defer_work = none;
  tx_work_queued = false;
  tx = record (h.tx) { keepalive_due = false };
}

-- `t6_cancel_head_activity`
unfoldable pub cancel_head_activity : Device → Device
unfolding cancel_head
cancel_head_activity t6 = record t6 { head0 = cancel_head t6.head0; head1 = cancel_head t6.head1 }

-- `t6_usb_suspend`, for an interface whose device is `t6`.
unfoldable pub usb_suspend : Device → Device
unfolding cancel_head_activity
usb_suspend t6 = cancel_head_activity (record t6 { io_faulted = true; io_last_error = ehostdown })

-- `t6_usb_resume`
unfoldable pub usb_resume : Device → Device
unfolding hotplug_event
usb_resume t6 = hotplug_event (record t6 { io_faulted = true; io_last_error = ehostdown })
