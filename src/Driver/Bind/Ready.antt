-- ===== src/Driver/Bind/Ready.antt =====
-- kernel/trigger6_drv.c: what a probe that binds a device has made sure of.
use mathlib.Core.Path.{subst}
use jcd543_mct_t6_linux_driv.Prelude.{
  ◌≡◌, refl, ◌∙◌, ap, sym, Bool, true, false, Option, none, some, List, arith, ◌++◌,
}
use jcd543_mct_t6_linux_driv.Prelude.Int.{ℤ, is_zero, is_negative}
use jcd543_mct_t6_linux_driv.Driver.Device.{Device, Params, Transfer}
use jcd543_mct_t6_linux_driv.Driver.Usb.{Bus}
use jcd543_mct_t6_linux_driv.Driver.Chip.{alloc_head_buffers, chip_init}
use jcd543_mct_t6_linux_driv.Driver.Chip.Sent.{init_transfers, chip_init-HasSent}
use jcd543_mct_t6_linux_driv.Driver.Unbind.{Interface}
use jcd543_mct_t6_linux_driv.Driver.Bind.{
  Core, Probed, query_sinks, register_device, register_jpeg_device, initialize_device, start_device,
  active_probe, usb_probe, fresh_device,
}
use jcd543_mct_t6_linux_driv.Driver.Bind.Memory.{query_sinks_58}
use jcd543_mct_t6_linux_driv.Driver.Bind.Buffers.{
  IsAllocated, IsEquipped, with_buffers-IsAllocated, alloc-IsEquipped, keep-IsAllocated,
  init_transfers_equipped,
}

-- A device that was started from another one: it has no fault, its work queue and its buffers, and what was sent since
-- is the initialisation of the chip.
pub record IsStarted (t u : Device) : Type 0 where
  pub wire : u.wire ≡ t.wire ++ init_transfers t
  pub healthy : u.io_faulted ≡ false
  pub memory : u.ram_mb ≡ t.ram_mb
  pub queue : (u.has_wq ≡ true) × (u.has_bulk_chunk ≡ true)
  pub head0 : IsAllocated u.head0
  pub head1 : IsAllocated u.head1

module _ (params : Params) (bus : Bus) (core : Core) where
  register_device_kept :
      (t : Device) → is_zero (register_device core t).1 ≡ true → (register_device core t).0 ≡ t
  unfolding register_device register_jpeg_device
  register_device_kept t z = ground arith

  chip_init-IsStarted :
      (t a : Device)
      → t.has_wq ≡ true
      → IsEquipped t a
      → is_negative (chip_init params bus a).1 ≡ false
      → IsStarted t (chip_init params bus a).0
  chip_init-IsStarted t a w q n =
      let c = (chip_init params bus a).0 in
      let h = chip_init-HasSent params bus a n in
      let full0 : IsAllocated a.head0 = rw q.heads.0 (with_buffers-IsAllocated t.head0) in
      let full1 : IsAllocated a.head1 = rw q.heads.1 (with_buffers-IsAllocated t.head1) in
      record {
        wire = h.wire ∙ rw (init_transfers_equipped t a q, q.wire) refl;
        healthy = h.idle;
        memory = h.kept.0 ∙ q.kept.0;
        queue = (h.kept.1 ∙ q.kept.1 ∙ w, h.kept.2 ∙ q.kept.2);
        head0 = keep-IsAllocated a.head0 c.head0 h.buffers.0 full0;
        head1 = keep-IsAllocated a.head1 c.head1 h.buffers.1 full1;
      }

  initialize_parts :
      (t a : Device)
      → is_zero (initialize_device params bus core t (some a)).1 ≡ true
      → let c = chip_init params bus a in
        (is_negative c.1 ≡ false)
        × (initialize_device params bus core t (some a) ≡ register_device core c.0)
  unfolding initialize_device
  initialize_parts t a z = ground arith

  initialize_none :
      (t : Device) → is_zero (initialize_device params bus core t none).1 ≡ true → false ≡ true
  unfolding initialize_device
  initialize_none t z = ground arith

  -- The part of the start behind the allocation.
  initialize-IsStarted :
      (t : Device) (o : Option Device)
      → t.has_wq ≡ true
      → ((a : Device) → o ≡ some a → IsEquipped t a)
      → is_zero (initialize_device params bus core t o).1 ≡ true
      → IsStarted t (initialize_device params bus core t o).0
  initialize-IsStarted t none w q z = absurd (cc (initialize_none t z))
  initialize-IsStarted t (some a) w q z =
      let c = (chip_init params bus a).0 in
      let (n, same) = initialize_parts t a z in
      let kept : (register_device core c).0 ≡ c =
        register_device_kept c (ap (λ (r : Device × ℤ). is_zero r.1) (sym same) ∙ z) in
      subst (λ (u : Device). IsStarted t u) (sym (ap (λ (r : Device × ℤ). r.0) same ∙ kept))
        (chip_init-IsStarted t a w (q a refl) n)

  start_parts :
      (t : Device)
      → is_zero (start_device params bus core t).1 ≡ true
      → let s = record t { tx_next_head = 0; has_wq = core.workqueue } in
        (core.workqueue ≡ true)
        × (start_device params bus core t
            ≡ initialize_device params bus core s
                (alloc_head_buffers core.chunk core.room0 core.room1 s))
  unfolding start_device
  start_parts t z = ground arith

  start_device-IsStarted :
      (t : Device)
      → is_zero (start_device params bus core t).1 ≡ true
      → IsStarted t (start_device params bus core t).0
  unfolding init_transfers
  start_device-IsStarted t z =
      let s = record t { tx_next_head = 0; has_wq = core.workqueue } in
      let o = alloc_head_buffers core.chunk core.room0 core.room1 s in
      let (w, same) = start_parts t z in
      let r =
        initialize-IsStarted s o w (alloc-IsEquipped core.chunk core.room0 core.room1 s)
          (ap (λ (x : Device × ℤ). is_zero x.1) (sym same) ∙ z) in
      rw same (record {
        wire = r.wire;
        healthy = r.healthy;
        memory = r.memory;
        queue = r.queue;
        head0 = r.head0;
        head1 = r.head1;
      })

  probe_runs :
      (intf : Interface) (used : Bool) (wire : List Transfer) (u : Device)
      → (usb_probe params bus core intf used wire).bound ≡ some u
      → usb_probe params bus core intf used wire
        ≡ active_probe params bus core (fresh_device params wire)
  unfolding usb_probe
  probe_runs intf used wire u e = ground (arith, e)

  active_parts :
      (t u : Device)
      → let p = active_probe params bus core t in
        let q = query_sinks params bus t in
        p.bound ≡ some u
        → (is_negative q.1 ≡ false)
          × (is_zero (start_device params bus core q.0).1 ≡ true)
          × (u ≡ (start_device params bus core q.0).0)
          × (is_zero p.ret ≡ true)
          × (p.wire ≡ u.wire)
  unfolding active_probe
  active_parts t u e = ground (arith, e)

  -- A probe that binds a device returned zero. The adapter has 58 megabytes of memory; since the queries of memory
  -- and monitors exactly the initialisation of the chip was sent, no error is latched, the work queue is there,
  -- and both heads have the buffers that their transports want.
  pub usb_probe-IsStarted :
      (intf : Interface) (used : Bool) (wire : List Transfer) (u : Device)
      → (usb_probe params bus core intf used wire).bound ≡ some u
      → let q = (query_sinks params bus (fresh_device params wire)).0 in
        (is_zero (usb_probe params bus core intf used wire).ret ≡ true)
        × ((usb_probe params bus core intf used wire).wire ≡ u.wire)
        × (u.ram_mb ≡ 58)
        × IsStarted q u
  usb_probe-IsStarted intf used wire u e =
      let q = query_sinks params bus (fresh_device params wire) in
      let runs = probe_runs intf used wire u e in
      let (n, z, same, ret, sent) =
        active_parts (fresh_device params wire) u (ap (λ (p : Probed). p.bound) (sym runs) ∙ e) in
      let r : IsStarted q.0 u =
        subst (λ (x : Device). IsStarted q.0 x) (sym same) (start_device-IsStarted q.0 z) in
      (
        ap (λ (p : Probed). is_zero p.ret) runs ∙ ret,
        ap (λ (p : Probed). p.wire) runs ∙ sent,
        r.memory ∙ query_sinks_58 params bus (fresh_device params wire) n,
        r,
      )
