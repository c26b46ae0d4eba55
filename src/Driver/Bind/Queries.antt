-- ===== src/Driver/Bind/Queries.antt =====
-- kernel/trigger6_drv.c: the transfers of a probe that only queries.
use mathlib.Core.Path.{subst}
use jcd543_mct_t6_linux_driv.Prelude.{
  ℕ, ◌≡◌, inl, inr, refl, Bool, true, false, none, List, [], ◌∷◌, ◌++◌, arith, get_or, ◌==◌, ◌∙◌,
  sym, replicate, if◌then◌else◌, ◌*◌,
}
use jcd543_mct_t6_linux_driv.Prelude.Int.{ℤ}
use jcd543_mct_t6_linux_driv.Policy.Query.{query_in_allowed, res_entry_size}
use jcd543_mct_t6_linux_driv.Driver.Device.{
  Device, Head, Params, Setup, Transfer, control_in, get_head, set_head,
}
use jcd543_mct_t6_linux_driv.Driver.Usb.{Bus, ctrl_in, check_size, latch_io_error}
use jcd543_mct_t6_linux_driv.Driver.Usb.Latch.{ctrl_in_allowed}
use jcd543_mct_t6_linux_driv.Driver.Probe.{set_sink, accept_edid, read_edid, probe_head}
use jcd543_mct_t6_linux_driv.Driver.Timing.{
  read_timings, query_head0_timings, wanted_entries, first_entry, read_le32,
}
use jcd543_mct_t6_linux_driv.Prelude.Words.{u16}
use jcd543_mct_t6_linux_driv.Driver.Chip.{head_defaults}
use jcd543_mct_t6_linux_driv.Driver.Unbind.{Interface}
use jcd543_mct_t6_linux_driv.Driver.Bind.{
  Core, query_ram, probe_fresh_head, query_sinks, finish_query, active_probe, usb_probe,
  fresh_device,
}

set_head_wire : (t : Device) (idx : ℕ) (h : Head) → (set_head t idx h).wire ≡ t.wire
set_head_wire t idx h = ground arith

set_head_mask : (t : Device) (idx : ℕ) (h : Head) → (set_head t idx h).output_mask ≡ t.output_mask
set_head_mask t idx h = ground arith

module _ (params : Params) where
  -- The allow-list of the run admits the request.
  abbrev pub IsAllowed : Setup → Type 0
  IsAllowed s =
      query_in_allowed params.output_mask params.query_timings params.query_timing_page1 s.req s.val
        s.idx s.size
      ≡ true

  -- The second list of transfers is the first one and requests in that the allow-list admits.
  pub data Reads : List Transfer → List Transfer → Type 0 where
    no_read : (w : List Transfer) → Reads w w
    then_read :
        (w v : List Transfer) (s : Setup)
        → Reads w v
        → IsAllowed s
        → Reads w (v ++ control_in s ∷ [])

  -- A device of this run, and reads since `w`.
  record IsReading (w : List Transfer) (t : Device) : Type 0 where
    same_mask : t.output_mask ≡ params.output_mask
    reads : Reads w t.wire

  -- A device with the wire and the mask of one that is reading.
  keep-IsReading :
      (w : List Transfer) (t u : Device)
      → u.wire ≡ t.wire
      → u.output_mask ≡ t.output_mask
      → IsReading w t
      → IsReading w u
  keep-IsReading w t u e m r = record {
    same_mask = m ∙ r.same_mask;
    reads = subst (λ (v : List Transfer). Reads w v) (sym e) r.reads;
  }

  module _ (bus : Bus) (query : params.query_only ≡ true) where
    ctrl_in_mask :
        (s : Setup) (old : List ℕ) (t : Device)
        → (ctrl_in params bus s old t).0.output_mask ≡ t.output_mask
    unfolding ctrl_in check_size latch_io_error
    ctrl_in_mask s old t = ground arith

    ctrl_in-IsReading :
        (w : List Transfer) (s : Setup) (old : List ℕ) (t : Device)
        → IsReading w t
        → IsReading w (ctrl_in params bus s old t).0
    ctrl_in-IsReading w s old t r =
        let u = (ctrl_in params bus s old t).0 in
        elim (ctrl_in_allowed params bus t s old) [
          | inl e ↦ keep-IsReading w t u e (ctrl_in_mask s old t) r
          | inr (e, a, b, inl c) ↦ absurd (cc (query, c))
          | inr (e, a, b, inr c) ↦ record {
            same_mask = ctrl_in_mask s old t ∙ r.same_mask;
            reads =
                subst (λ (v : List Transfer). Reads w v) (sym e)
                  (then_read w t.wire s r.reads (
                    subst
                      (λ (m : ℕ).
                        query_in_allowed m params.query_timings params.query_timing_page1 s.req
                          s.val s.idx s.size
                        ≡ true)
                      r.same_mask c));
          }
        ]

    query_ram-IsReading :
        (w : List Transfer) (t : Device) → IsReading w t → IsReading w (query_ram params bus t).0
    unfolding query_ram
    query_ram-IsReading w t r = ground (
      arith,
      ctrl_in-IsReading w (record { req = 0x88; val = 0; idx = 0; size = 4 }) (replicate 4 0) t r,
    )

    set_head-IsReading :
        (w : List Transfer) (idx : ℕ) (h : Head) (t : Device)
        → IsReading w t
        → IsReading w (set_head t idx h)
    set_head-IsReading w idx h t r =
        keep-IsReading w t (set_head t idx h) (set_head_wire t idx h) (set_head_mask t idx h) r

    accept_edid-IsReading :
        (w : List Transfer) (idx : ℕ) (edid : List ℕ) (ret : ℤ) (t : Device)
        → IsReading w t
        → IsReading w (accept_edid idx edid ret t).0
    unfolding accept_edid
    accept_edid-IsReading w idx edid ret t r =
        ground (arith, λ (h : Head). set_head-IsReading w idx h t r)

    if-IsReading :
        (w : List Transfer) (b : Bool) (p q : Device × ℤ)
        → IsReading w p.0
        → IsReading w q.0
        → IsReading w (if b then p else q).0
    if-IsReading w true p q r v = r
    if-IsReading w false p q r v = v

    read_edid-IsReading :
        (w : List Transfer) (idx : ℕ) (t : Device)
        → IsReading w t
        → IsReading w (read_edid params bus idx t).0
    unfolding read_edid
    read_edid-IsReading w idx t r =
        let h = get_head t idx in
        let cleared = set_sink t idx (record (h.sink) { edid_len = 0 }) in
        let s : Setup = record { req = 0x80; val = 0; idx = h.output_idx; size = 128 } in
        let got = ctrl_in params bus s h.sink.edid_data cleared in
        accept_edid-IsReading w idx got.2 got.1 got.0
          (ctrl_in-IsReading w s h.sink.edid_data cleared (set_head-IsReading w idx _ t r))

    probe_head-IsReading :
        (w : List Transfer) (idx : ℕ) (t : Device)
        → IsReading w t
        → IsReading w (probe_head params bus idx t).0
    unfolding probe_head
    probe_head-IsReading w idx t r =
        let h = get_head t idx in
        let s : Setup = record { req = 0x87; val = h.output_idx; idx = 0; size = 1 } in
        let got = ctrl_in params bus s (0 ∷ []) t in
        let status = get_or got.2 0 0 in
        let sink = record ((get_head got.0 idx).sink) {
          status = status;
          connected = status == 1;
        } in
        let seen = set_sink got.0 idx sink in
        let rg = ctrl_in-IsReading w s (0 ∷ []) t r in
        let rs : IsReading w seen = set_head-IsReading w idx _ got.0 rg in
        if-IsReading w _ _ _ r
          (if-IsReading w _ _ _ rg (if-IsReading w _ _ _ rs (read_edid-IsReading w idx seen rs)))

    probe_fresh_head-IsReading :
        (w : List Transfer) (idx : ℕ) (p : Device × ℤ)
        → IsReading w p.0
        → IsReading w (probe_fresh_head params bus idx p).0
    unfolding probe_fresh_head
    probe_fresh_head-IsReading w idx (t, before) r =
        let h = head_defaults params t.ram_mb idx in
        if-IsReading w _ _ _ r
          (probe_head-IsReading w idx (set_head t idx h) (set_head-IsReading w idx h t r))

    query_sinks-IsReading :
        (w : List Transfer) (t : Device) → IsReading w t → IsReading w (query_sinks params bus t).0
    unfolding query_sinks
    query_sinks-IsReading w t r =
        let p = query_ram params bus t in
        let q = probe_fresh_head params bus 0 p in
        probe_fresh_head-IsReading w 1 q
          (probe_fresh_head-IsReading w 0 p (query_ram-IsReading w t r))

    read_timings-IsReading :
        (w : List Transfer) (count : ℕ) (t : Device)
        → IsReading w t
        → IsReading w (read_timings params bus count t).0
    unfolding read_timings
    read_timings-IsReading w count t r =
        let entries = wanted_entries params count in
        let size = u16 (entries * res_entry_size) in
        let index = u16 (first_entry params * res_entry_size) in
        let s : Setup = record { req = 0x89; val = 0; idx = index; size = size } in
        let rg = ctrl_in-IsReading w s (replicate size 0) t r in ground (arith, r, rg)

    query_timings-IsReading :
        (w : List Transfer) (t : Device)
        → IsReading w t
        → IsReading w (query_head0_timings params bus t).0
    unfolding query_head0_timings
    query_timings-IsReading w t r =
        let s : Setup = record { req = 0x84; val = 0; idx = 0; size = 4 } in
        let got = ctrl_in params bus s (replicate 4 0) t in
        let rg = ctrl_in-IsReading w s (replicate 4 0) t r in
        if-IsReading w _ _ _ r
          (if-IsReading w _ _ _ rg (read_timings-IsReading w (read_le32 got.2) got.0 rg))

    finish_query-IsReading :
        (w : List Transfer) (t : Device) → IsReading w t → IsReading w (finish_query params bus t).0
    unfolding finish_query
    finish_query-IsReading w t r = if-IsReading w _ _ _ (query_timings-IsReading w t r) r

  -- A probe of a query-only run binds no device, and each transfer that it makes is a request in
  -- that the allow-list of the run admits.
  pub usb_probe-Reads :
      (bus : Bus) (core : Core) (intf : Interface) (used : Bool) (wire : List Transfer)
      → params.query_only ≡ true
      → let p = usb_probe params bus core intf used wire in (p.bound ≡ none) × Reads wire p.wire
  unfolding usb_probe active_probe
  usb_probe-Reads bus core intf used wire query =
      let t : Device = fresh_device params wire in
      let r : IsReading wire t = record { same_mask = refl; reads = no_read wire } in
      let s = query_sinks params bus t in
      let rs = query_sinks-IsReading bus query wire t r in
      let rf = finish_query-IsReading bus query wire s.0 rs in
      ground (arith, rs.reads, rf.reads, no_read wire)
