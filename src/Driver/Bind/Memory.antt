-- ===== src/Driver/Bind/Memory.antt =====
-- kernel/trigger6_drv.c: the size of the memory, which no query after the first one changes.
use jcd543_mct_t6_linux_driv.Prelude.{
  ℕ, ◌≡◌, refl, ◌∙◌, Bool, true, false, List, [], ◌∷◌, arith, if◌then◌else◌, get_or, ◌==◌,
}
use jcd543_mct_t6_linux_driv.Prelude.Int.{ℤ, is_negative}
use jcd543_mct_t6_linux_driv.Driver.Device.{Device, Head, Sink, Params, Setup, get_head, set_head}
use jcd543_mct_t6_linux_driv.Driver.Usb.{Bus, ctrl_in, check_size, latch_io_error}
use jcd543_mct_t6_linux_driv.Driver.Probe.{set_sink, accept_edid, read_edid, probe_head}
use jcd543_mct_t6_linux_driv.Driver.Chip.{head_defaults}
use jcd543_mct_t6_linux_driv.Driver.Bind.{query_ram, probe_fresh_head, query_sinks}

set_head_ram : (t : Device) (idx : ℕ) (h : Head) → (set_head t idx h).ram_mb ≡ t.ram_mb
set_head_ram t idx h = ground arith

either_ram :
    (b : Bool) (m : ℕ) (p q : Device × ℤ)
    → p.0.ram_mb ≡ m
    → q.0.ram_mb ≡ m
    → (if b then p else q).0.ram_mb ≡ m
either_ram true m p q u v = u
either_ram false m p q u v = v

accept_edid_ram :
    (idx : ℕ) (edid : List ℕ) (ret : ℤ) (t : Device)
    → (accept_edid idx edid ret t).0.ram_mb ≡ t.ram_mb
unfolding accept_edid
accept_edid_ram idx edid ret t = ground (arith, λ (h : Head). set_head_ram t idx h)

module _ (params : Params) (bus : Bus) where
  ctrl_in_ram :
      (s : Setup) (old : List ℕ) (t : Device) → (ctrl_in params bus s old t).0.ram_mb ≡ t.ram_mb
  unfolding ctrl_in check_size latch_io_error
  ctrl_in_ram s old t = ground arith

  read_edid_ram : (idx : ℕ) (t : Device) → (read_edid params bus idx t).0.ram_mb ≡ t.ram_mb
  unfolding read_edid
  read_edid_ram idx t =
      let h = get_head t idx in
      let cleared = set_sink t idx (record (h.sink) { edid_len = 0 }) in
      let s : Setup = record { req = 0x80; val = 0; idx = h.output_idx; size = 128 } in
      let got = ctrl_in params bus s h.sink.edid_data cleared in
      accept_edid_ram idx got.2 got.1 got.0
      ∙ ctrl_in_ram s h.sink.edid_data cleared
      ∙ set_head_ram t idx (record h { sink = record (h.sink) { edid_len = 0 } })

  probe_head_ram : (idx : ℕ) (t : Device) → (probe_head params bus idx t).0.ram_mb ≡ t.ram_mb
  unfolding probe_head
  probe_head_ram idx t =
      let h = get_head t idx in
      let s : Setup = record { req = 0x87; val = h.output_idx; idx = 0; size = 1 } in
      let got = ctrl_in params bus s (0 ∷ []) t in
      let status = get_or got.2 0 0 in
      let g = get_head got.0 idx in
      let sink : Sink = record (g.sink) { status = status; connected = status == 1 } in
      let seen = set_sink got.0 idx sink in
      let rg = ctrl_in_ram s (0 ∷ []) t in
      let rs = set_head_ram got.0 idx (record g { sink = sink }) ∙ rg in
      either_ram _ t.ram_mb _ _ refl
        (either_ram _ t.ram_mb _ _ rg (either_ram _ t.ram_mb _ _ rs (read_edid_ram idx seen ∙ rs)))

  probe_fresh_head_ram :
      (idx : ℕ) (p : Device × ℤ) → ((probe_fresh_head params bus idx p).0.ram_mb ≡ p.0.ram_mb)
  unfolding probe_fresh_head
  probe_fresh_head_ram idx (t, before) =
      let h = head_defaults params t.ram_mb idx in
      either_ram _ t.ram_mb _ _ refl (probe_head_ram idx (set_head t idx h) ∙ set_head_ram t idx h)

  probe_fresh_head_before :
      (idx : ℕ) (p : Device × ℤ)
      → is_negative (probe_fresh_head params bus idx p).1 ≡ false
      → is_negative p.1 ≡ false
  unfolding probe_fresh_head
  probe_fresh_head_before idx (t, before) n = ground arith

  query_ram_58 :
      (t : Device)
      → is_negative (query_ram params bus t).1 ≡ false
      → (query_ram params bus t).0.ram_mb ≡ 58
  unfolding query_ram
  query_ram_58 t n = ground arith

  -- Queries that succeed found 58 megabytes.
  pub query_sinks_58 :
      (t : Device)
      → is_negative (query_sinks params bus t).1 ≡ false
      → (query_sinks params bus t).0.ram_mb ≡ 58
  unfolding query_sinks
  query_sinks_58 t n =
      let p = query_ram params bus t in
      let q = probe_fresh_head params bus 0 p in
      probe_fresh_head_ram 1 q
      ∙ probe_fresh_head_ram 0 p
      ∙ query_ram_58 t (probe_fresh_head_before 0 p (probe_fresh_head_before 1 q n))
