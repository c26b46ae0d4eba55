-- ===== src/Driver/Chip/Sent.antt =====
-- kernel/trigger6_drv.c: the requests of a successful `t6_chip_init`.
use mathlib.Core.List.{append_assoc, append-nil}
use jcd543_mct_t6_linux_driv.Prelude.{
  ℕ, ◌≡◌, refl, ◌∙◌, sym, ap, Bool, true, false, Option, List, [], ◌∷◌, ◌++◌, map, arith,
  if◌then◌else◌, ◌==◌,
}
use jcd543_mct_t6_linux_driv.Prelude.Int.{ℤ, is_negative}
use jcd543_mct_t6_linux_driv.Driver.Device.{
  Device, Head, Params, Setup, Transfer, control_out, get_head, set_head,
}
use jcd543_mct_t6_linux_driv.Driver.Usb.{Bus, ctrl_out, check_size, latch_io_error}
use jcd543_mct_t6_linux_driv.Driver.Jpeg.{bytes_of}
use jcd543_mct_t6_linux_driv.Driver.Requests.{
  init_timing_post, mode_1080p, Request, bare, with_blob, reset_requests, head_requests,
  final_requests,
}
use jcd543_mct_t6_linux_driv.Driver.Chip.{reset_head_stream, send_requests, init_head, chip_init}

-- The transfer of a request.
pub request_transfer : Request → Transfer
request_transfer (s, payload) = control_out s (if s.size == 0 then [] else bytes_of payload)

-- The transfers for a head, if it is connected.
unfoldable pub head_transfers : Head → List Transfer
head_transfers h =
    if h.sink.connected then map request_transfer (head_requests h.output_idx) else []

-- What the initialisation of a device with these heads sends.
unfoldable pub init_transfers : Device → List Transfer
init_transfers t6 =
    map request_transfer reset_requests
    ++ (head_transfers t6.head0 ++ (head_transfers t6.head1 ++ map request_transfer final_requests))

-- The second head has the transport and the buffers of the first.
pub record SameBuffers (h g : Head) : Type 0 where
  pub transport : g.transport ≡ h.transport
  pub frames : (g.tx.front ≡ h.tx.front) × (g.tx.back ≡ h.tx.back)
  pub staging : (g.video_staging ≡ h.video_staging) × (g.jpeg_staging ≡ h.jpeg_staging)
  pub reference : g.last_sent_frame ≡ h.last_sent_frame

SameBuffers-trans : (a b c : Head) → SameBuffers a b → SameBuffers b c → SameBuffers a c
SameBuffers-trans a b c u v = record {
  transport = v.transport ∙ u.transport;
  frames = (v.frames.0 ∙ u.frames.0, v.frames.1 ∙ u.frames.1);
  staging = (v.staging.0 ∙ u.staging.0, v.staging.1 ∙ u.staging.1);
  reference = v.reference ∙ u.reference;
}

SameBuffers-refl : (h : Head) → SameBuffers h h
SameBuffers-refl h = record {
  transport = refl;
  frames = (refl, refl);
  staging = (refl, refl);
  reference = refl;
}

-- The second device has transfers more than the first, no fault, and the same monitors on the same outputs.
pub record HasSent (sent : List Transfer) (t u : Device) : Type 0 where
  pub wire : u.wire ≡ t.wire ++ sent
  pub idle : u.io_faulted ≡ false
  pub sinks : (u.head0.sink ≡ t.head0.sink) × (u.head1.sink ≡ t.head1.sink)
  pub outputs :
      (u.head0.output_idx ≡ t.head0.output_idx) × (u.head1.output_idx ≡ t.head1.output_idx)
  pub kept : (u.ram_mb ≡ t.ram_mb) × (u.has_wq ≡ t.has_wq) × (u.has_bulk_chunk ≡ t.has_bulk_chunk)
  pub buffers : SameBuffers t.head0 u.head0 × SameBuffers t.head1 u.head1

module _ (params : Params) (bus : Bus) where
  ctrl_out-HasSent :
      (s : Setup) (payload : Option (List ℕ)) (t : Device)
      → let (u, ret) = ctrl_out params bus s payload t in
        is_negative ret ≡ false → HasSent (request_transfer (s, payload) ∷ []) t u
  unfolding ctrl_out check_size latch_io_error request_transfer
  ctrl_out-HasSent s payload t n = ground arith

  HasSent-trans :
      (xs ys : List Transfer) (a b c : Device)
      → HasSent xs a b
      → HasSent ys b c
      → HasSent (xs ++ ys) a c
  HasSent-trans xs ys a b c u v = record {
    wire = v.wire ∙ ap (λ (w : List Transfer). w ++ ys) u.wire ∙ append_assoc a.wire xs ys;
    idle = v.idle;
    sinks = (v.sinks.0 ∙ u.sinks.0, v.sinks.1 ∙ u.sinks.1);
    outputs = (v.outputs.0 ∙ u.outputs.0, v.outputs.1 ∙ u.outputs.1);
    kept = (v.kept.0 ∙ u.kept.0, v.kept.1 ∙ u.kept.1, v.kept.2 ∙ u.kept.2);
    buffers = (
      SameBuffers-trans a.head0 b.head0 c.head0 u.buffers.0 v.buffers.0,
      SameBuffers-trans a.head1 b.head1 c.head1 u.buffers.1 v.buffers.1,
    );
  }

  send_requests-HasSent :
      (r : Request) (rs : List Request) (t : Device)
      → let (u, ret) = send_requests params bus (r ∷ rs) t in
        is_negative ret ≡ false → HasSent (map request_transfer (r ∷ rs)) t u
  unfolding send_requests
  send_requests-HasSent (s, payload) [] t n = ground (arith, ctrl_out-HasSent s payload t)
  send_requests-HasSent (s, payload) (q ∷ rs) t n =
      let first = ctrl_out params bus s payload t in
      let rest = send_requests params bus (q ∷ rs) first.0 in
      let here = ctrl_out-HasSent s payload t in
      let later = send_requests-HasSent q rs first.0 in
      let trans =
        HasSent-trans (request_transfer (s, payload) ∷ []) (map request_transfer (q ∷ rs)) t first.0
          rest.0 in
      ground (arith, here, later, trans)

  nothing-HasSent : (t : Device) → t.io_faulted ≡ false → HasSent [] t t
  nothing-HasSent t f = record {
    wire = sym (append-nil t.wire);
    idle = f;
    sinks = (refl, refl);
    outputs = (refl, refl);
    kept = (refl, refl, refl);
    buffers = (SameBuffers-refl t.head0, SameBuffers-refl t.head1);
  }

  -- The streams are no part of what is compared.
  reset-HasSent :
      (xs : List Transfer) (idx : ℕ) (t u : Device)
      → HasSent xs t u
      → HasSent xs t (set_head u idx (reset_head_stream (get_head u idx)))
  unfolding reset_head_stream
  reset-HasSent xs idx t u h = ground arith

  init_head-HasSent :
      (idx : ℕ) (init : Bool) (t : Device) (before : ℤ)
      → t.io_faulted ≡ false
      → let (u, ret) = init_head params bus idx init (t, before) in
        is_negative ret ≡ false
        → (is_negative before ≡ false)
          × HasSent
              (if init
                then map request_transfer (head_requests (get_head t idx).output_idx)
                else [])
              t
              u
  unfolding init_head
  init_head-HasSent idx false t before f n = ground (arith, nothing-HasSent t f)
  init_head-HasSent idx true t before f n =
      let output = (get_head t idx).output_idx in
      let sent = send_requests params bus (head_requests output) t in
      ground (
        arith,
        send_requests-HasSent (with_blob 0x12 output 0 mode_1080p)
            (bare 0x31 output 0 ∷ bare 0x03 output 1 ∷ []) t,
        reset-HasSent (map request_transfer (head_requests output)) idx t sent.0,
      )

  init_head_before :
      (idx : ℕ) (init : Bool) (p : Device × ℤ)
      → is_negative (init_head params bus idx init p).1 ≡ false
      → is_negative p.1 ≡ false
  unfolding init_head
  init_head_before idx init (t, before) n = ground arith

  -- Neither the last request nor the loop before it failed.
  chip_init_parts :
      (t : Device)
      → is_negative (chip_init params bus t).1 ≡ false
      → let r = send_requests params bus reset_requests t in
        let b =
          init_head params bus 1 t.head1.sink.connected
            (init_head params bus 0 t.head0.sink.connected r) in
        let e = send_requests params bus final_requests b.0 in
        (chip_init params bus t ≡ e) × (is_negative b.1 ≡ false) × (is_negative e.1 ≡ false)
  unfolding chip_init
  chip_init_parts t n = ground arith

  -- A successful initialisation, with what it leaves alone.
  pub chip_init-HasSent :
      (t : Device)
      → is_negative (chip_init params bus t).1 ≡ false
      → HasSent (init_transfers t) t (chip_init params bus t).0
  unfolding init_transfers head_transfers
  chip_init-HasSent t n =
      let r = send_requests params bus reset_requests t in
      let a = init_head params bus 0 t.head0.sink.connected r in
      let b = init_head params bus 1 t.head1.sink.connected a in
      let e = send_requests params bus final_requests b.0 in
      let (same, nb, ne) = chip_init_parts t n in
      let na = init_head_before 1 t.head1.sink.connected a nb in
      let nr = init_head_before 0 t.head0.sink.connected r na in
      let hr = send_requests-HasSent (bare 0x1c 0x0000 0) _ t nr in
      let (_, ha) = init_head-HasSent 0 t.head0.sink.connected r.0 r.1 hr.idle na in
      let (_, hb) = init_head-HasSent 1 t.head1.sink.connected a.0 a.1 ha.idle nb in
      let he = send_requests-HasSent (with_blob 0x24 0 0 init_timing_post) _ b.0 ne in
      let all =
        HasSent-trans _ _ t r.0 e.0 hr
          (HasSent-trans _ _ r.0 a.0 e.0 ha (HasSent-trans _ _ a.0 b.0 e.0 hb he)) in
      rw same (record {
        wire = all.wire ∙ rw (ha.outputs.1, hr.outputs.1, hr.outputs.0) refl;
        idle = all.idle;
        sinks = all.sinks;
        outputs = all.outputs;
        kept = all.kept;
        buffers = all.buffers;
      })

  -- A successful initialisation of the chip has sent exactly its sequence: the reset requests, for each connected
  -- head the mode, the enabling and the monitor-on request of its output, head 0 first, and the final requests, with their
  -- payloads; and it leaves no error latched.
  pub chip_init_sends :
      (t : Device)
      → is_negative (chip_init params bus t).1 ≡ false
      → ((chip_init params bus t).0.wire ≡ t.wire ++ init_transfers t)
        × ((chip_init params bus t).0.io_faulted ≡ false)
  chip_init_sends t n = let h = chip_init-HasSent t n in (h.wire, h.idle)
