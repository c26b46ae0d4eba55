-- ===== src/Driver/Raw/Stopped.antt =====
-- kernel/trigger6_drv.c: a raw sender that may not send leaves the wire and the reference frame alone.
use mathlib.Core.Path.{subst}
use jcd543_mct_t6_linux_driv.Prelude.{
  ℕ, ◌+◌, ◌*◌, ◌≡◌, ◌⊎◌, inl, refl, ◌∙◌, Bool, true, false, Option, none, List, [], ◌∷◌, ◌++◌,
  length, take, drop, arith, if◌then◌else◌, ◌==◌, sym, not, ltb, ◌&&◌,
}
use jcd543_mct_t6_linux_driv.Prelude.Int.{ℤ, pos, is_negative, is_zero}
use jcd543_mct_t6_linux_driv.Prelude.Errno.{enodev, einval}
use jcd543_mct_t6_linux_driv.Driver.Device.{Device, Head, HeadMetrics, Params, get_head, set_head}
use jcd543_mct_t6_linux_driv.Prelude.Words.{u32}
use jcd543_mct_t6_linux_driv.Driver.Addressing.{flip_header_size, next_slot, slot_addr}
use jcd543_mct_t6_linux_driv.Driver.Queue.{Clock}
use jcd543_mct_t6_linux_driv.Driver.Usb.{Bus}
use jcd543_mct_t6_linux_driv.Driver.Usb.Latch.{IsStopped, stopped_output}
use jcd543_mct_t6_linux_driv.Driver.Packet.{bulk_header_bytes, flip_header_bytes}
use jcd543_mct_t6_linux_driv.Driver.Damage.{DirtyRange, FrameDamage}
use jcd543_mct_t6_linux_driv.Driver.Raw.{
  send_block, send_ranges, send_partial, send_secondary, send_frame_raw, fail_raw, stage_raw,
  advance_sent, conclude_raw, raw_partial, raw_full, raw_secondary, raw_frame_size, raw_stride,
  raw_flip, ranges_of, is_partial,
}

module _ (params : Params) (bus : Bus) where
  -- A sender that changes nothing and fails.
  abbrev Refused : Device → Device × ℤ → Type 0
  Refused t6 r = (r.0 ≡ t6) × (is_negative r.1 ≡ true)

  send_block-Refused :
      (address : ℕ) (bytes : List ℕ) (t6 : Device)
      → IsStopped params t6
      → Refused t6 (send_block params bus address bytes t6)
  unfolding send_block
  send_block-Refused address bytes t6 s =
      let header = bulk_header_bytes (record {
        payload_length = length bytes;
        payload_address = address;
        packet_length = length bytes;
      }) in
      ground (
        arith,
        (stopped_output params bus t6 (record { req = 0; val = 0; idx = 0; size = 0 }) none header
            s).1,
      )

  send_ranges_stopped :
      (fb stride : ℕ) (src : List ℕ) (rs : List DirtyRange) (t6 : Device)
      → IsStopped params t6
      → let r = send_ranges params bus fb stride src rs t6 in
        (r.0 ≡ t6) × ((r.1 ≡ pos 0) ⊎ (is_negative r.1 ≡ true))
  unfolding send_ranges
  send_ranges_stopped fb stride src [] t6 s = (refl, inl refl)
  send_ranges_stopped fb stride src (r ∷ rs) t6 s =
      let offset = u32 (r.y_start * stride) in
      let bytes = take (u32 (r.y_count * stride)) (drop offset src) in
      ground (arith, send_block-Refused (u32 (fb + flip_header_size + offset)) bytes t6 s)

  send_partial-Refused :
      (h : Head) (src : List ℕ) (rs : List DirtyRange) (t6 : Device)
      → IsStopped params t6
      → Refused t6 (send_partial params bus h src rs t6)
  unfolding send_partial
  send_partial-Refused h src rs t6 s =
      let r = send_ranges params bus h.stream.fb_addr (raw_stride h) src rs t6 in
      let (same, outcome) = send_ranges_stopped h.stream.fb_addr (raw_stride h) src rs t6 s in
      ground (
        arith,
        send_block-Refused h.stream.fb_addr (flip_header_bytes (raw_flip h)) r.0
            (subst (λ (t : Device). IsStopped params t) (sym same) s),
      )

  send_secondary-Refused :
      (h : Head) (src : List ℕ) (t6 : Device)
      → IsStopped params t6
      → Refused t6 (send_secondary params bus h src t6)
  unfolding send_secondary
  send_secondary-Refused h src t6 s = ground (
    arith,
    send_block-Refused (slot_addr h.stream (next_slot h.stream)) (take (raw_frame_size h) src) t6 s,
  )

  -- The second device has the wire of the first, and the reference frame of its head.
  pub record Untouched (idx : ℕ) (t6 t : Device) : Type 0 where
    pub same_wire : t.wire ≡ t6.wire
    pub same_frame : (get_head t idx).last_sent_frame ≡ (get_head t6 idx).last_sent_frame
    pub same_valid : (get_head t idx).last_sent_valid ≡ (get_head t6 idx).last_sent_valid

  Untouched-refl : (idx : ℕ) (t6 : Device) → Untouched idx t6 t6
  Untouched-refl idx t6 = record { same_wire = refl; same_frame = refl; same_valid = refl }

  -- Either branch of a test.
  if-Untouched :
      (idx : ℕ) (t6 : Device) (b : Bool) (r q : Device × ℤ)
      → Untouched idx t6 r.0
      → Untouched idx t6 q.0
      → Untouched idx t6 (if b then r else q).0
  if-Untouched idx t6 true r q u v = u
  if-Untouched idx t6 false r q u v = v

  skip-Untouched :
      (idx : ℕ) (t6 : Device) (m : HeadMetrics)
      → Untouched idx t6 (set_head t6 idx (record (get_head t6 idx) { metrics = m }))
  skip-Untouched idx t6 m = ground arith

  fail_raw-Untouched :
      (idx : ℕ) (ret : ℤ) (t6 : Device) → Untouched idx t6 (fail_raw params bus idx ret t6)
  unfolding fail_raw
  fail_raw-Untouched idx ret t6 = ground arith

  stage-Untouched :
      (idx offset : ℕ) (bytes : List ℕ) (t6 : Device)
      → IsStopped params t6
      → let t = set_head t6 idx (stage_raw params bus (get_head t6 idx) offset bytes) in
        Untouched idx t6 t × IsStopped params t
  unfolding stage_raw
  stage-Untouched idx offset bytes t6 s = ground arith

  advance-Refused :
      (idx : ℕ) (t6 : Device) (r : Device × ℤ)
      → Refused t6 r
      → Refused t6 (advance_sent params bus idx r)
  unfolding advance_sent
  advance-Refused idx t6 (t, ret) h = ground arith

  Untouched-trans :
      (idx : ℕ) (a b c : Device) → Untouched idx a b → Untouched idx b c → Untouched idx a c
  Untouched-trans idx a b c u v = record {
    same_wire = v.same_wire ∙ u.same_wire;
    same_frame = v.same_frame ∙ u.same_frame;
    same_valid = v.same_valid ∙ u.same_valid;
  }

  negative_nonzero : (r : ℤ) → is_negative r ≡ true → is_zero r ≡ false
  negative_nonzero r h = ground arith

  conclude-Untouched :
      (clock : Clock) (idx : ℕ) (pixels : List ℕ) (dmg : Option FrameDamage) (is_reference : Bool)
      (t6 t1 : Device) (r : Device × ℤ)
      → Untouched idx t6 t1
      → Refused t1 r
      → Untouched idx t6 (conclude_raw params bus clock idx pixels dmg is_reference r).0
  unfolding conclude_raw
  conclude-Untouched clock idx pixels dmg is_reference t6 t1 (t, ret) u (same, negative) =
      rw (negative_nonzero ret negative) (
        Untouched-trans idx t6 t (fail_raw params bus idx ret t)
          (subst (λ (x : Device). Untouched idx t6 x) (sym same) u) (fail_raw-Untouched idx ret t))

  raw_partial-Untouched :
      (clock : Clock) (idx : ℕ) (pixels : List ℕ) (dmg : Option FrameDamage) (is_reference : Bool)
      (t6 : Device)
      → IsStopped params t6
      → Untouched idx t6 (raw_partial params bus clock idx pixels dmg is_reference t6).0
  unfolding raw_partial
  raw_partial-Untouched clock idx pixels dmg is_reference t6 s =
      let h = get_head t6 idx in
      conclude-Untouched clock idx pixels dmg is_reference t6 t6
        (send_partial params bus h pixels (ranges_of dmg) t6) (Untouched-refl idx t6)
        (send_partial-Refused h pixels (ranges_of dmg) t6 s)

  raw_full-Untouched :
      (clock : Clock) (idx : ℕ) (pixels : List ℕ) (dmg : Option FrameDamage) (is_reference : Bool)
      (t6 : Device)
      → IsStopped params t6
      → Untouched idx t6 (raw_full params bus clock idx pixels dmg is_reference t6).0
  unfolding raw_full
  raw_full-Untouched clock idx pixels dmg is_reference t6 s =
      let h = get_head t6 idx in
      let block = flip_header_bytes (raw_flip h) ++ take (raw_frame_size h) pixels in
      let staged = set_head t6 idx (stage_raw params bus h 0 block) in
      let (same, stopped) = stage-Untouched idx 0 block t6 s in
      let sent =
        conclude-Untouched clock idx pixels dmg is_reference t6 staged
          (send_block params bus h.stream.fb_addr block staged) same
          (send_block-Refused h.stream.fb_addr block staged stopped) in
      if-Untouched idx t6 _ _ _ (Untouched-refl idx t6) sent

  raw_secondary-Untouched :
      (clock : Clock) (idx : ℕ) (pixels : List ℕ) (dmg : Option FrameDamage) (is_reference : Bool)
      (t6 : Device)
      → IsStopped params t6
      → Untouched idx t6 (raw_secondary params bus clock idx pixels dmg is_reference t6).0
  unfolding raw_secondary
  raw_secondary-Untouched clock idx pixels dmg is_reference t6 s =
      let h = get_head t6 idx in
      let frame = take (raw_frame_size h) pixels in
      let staged = set_head t6 idx (stage_raw params bus h flip_header_size frame) in
      let (same, stopped) = stage-Untouched idx flip_header_size frame t6 s in
      let sent =
        conclude-Untouched clock idx pixels dmg is_reference t6 staged
          (advance_sent params bus idx (send_secondary params bus h pixels staged)) same
          (advance-Refused idx staged (send_secondary params bus h pixels staged)
            (send_secondary-Refused h pixels staged stopped)) in
      if-Untouched idx t6 _ _ _ (Untouched-refl idx t6) sent

  record Kept (idx : ℕ) (t6 : Device) (r : Device × ℤ) : Type 0 where
    kept : Untouched idx t6 r.0

  if-Kept :
      (idx : ℕ) (t6 : Device) (b : Bool) (r q : Device × ℤ)
      → Kept idx t6 r
      → Kept idx t6 q
      → Kept idx t6 (if b then r else q)
  if-Kept idx t6 true r q u v = u
  if-Kept idx t6 false r q u v = v

  send_frame_raw-Kept :
      (clock : Clock) (idx : ℕ) (pixels : List ℕ) (pixel_len : ℕ) (dmg : Option FrameDamage)
      (is_reference : Bool) (t6 : Device)
      → IsStopped params t6
      → Kept idx t6 (send_frame_raw params bus clock idx pixels pixel_len dmg is_reference t6)
  unfolding send_frame_raw
  send_frame_raw-Kept clock idx pixels pixel_len dmg is_reference t6 s =
      let h = get_head t6 idx in
      let m = h.metrics in
      let same = Untouched-refl idx t6 in
      let skipped = record m { skipped_frames = m.skipped_frames + 1 } in
      let partial = raw_partial params bus clock idx pixels dmg is_reference t6 in
      let full = raw_full params bus clock idx pixels dmg is_reference t6 in
      let secondary = raw_secondary params bus clock idx pixels dmg is_reference t6 in
      let primary = if h.output_idx == 0 then full else secondary in
      let sent = if h.output_idx == 0 && is_partial dmg then partial else primary in
      let skip : Device × ℤ = (set_head t6 idx (record h { metrics = skipped }), pos 0) in
      let work = if is_partial dmg && length (ranges_of dmg) == 0 then skip else sent in
      let sized : Device × ℤ = if ltb pixel_len (raw_frame_size h) then (t6, einval) else work in
      if-Kept idx t6 (not h.sink.connected) (t6, enodev) sized (record { kept = same })
        (if-Kept idx t6 (ltb pixel_len (raw_frame_size h)) (t6, einval) work
          (record { kept = same })
          (if-Kept idx t6 (is_partial dmg && length (ranges_of dmg) == 0) skip sent
            (record { kept = skip-Untouched idx t6 skipped })
            (if-Kept idx t6 (h.output_idx == 0 && is_partial dmg) partial primary
              (record { kept = raw_partial-Untouched clock idx pixels dmg is_reference t6 s })
              (if-Kept idx t6 (h.output_idx == 0) full secondary
                (record { kept = raw_full-Untouched clock idx pixels dmg is_reference t6 s })
                (record {
                  kept = raw_secondary-Untouched clock idx pixels dmg is_reference t6 s;
                })))))

  -- In a run that only queries or only matches descriptors, or with an I/O error latched, sending a frame makes
  -- no transfer and leaves the reference frame of the head and its validity as they are.
  pub send_frame_raw-Untouched :
      (clock : Clock) (idx : ℕ) (pixels : List ℕ) (pixel_len : ℕ) (dmg : Option FrameDamage)
      (is_reference : Bool) (t6 : Device)
      → IsStopped params t6
      → Untouched idx t6
          (send_frame_raw params bus clock idx pixels pixel_len dmg is_reference t6).0
  send_frame_raw-Untouched clock idx pixels pixel_len dmg is_reference t6 s =
      (send_frame_raw-Kept clock idx pixels pixel_len dmg is_reference t6 s).kept
