-- ===== src/Driver/Raw/Reference.antt =====
-- kernel/trigger6_drv.c: the reference frame of a head is what the adapter was sent.
use jcd543_mct_t6_linux_driv.Prelude.{
  ℕ, ◌≡◌, refl, ap, ◌∙◌, Bool, true, false, not, ltb, ◌==◌, ◌&&◌, if◌then◌else◌, some, List, ◌++◌,
  length, take, arith,
}
use jcd543_mct_t6_linux_driv.Prelude.Int.{ℤ, pos, is_zero}
use jcd543_mct_t6_linux_driv.Prelude.Errno.{enodev, einval, enomem}
use jcd543_mct_t6_linux_driv.Driver.Device.{Device, Head, HeadMetrics, Params, get_head, set_head}
use jcd543_mct_t6_linux_driv.Driver.Device.Heads.{get-set_head}
use jcd543_mct_t6_linux_driv.Driver.Addressing.{flip_header_size}
use jcd543_mct_t6_linux_driv.Driver.Queue.{Clock}
use jcd543_mct_t6_linux_driv.Driver.Usb.{Bus}
use jcd543_mct_t6_linux_driv.Driver.Usb.Frames.{SameHeads, get_head-SameHeads}
use jcd543_mct_t6_linux_driv.Driver.Packet.{flip_header_bytes}
use jcd543_mct_t6_linux_driv.Driver.Damage.{FrameDamage}
use jcd543_mct_t6_linux_driv.Driver.Raw.{
  raw_stride, raw_frame_size, raw_flip, is_partial, update_reference, finish_raw, conclude_raw,
  stage_raw, advance_sent, advance_secondary, send_block, send_partial, send_secondary, raw_partial,
  raw_full, raw_secondary, send_frame_raw, fail_raw,
}
use jcd543_mct_t6_linux_driv.Driver.Raw.Heads.{
  send_block-SameHeads, send_partial-SameHeads, send_secondary-SameHeads,
}
use jcd543_mct_t6_linux_driv.Driver.Raw.Refreshed.{
  IsFrame, damage_of, refreshed, refreshed_lem, unchanged,
}

-- The reference frame is valid, and is this frame.
pub record IsReference (pixels : List ℕ) (h : Head) : Type 0 where
  pub frame : h.last_sent_frame ≡ some pixels
  pub valid : h.last_sent_valid ≡ true

-- What a send leaves of its head as it was, until the end.
record SameSource (h g : Head) : Type 0 where
  sink : g.sink ≡ h.sink
  frame : g.last_sent_frame ≡ h.last_sent_frame

module _ (params : Params) (bus : Bus) (clock : Clock) (idx : ℕ) (pixels : List ℕ) where
  update_reference-IsReference :
      (h g : Head) (ref : List ℕ) (d : FrameDamage)
      → SameSource h g
      → h.last_sent_frame ≡ some ref
      → refreshed (raw_stride h) (raw_frame_size h) d pixels ref ≡ pixels
      → IsReference pixels (update_reference params bus g pixels (some d) false)
  unfolding update_reference
  update_reference-IsReference h g ref d s e done =
      rw (s.frame, e) (record { frame = rw (s.sink, done) refl; valid = refl })

  finish_raw-IsReference :
      (t : Device) (d : FrameDamage)
      → IsReference pixels (update_reference params bus (get_head t idx) pixels (some d) false)
      → IsReference pixels (get_head (finish_raw params bus clock idx pixels (some d) false t) idx)
  unfolding finish_raw
  finish_raw-IsReference t d r = ground (arith, r.frame, r.valid)

  -- A sender that leaves the frame as the reference frame of the head if it returns 0.
  record Refers (r : Device × ℤ) : Type 0 where
    refers : r.1 ≡ pos 0 → IsReference pixels (get_head r.0 idx)

  fails-Refers : (t : Device) (e : ℤ) → is_zero e ≡ false → Refers (t, e)
  fails-Refers t e n = record { refers = λ z. absurd (ground arith) }

  if-Refers :
      (b : Bool) (r q : Device × ℤ)
      → (b ≡ true → Refers r)
      → (b ≡ false → Refers q)
      → Refers (if b then r else q)
  if-Refers true r q u v = u refl
  if-Refers false r q u v = v refl

  conclude_raw-Refers :
      (h : Head) (ref : List ℕ) (d : FrameDamage) (r : Device × ℤ)
      → SameSource h (get_head r.0 idx)
      → h.last_sent_frame ≡ some ref
      → refreshed (raw_stride h) (raw_frame_size h) d pixels ref ≡ pixels
      → Refers (conclude_raw params bus clock idx pixels (some d) false r)
  unfolding conclude_raw
  conclude_raw-Refers h ref d (t, ret) s e done =
      if-Refers (is_zero ret) _ _
        (λ z. record {
          refers = λ y.
              finish_raw-IsReference t d
                (update_reference-IsReference h (get_head t idx) ref d s e done);
        })
        (λ z. fails-Refers (fail_raw params bus idx ret t) ret z)

  SameHeads-SameSource :
      (t u : Device) → SameHeads t u → SameSource (get_head t idx) (get_head u idx)
  SameHeads-SameSource t u s =
      rw (get_head-SameHeads idx t u s) (record { sink = refl; frame = refl })

  staged-SameSource :
      (t u : Device) (offset : ℕ) (bytes : List ℕ)
      → SameHeads (set_head t idx (stage_raw params bus (get_head t idx) offset bytes)) u
      → SameSource (get_head t idx) (get_head u idx)
  unfolding stage_raw
  staged-SameSource t u offset bytes s =
      let staged = set_head t idx (stage_raw params bus (get_head t idx) offset bytes) in
      rw (get_head-SameHeads idx staged u s, get-set_head) (ground arith)

  advance_sent-SameSource :
      (h : Head) (r : Device × ℤ)
      → SameSource h (get_head r.0 idx)
      → SameSource h (get_head (advance_sent params bus idx r).0 idx)
  unfolding advance_sent advance_secondary
  advance_sent-SameSource h (t, ret) s = ground arith

  module _ (t6 : Device) (ref : List ℕ) (d : FrameDamage) where
    raw_partial-Refers :
        (get_head t6 idx).last_sent_frame ≡ some ref
        → (let h = get_head t6 idx in
            refreshed (raw_stride h) (raw_frame_size h) d pixels ref ≡ pixels
            → Refers (raw_partial params bus clock idx pixels (some d) false t6))
    unfolding raw_partial
    raw_partial-Refers e done =
        let h = get_head t6 idx in
        let sent = send_partial params bus h pixels d.ranges t6 in
        conclude_raw-Refers h ref d sent
          (SameHeads-SameSource t6 sent.0 (send_partial-SameHeads params bus h pixels d.ranges t6))
          e done

    raw_full-Refers :
        (get_head t6 idx).last_sent_frame ≡ some ref
        → (let h = get_head t6 idx in
            refreshed (raw_stride h) (raw_frame_size h) d pixels ref ≡ pixels
            → Refers (raw_full params bus clock idx pixels (some d) false t6))
    unfolding raw_full
    raw_full-Refers e done =
        let h = get_head t6 idx in
        let block = flip_header_bytes (raw_flip h) ++ take (raw_frame_size h) pixels in
        let staged = set_head t6 idx (stage_raw params bus h 0 block) in
        let sent = send_block params bus h.stream.fb_addr block staged in
        if-Refers _ _ _ (λ z. fails-Refers t6 enomem refl)
          (λ z.
            conclude_raw-Refers h ref d sent
              (staged-SameSource t6 sent.0 0 block
                (send_block-SameHeads params bus h.stream.fb_addr block staged))
              e done)

    raw_secondary-Refers :
        (get_head t6 idx).last_sent_frame ≡ some ref
        → (let h = get_head t6 idx in
            refreshed (raw_stride h) (raw_frame_size h) d pixels ref ≡ pixels
            → Refers (raw_secondary params bus clock idx pixels (some d) false t6))
    unfolding raw_secondary
    raw_secondary-Refers e done =
        let h = get_head t6 idx in
        let frame = take (raw_frame_size h) pixels in
        let staged = set_head t6 idx (stage_raw params bus h flip_header_size frame) in
        let sent = send_secondary params bus h pixels staged in
        if-Refers _ _ _ (λ z. fails-Refers t6 enomem refl)
          (λ z.
            conclude_raw-Refers h ref d (advance_sent params bus idx sent)
              (advance_sent-SameSource h sent (
                staged-SameSource t6 sent.0 flip_header_size frame
                  (send_secondary-SameHeads params bus h pixels staged)))
              e done)

    -- Without a changed row nothing is sent, and the reference frame is the frame already.
    skipped-Refers :
        (m : HeadMetrics)
        → (get_head t6 idx).last_sent_frame ≡ some ref
        → (let h = get_head t6 idx in
            refreshed (raw_stride h) (raw_frame_size h) d pixels ref ≡ pixels
            → (d.full_frame ≡ false → h.last_sent_valid ≡ true)
            → (is_partial (some d) && length d.ranges == 0) ≡ true
            → Refers (set_head t6 idx (record h { metrics = m }), pos 0))
    skipped-Refers m e done valid none_changed =
        let h = get_head t6 idx in
        let same : ref ≡ pixels =
          unchanged (raw_stride h) (raw_frame_size h) d.ranges d.full_frame pixels ref none_changed
            done in
        let partial : d.full_frame ≡ false = ground arith in
        record {
          refers = λ z.
              rw (get-set_head t6 idx (record h { metrics = m }))
                (record { frame = e ∙ ap (λ (f : List ℕ). some f) same; valid = valid partial });
        }

-- When a send of a frame returns 0, with the damage that was computed against the reference frame of the head, that
-- reference frame is then valid and is the frame that was sent: also where only the dirty rows were sent and copied, on both
-- heads, and where nothing was sent as no row changed. The frame and the old reference frame have the size of the head's mode, with a width
-- that is not zero and a size below 2^32 bytes.
pub send_frame_raw-IsReference :
    (params : Params) (bus : Bus) (clock : Clock) (idx : ℕ) (pixels ref : List ℕ) (pixel_len : ℕ)
    (t6 : Device)
    → (get_head t6 idx).last_sent_frame ≡ some ref
    → IsFrame (get_head t6 idx) pixels
    → length ref ≡ length pixels
    → (send_frame_raw params bus clock idx pixels pixel_len
        (some (damage_of (get_head t6 idx) pixels ref))
        false
        t6).1
      ≡ pos 0
    → IsReference pixels (
        get_head
          (send_frame_raw params bus clock idx pixels pixel_len
            (some (damage_of (get_head t6 idx) pixels ref))
            false
            t6).0
          idx)
unfolding send_frame_raw
send_frame_raw-IsReference params bus clock idx pixels ref pixel_len t6 e f size returned =
    let h = get_head t6 idx in
    let d = damage_of h pixels ref in
    let (done, valid) = refreshed_lem h pixels ref f size in
    let fails = fails-Refers params bus clock idx pixels t6 in
    let either = if-Refers params bus clock idx pixels in
    (either (not h.sink.connected) _ _ (λ z. fails enodev refl)
        (λ z.
          either (ltb pixel_len (raw_frame_size h)) _ _ (λ z. fails einval refl)
            (λ z.
              either (is_partial (some d) && length d.ranges == 0) _ _
                (λ z. skipped-Refers params bus clock idx pixels t6 ref d _ e done valid z)
                (λ z.
                  either (h.output_idx == 0 && is_partial (some d)) _ _
                    (λ z. raw_partial-Refers params bus clock idx pixels t6 ref d e done)
                    (λ z.
                      either (h.output_idx == 0) _ _
                        (λ z. raw_full-Refers params bus clock idx pixels t6 ref d e done)
                        (λ z.
                          raw_secondary-Refers params bus clock idx pixels t6 ref d e
                            done)))))).refers
      returned
