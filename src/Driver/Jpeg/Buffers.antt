-- ===== src/Driver/Jpeg/Buffers.antt =====
-- kernel/trigger6_drv.c: the ring, the slots and the buffers of a head that sends JPEG images.
use mathlib.Core.Path.{subst}
use jcd543_mct_t6_linux_driv.Prelude.{
  ℕ, ◌+◌, ◌*◌, ◌≤◌, ◌⊎◌, ◌<◌, ◌≡◌, refl, Bool, true, false, Option, none, some, List, length, drop,
  arith, if◌then◌else◌, ◌==◌, ◌++◌, take, length-append, length-take, length-drop,
}
use jcd543_mct_t6_linux_driv.Prelude.Int.{ℤ, is_zero}
use jcd543_mct_t6_linux_driv.Driver.Device.{Transport, Device, Head, Params, get_head, set_head}
use jcd543_mct_t6_linux_driv.Driver.Device.Heads.{get-set_head}
use jcd543_mct_t6_linux_driv.Driver.Addressing.{init_head_addressing, mib, cmd_place}
use jcd543_mct_t6_linux_driv.Driver.Addressing.Ring.{
  IsRing, largest_step, init_head_addressing-IsRing, cmd_place-IsRing, next_slot_lem,
}
use jcd543_mct_t6_linux_driv.Driver.Chip.{head_defaults, head_transport, zero_stream}
use jcd543_mct_t6_linux_driv.Driver.Queue.{Clock}
use jcd543_mct_t6_linux_driv.Driver.Usb.{Bus}
use jcd543_mct_t6_linux_driv.Driver.Usb.Frames.{get_head-SameHeads}
use jcd543_mct_t6_linux_driv.Driver.Raw.{arm, send_block}
use jcd543_mct_t6_linux_driv.Driver.Raw.Heads.{send_block-SameHeads}
use jcd543_mct_t6_linux_driv.Driver.Jpeg.{
  Blob, blob_bytes, bytes_of, put_at, cmd_step, jpeg_total, jpeg_payload, advance_jpeg,
  store_last_jpeg, keepalive_ms, count_sent, finish_jpeg, send_blob_at, send_sized, send_jpeg_blob,
}

-- A copy into a buffer keeps its length.
length-put_at :
    (off : ℕ) (bytes buf : List ℕ) → off ≤ length buf → length (put_at off bytes buf) ≡ length buf
length-put_at off bytes buf h = omega (
  arith,
  length-take (length buf) (take off buf ++ (bytes ++ drop (off + length bytes) buf)),
  length-append (take off buf) (bytes ++ drop (off + length bytes) buf),
  length-append bytes (drop (off + length bytes) buf),
  length-take off buf,
  length-drop (off + length bytes) buf,
)

-- The command ring holds the largest command, the slot is one of the head's, and the image kept for the keepalive is in its buffer.
pub record IsSender (h : Head) : Type 0 where
  pub ring : IsRing (3 * mib) h.stream
  pub several : 1 < h.stream.fb_slot_count
  pub slot : h.stream.fb_slot_index < h.stream.fb_slot_count
  pub kept : h.last_jpeg_len ≤ length (bytes_of h.last_jpeg_data)

-- A step is from one to three megabytes, and the payload fits it.
cmd_step_bounds :
    (total step : ℕ) → cmd_step total ≡ some step → (total ≤ step) × (0 < step) × (step ≤ 3 * mib)
unfolding cmd_step
cmd_step_bounds total step e = ground arith

store_kept :
    (room : Bool) (image : List ℕ) (h : Head)
    → h.last_jpeg_len ≤ length (bytes_of h.last_jpeg_data)
    → let g = store_last_jpeg room image h in
      (g.last_jpeg_len ≤ length (bytes_of g.last_jpeg_data)) × (g.stream ≡ h.stream)
unfolding store_last_jpeg
store_kept room image h fits = ground (arith, length-put_at 0 image (bytes_of h.last_jpeg_data))

advance-IsRing :
    (step : ℕ) (h : Head)
    → 0 < step
    → step ≤ 3 * mib
    → IsSender h
    → let s = advance_jpeg step h.stream in
      IsRing (3 * mib) s × (1 < s.fb_slot_count) × (s.fb_slot_index < s.fb_slot_count)
unfolding advance_jpeg
advance-IsRing step h low high i = ground (
  arith,
  cmd_place-IsRing (3 * mib) step h.stream high low i.ring,
  next_slot_lem h.stream i.several i.slot,
)

module _ (params : Params) (bus : Bus) where
  finish_jpeg-IsSender :
      (clock : Clock) (idx total step : ℕ) (image : List ℕ) (t : Device)
      → 0 < step
      → step ≤ 3 * mib
      → IsSender (get_head t idx)
      → IsSender (get_head (finish_jpeg params bus clock idx total step image t) idx)
  unfolding finish_jpeg
  finish_jpeg-IsSender clock idx total step image t low high i =
      let h = get_head t idx in
      let sent : Head = record h {
        stream = advance_jpeg step h.stream;
        metrics = count_sent total (bus.elapsed_ns t.wire) h.metrics;
      } in
      let g = store_last_jpeg (bus.allocates t.wire) image sent in
      let (kept, same) = store_kept (bus.allocates t.wire) image sent i.kept in
      let (ring, several, slot) = advance-IsRing step h low high i in
      rw (get-set_head t idx (arm clock keepalive_ms g)) (record {
        ring = rw same ring;
        several = rw same several;
        slot = rw same slot;
        kept = kept;
      })

  -- A staging buffer that was filled is no part of what is kept.
  stage-IsSender :
      (idx : ℕ) (staging : List ℕ) (t : Device)
      → IsSender (get_head t idx)
      → IsSender
          (get_head (set_head t idx (record (get_head t idx) { jpeg_staging = some staging })) idx)
  stage-IsSender idx staging t i =
      rw (get-set_head t idx (record (get_head t idx) { jpeg_staging = some staging }))
        (record { ring = i.ring; several = i.several; slot = i.slot; kept = i.kept })

  either-IsSender :
      (idx : ℕ) (b : Bool) (p q : Device × ℤ)
      → IsSender (get_head p.0 idx)
      → IsSender (get_head q.0 idx)
      → IsSender (get_head (if b then p else q).0 idx)
  either-IsSender idx true p q u v = u
  either-IsSender idx false p q u v = v

  send_blob_at-IsSender :
      (clock : Clock) (idx : ℕ) (blob : Blob) (len step : ℕ) (t : Device)
      → 0 < step
      → step ≤ 3 * mib
      → IsSender (get_head t idx)
      → IsSender (get_head (send_blob_at params bus clock idx blob len step t).0 idx)
  unfolding send_blob_at
  send_blob_at-IsSender clock idx blob len step t low high i =
      let h = get_head t idx in
      let payload = jpeg_payload h blob len step in
      let staging = put_at 0 payload (bytes_of h.jpeg_staging) in
      let staged = set_head t idx (record h { jpeg_staging = some staging }) in
      let sent = send_block params bus (cmd_place h.stream step) payload staged in
      let same =
        get_head-SameHeads idx staged sent.0
          (send_block-SameHeads params bus (cmd_place h.stream step) payload staged) in
      let after : IsSender (get_head sent.0 idx) = rw same (stage-IsSender idx staging t i) in
      let done =
        finish_jpeg params bus clock idx (jpeg_total len) step (blob_bytes h blob len) sent.0 in
      either-IsSender idx (is_zero sent.1) (done, sent.1) (sent.0, sent.1)
        (finish_jpeg-IsSender clock idx (jpeg_total len) step (blob_bytes h blob len) sent.0 low
          high after)
        after

  send_sized-IsSender :
      (clock : Clock) (idx : ℕ) (blob : Blob) (len : ℕ) (s : Option ℕ) (t : Device)
      → cmd_step (jpeg_total len) ≡ s
      → IsSender (get_head t idx)
      → IsSender (get_head (send_sized params bus clock idx blob len s t).0 idx)
  unfolding send_sized
  send_sized-IsSender clock idx blob len none t e i = i
  send_sized-IsSender clock idx blob len (some step) t e i =
      let (_, low, high) = cmd_step_bounds (jpeg_total len) step e in
      either-IsSender idx _ _ (send_blob_at params bus clock idx blob len step t) i
        (send_blob_at-IsSender clock idx blob len step t low high i)

  -- Sending a JPEG image, whatever its length and whether it succeeds or fails, keeps what makes the next one safe: a
  -- command ring with the cursor inside that holds every step of up to three megabytes, a valid slot among several, and a
  -- keepalive image no longer than its buffer.
  pub send_jpeg_blob-IsSender :
      (clock : Clock) (idx : ℕ) (blob : Blob) (len : ℕ) (t : Device)
      → IsSender (get_head t idx)
      → IsSender (get_head (send_jpeg_blob params bus clock idx blob len t).0 idx)
  unfolding send_jpeg_blob
  send_jpeg_blob-IsSender clock idx blob len t i =
      either-IsSender idx (len == 0) _
        (send_sized params bus clock idx blob len (cmd_step (jpeg_total len)) t) i
        (send_sized-IsSender clock idx blob len (cmd_step (jpeg_total len)) t refl i)

first_slot :
    (ram_mb : ℕ) (t : Transport)
    → let s = init_head_addressing ram_mb 1 t zero_stream in
      (1 < s.fb_slot_count) × (s.fb_slot_index < s.fb_slot_count)
unfolding init_head_addressing
first_slot ram_mb t = ground arith

not_raw :
    (params : Params)
    → (params.secondary_userspace_jpeg ≡ true) ⊎ (params.experimental_secondary_raw ≡ false)
    → largest_step (head_transport params 1) ≡ 3 * mib
unfolding head_transport
not_raw params default = ground (arith, default)

-- A secondary head that is not forced to the raw transport starts as such a sender: with 30 megabytes of memory or more, and fewer than 4096, its
-- defaults have a command ring, several slots with a valid one chosen, and no keepalive image.
pub head_defaults-IsSender :
    (params : Params) (ram_mb : ℕ)
    → 30 ≤ ram_mb
    → ram_mb < 4096
    → (params.secondary_userspace_jpeg ≡ true) ⊎ (params.experimental_secondary_raw ≡ false)
    → IsSender (head_defaults params ram_mb 1)
      × ((head_defaults params ram_mb 1).last_jpeg_data ≡ none)
      × ((head_defaults params ram_mb 1).last_jpeg_len ≡ 0)
unfolding head_defaults
head_defaults-IsSender params ram_mb low high default =
    let tr = head_transport params 1 in
    let step : largest_step tr ≡ 3 * mib = not_raw params default in
    (
      record {
        ring =
            subst (λ (n : ℕ). IsRing n (init_head_addressing ram_mb 1 tr zero_stream)) step
              (init_head_addressing-IsRing ram_mb tr zero_stream low high);
        several = (first_slot ram_mb tr).0;
        slot = (first_slot ram_mb tr).1;
        kept = omega arith;
      },
      refl,
      refl,
    )
