-- ===== src/Driver/Raw/Heads.antt =====
-- kernel/trigger6_drv.c: the transfers of the raw sender leave the heads alone.
use jcd543_mct_t6_linux_driv.Prelude.{
  ℕ, ◌+◌, ◌*◌, refl, Bool, true, false, List, [], ◌∷◌, length, take, drop, if◌then◌else◌,
}
use jcd543_mct_t6_linux_driv.Prelude.Words.{u32}
use jcd543_mct_t6_linux_driv.Prelude.Int.{ℤ, is_zero}
use jcd543_mct_t6_linux_driv.Driver.Device.{Device, Head, Params}
use jcd543_mct_t6_linux_driv.Driver.Addressing.{
  mib, flip_header_size, next_slot, slot_addr, cmd_place,
}
use jcd543_mct_t6_linux_driv.Driver.Usb.{Bus, bulk_write}
use jcd543_mct_t6_linux_driv.Driver.Usb.Frames.{SameHeads, SameHeads-trans, bulk_write-SameHeads}
use jcd543_mct_t6_linux_driv.Driver.Packet.{bulk_header_bytes, flip_header_bytes}
use jcd543_mct_t6_linux_driv.Driver.Damage.{DirtyRange}
use jcd543_mct_t6_linux_driv.Driver.Raw.{
  raw_stride, raw_frame_size, raw_flip, send_block, send_ranges, send_partial, send_secondary,
}

-- A second sender that runs only if the first succeeds.
then-SameHeads :
    (t : Device) (r : Device × ℤ) (next : Device × ℤ)
    → SameHeads t r.0
    → SameHeads r.0 next.0
    → SameHeads t (if is_zero r.1 then next else r).0
then-SameHeads t r next a b = by_cases (is_zero r.1)
  where
    by_cases : (z : Bool) → SameHeads t (if z then next else r).0
    by_cases true = SameHeads-trans t r.0 next.0 a b
    by_cases false = a

module _ (params : Params) (bus : Bus) where
  pub send_block-SameHeads :
      (address : ℕ) (bytes : List ℕ) (t : Device)
      → SameHeads t (send_block params bus address bytes t).0
  unfolding send_block
  send_block-SameHeads address bytes t =
      let header = bulk_header_bytes (record {
        payload_length = length bytes;
        payload_address = address;
        packet_length = length bytes;
      }) in
      let sent = bulk_write params bus header t in
      then-SameHeads t sent (bulk_write params bus bytes sent.0)
        (bulk_write-SameHeads params bus header t) (bulk_write-SameHeads params bus bytes sent.0)

  send_ranges-SameHeads :
      (fb stride : ℕ) (src : List ℕ) (rs : List DirtyRange) (t : Device)
      → SameHeads t (send_ranges params bus fb stride src rs t).0
  unfolding send_ranges
  send_ranges-SameHeads fb stride src [] t = record { head0 = refl; head1 = refl }
  send_ranges-SameHeads fb stride src (r ∷ rs) t =
      let offset = u32 (r.y_start * stride) in
      let address = u32 (fb + flip_header_size + offset) in
      let bytes = take (u32 (r.y_count * stride)) (drop offset src) in
      let sent = send_block params bus address bytes t in
      then-SameHeads t sent (send_ranges params bus fb stride src rs sent.0)
        (send_block-SameHeads address bytes t) (send_ranges-SameHeads fb stride src rs sent.0)

  pub send_partial-SameHeads :
      (h : Head) (src : List ℕ) (rs : List DirtyRange) (t : Device)
      → SameHeads t (send_partial params bus h src rs t).0
  unfolding send_partial
  send_partial-SameHeads h src rs t =
      let fb = h.stream.fb_addr in
      let sent = send_ranges params bus fb (raw_stride h) src rs t in
      then-SameHeads t sent (send_block params bus fb (flip_header_bytes (raw_flip h)) sent.0)
        (send_ranges-SameHeads fb (raw_stride h) src rs t)
        (send_block-SameHeads fb (flip_header_bytes (raw_flip h)) sent.0)

  pub send_secondary-SameHeads :
      (h : Head) (src : List ℕ) (t : Device) → SameHeads t (send_secondary params bus h src t).0
  unfolding send_secondary
  send_secondary-SameHeads h src t =
      let fb = slot_addr h.stream (next_slot h.stream) in
      let sent = send_block params bus fb (take (raw_frame_size h) src) t in
      let flip = flip_header_bytes (record (raw_flip h) { y_fb_offset = fb }) in
      then-SameHeads t sent (send_block params bus (cmd_place h.stream mib) flip sent.0)
        (send_block-SameHeads fb (take (raw_frame_size h) src) t)
        (send_block-SameHeads (cmd_place h.stream mib) flip sent.0)
