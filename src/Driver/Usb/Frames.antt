-- ===== src/Driver/Usb/Frames.antt =====
-- kernel/trigger6_drv.c: a bulk write leaves both heads alone.
use jcd543_mct_t6_linux_driv.Prelude.{
  ℕ, zero, suc, ◌+◌, ◌≡◌, refl, ◌∙◌, min, List, length, take, drop, arith, if◌then◌else◌, ◌==◌,
  Bool, true, false,
}
use jcd543_mct_t6_linux_driv.Prelude.Int.{ℤ, pos}
use jcd543_mct_t6_linux_driv.Prelude.Errno.{eio}
use jcd543_mct_t6_linux_driv.Driver.Device.{Device, Params, get_head}
use jcd543_mct_t6_linux_driv.Driver.Usb.{
  Bus, xfer_chunk_size, latch_io_error, observe_suspend, bulk_chunk, bulk_loop, bulk_write,
}

-- The second device has the heads of the first.
pub record SameHeads (t u : Device) : Type 0 where
  pub head0 : u.head0 ≡ t.head0
  pub head1 : u.head1 ≡ t.head1

pub SameHeads-trans : (a b c : Device) → SameHeads a b → SameHeads b c → SameHeads a c
SameHeads-trans a b c u v = record { head0 = v.head0 ∙ u.head0; head1 = v.head1 ∙ u.head1 }

pub get_head-SameHeads : (idx : ℕ) (t u : Device) → SameHeads t u → get_head u idx ≡ get_head t idx
get_head-SameHeads idx t u s = rw (s.head0, s.head1) refl

branches-SameHeads :
    (t : Device) (a b c : Bool) (p q r s : Device × ℤ)
    → SameHeads t p.0
    → SameHeads t q.0
    → SameHeads t r.0
    → SameHeads t s.0
    → SameHeads t (if a then p else if b then q else if c then r else s).0
branches-SameHeads t true b c p q r s hp hq hr hs = hp
branches-SameHeads t false true c p q r s hp hq hr hs = hq
branches-SameHeads t false false true p q r s hp hq hr hs = hr
branches-SameHeads t false false false p q r s hp hq hr hs = hs

module _ (params : Params) (bus : Bus) where
  observe-SameHeads : (t : Device) → SameHeads t (observe_suspend params bus t)
  unfolding observe_suspend
  observe-SameHeads t = ground arith

  chunk-SameHeads : (chunk : List ℕ) (t : Device) → SameHeads t (bulk_chunk params bus chunk t).0
  unfolding bulk_chunk latch_io_error
  chunk-SameHeads chunk t = ground arith

  loop-SameHeads :
      (fuel : ℕ) (cursor : List ℕ) (ret : ℤ) (t : Device)
      → SameHeads t (bulk_loop params bus fuel cursor ret t).0
  unfolding bulk_loop
  loop-SameHeads zero cursor ret t = record { head0 = refl; head1 = refl }
  loop-SameHeads (suc fuel) cursor ret t =
      let seen = observe_suspend params bus t in
      let n = min xfer_chunk_size (length cursor) in
      let sent = bulk_chunk params bus (take n cursor) seen in
      let a = observe-SameHeads t in
      let b = chunk-SameHeads (take n cursor) seen in
      let c = loop-SameHeads fuel (drop n cursor) sent.1 sent.0 in
      let rest = bulk_loop params bus fuel (drop n cursor) sent.1 sent.0 in
      let d = SameHeads-trans t seen sent.0 a b in
      branches-SameHeads t (length cursor == 0) seen.io_faulted sent.2 (t, ret) (seen, eio) rest
        (sent.0, sent.1) (record { head0 = refl; head1 = refl }) a
        (SameHeads-trans t sent.0 rest.0 d c) d

  pub bulk_write-SameHeads :
      (src : List ℕ) (t : Device) → SameHeads t (bulk_write params bus src t).0
  unfolding bulk_write
  bulk_write-SameHeads src t =
      let m = t.metrics in
      let counted = record t {
        metrics = record m {
          bulk_calls = m.bulk_calls + 1;
          bulk_bytes = m.bulk_bytes + length src;
          last_bulk_bytes = length src;
        };
      } in
      ground (arith, loop-SameHeads (length src + 1) src (pos 0) counted)
