-- ===== src/Driver/Bind/Buffers.antt =====
-- kernel/trigger6_drv.c: the buffers of the heads of a device that is being started.
use jcd543_mct_t6_linux_driv.Prelude.{
  ℕ, ◌≡◌, refl, Bool, true, false, Option, some, List, arith, if◌then◌else◌, ◌⊎◌, inl, inr, ◌||◌,
  not, ◌*◌,
}
use jcd543_mct_t6_linux_driv.Driver.Device.{Device, Head, is_raw, is_nv12}
use jcd543_mct_t6_linux_driv.Driver.Queue.{is_null}
use jcd543_mct_t6_linux_driv.Driver.Addressing.{mib}
use jcd543_mct_t6_linux_driv.Driver.Chip.{zeroed, with_buffers, alloc_head, alloc_head_buffers}
use jcd543_mct_t6_linux_driv.Driver.Chip.Sent.{init_transfers, head_transfers, SameBuffers}

-- The buffers of a head that its transport wants are there.
pub record IsAllocated (h : Head) : Type 0 where
  pub front : is_null h.tx.front ≡ false
  pub back : is_null h.tx.back ≡ false
  pub video : (is_raw h.transport ≡ false) ⊎ (is_null h.video_staging ≡ false)
  pub encoded : (is_raw h.transport ≡ true) ⊎ (is_null h.jpeg_staging ≡ false)
  pub reference :
      ((is_raw h.transport ≡ false) × (is_nv12 h.transport ≡ false))
      ⊎ (is_null h.last_sent_frame ≡ false)

alloc_head-with_buffers :
    (room : ℕ → Bool) (h g : Head) → alloc_head room h ≡ some g → g ≡ with_buffers h
unfolding alloc_head
alloc_head-with_buffers room h g e = ground (arith, e)

wanted_buffer :
    (b : Bool) (size : ℕ) (old : Option (List ℕ))
    → (b ≡ false) ⊎ (is_null (if b then zeroed true size else old) ≡ false)
wanted_buffer true size old = inr refl
wanted_buffer false size old = inl refl

either_wants : (b c : Bool) (P : Type 0) → ((b || c) ≡ false) ⊎ P → ((b ≡ false) × (c ≡ false)) ⊎ P
either_wants b c P h = ground (arith, h)

not_wants : (b : Bool) (P : Type 0) → (not b ≡ false) ⊎ P → (b ≡ true) ⊎ P
not_wants b P h = ground (arith, h)

pub with_buffers-IsAllocated : (h : Head) → IsAllocated (with_buffers h)
unfolding with_buffers
with_buffers-IsAllocated h = record {
  front = refl;
  back = refl;
  video = wanted_buffer (is_raw h.transport) _ h.video_staging;
  encoded =
      not_wants (is_raw h.transport) _
        (wanted_buffer (not (is_raw h.transport)) (3 * mib) h.jpeg_staging);
  reference =
      either_wants (is_raw h.transport) (is_nv12 h.transport) _
        (wanted_buffer (is_raw h.transport || is_nv12 h.transport) _ h.last_sent_frame);
}

with_buffers_same :
    (h : Head) → ((with_buffers h).sink ≡ h.sink) × ((with_buffers h).output_idx ≡ h.output_idx)
unfolding with_buffers
with_buffers_same h = (refl, refl)

-- What the allocation leaves alone, and what it gives.
pub record IsEquipped (t a : Device) : Type 0 where
  pub wire : a.wire ≡ t.wire
  pub kept : (a.ram_mb ≡ t.ram_mb) × (a.has_wq ≡ t.has_wq) × (a.has_bulk_chunk ≡ true)
  pub heads : (a.head0 ≡ with_buffers t.head0) × (a.head1 ≡ with_buffers t.head1)

pub alloc-IsEquipped :
    (chunk : Bool) (room0 room1 : ℕ → Bool) (t a : Device)
    → alloc_head_buffers chunk room0 room1 t ≡ some a
    → IsEquipped t a
unfolding alloc_head_buffers
alloc-IsEquipped chunk room0 room1 t a e =
    ground (arith, e, alloc_head-with_buffers room0 t.head0, alloc_head-with_buffers room1 t.head1)

-- The buffers survive what leaves them alone.
pub keep-IsAllocated : (h g : Head) → SameBuffers h g → IsAllocated h → IsAllocated g
keep-IsAllocated h g s a = ground arith

pub init_transfers_equipped : (t a : Device) → IsEquipped t a → init_transfers a ≡ init_transfers t
unfolding init_transfers head_transfers
init_transfers_equipped t a q =
    rw
      (
        q.heads.0,
        q.heads.1,
        (with_buffers_same t.head0).0,
        (with_buffers_same t.head0).1,
        (with_buffers_same t.head1).0,
        (with_buffers_same t.head1).1,
      )
      refl
